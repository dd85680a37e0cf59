-- ===== src/Handlers/Samples.antt =====
-- A file of two conflict blocks, of which the style based handler resolves the second.
use mergebot.Prelude.{ℕ, ◌≡◌, refl, true, false, some, List, [], ◌∷◌, ◌++◌}
use mergebot.Bytes.{Bytes, codes, find, contains}
use mergebot.Bytes.Lines.{newline}
use mergebot.Conflict.{ConflictBlock, ConflictFile}
use mergebot.Results.{absent, garbage, results, Disk, set_entry, merged, marshal_resolution_result}
use mergebot.Conflict.{extract_code_from_conflict_range, skip_line, take_until}
use mergebot.Conflict.Tidy.{
  tidy_up_conflict_files, tidy_up_conflict_blocks, any_block, open_blocks, any_file, tidy_file,
  open_files, tidy_each,
}
use mergebot.StringOps.Split.{string_split, string_join}
use mergebot.StringOps.Deflate.{remove_comments_and_spaces}
use mergebot.StringOps.Macro.{do_macro_expansion}
use mergebot.Paths.{path_to_name, replace}
use mergebot.Bytes.Lines.{line_of, rest_of}
use mergebot.Handlers.{our_code, their_code, note_block, note_file, all_resolved, ever_resolved}
use mergebot.Handlers.{
  State, resolve_conflict_files, style_check, has_base, resolve_files, resolve_blocks,
}

abbrev line : Bytes → Bytes
line s = s ++ newline ∷ []

abbrev block_of : ℕ → Bytes → Bytes → ConflictBlock
block_of i our their = record {
  index = i;
  conflict_range =
      line (codes "<<<<<<< a")
      ++ (our ++ (line (codes "=======") ++ (their ++ line (codes ">>>>>>> b"))));
  resolved = false;
}

abbrev first : ConflictBlock
first = block_of 1 (line (codes "f();")) (line (codes "g();"))

abbrev second : ConflictBlock
second = block_of 2 (line (codes "x = 1;")) (line (codes "x=1; // one"))

abbrev one_file : List ConflictFile
one_file =
    record { filename = codes "a.cpp"; conflict_blocks = first ∷ second ∷ []; resolved = false }
    ∷ []

abbrev pub disk : Disk
disk = record { relative = λ p. p; writes = λ p. true; failed = λ p e. garbage }

abbrev pub before : State
before = record { files = one_file; store = λ p. absent; running = true }

abbrev pub behind : State
behind = record {
  files = record { filename = codes "a.cpp"; conflict_blocks = first ∷ []; resolved = false } ∷ [];
  store =
      set_entry (codes "a.cpp")
        (results (record {
          filepath = codes "a.cpp";
          resolutions =
              record {
                index = 2;
                desc = codes "Merge conflict caused by formatting issues.";
                code = line (codes "x = 1;");
                confidence = 0;
              }
              ∷ [];
        }))
        (λ p. absent);
  running = true;
}

pub behind_lem : resolve_conflict_files disk style_check before ≡ some behind
unfolding resolve_conflict_files style_check has_base resolve_files resolve_blocks our_code
    their_code note_block note_file all_resolved ever_resolved marshal_resolution_result set_entry
    merged path_to_name replace string_split string_join extract_code_from_conflict_range skip_line
    take_until find contains line_of rest_of tidy_up_conflict_files tidy_up_conflict_blocks
    any_block open_blocks any_file tidy_file open_files tidy_each remove_comments_and_spaces
    do_macro_expansion
behind_lem = refl

pub again_lem : resolve_conflict_files disk style_check behind ≡ some behind
unfolding resolve_conflict_files style_check has_base resolve_files resolve_blocks our_code
    their_code note_block note_file all_resolved ever_resolved marshal_resolution_result set_entry
    merged path_to_name replace string_split string_join extract_code_from_conflict_range skip_line
    take_until find contains line_of rest_of tidy_up_conflict_files tidy_up_conflict_blocks
    any_block open_blocks any_file tidy_file open_files tidy_each remove_comments_and_spaces
    do_macro_expansion
again_lem = refl
