-- ===== src/Conflict/Tests.antt =====
-- Runs of the conflict scanner on small files, and the theorems applied to them.
use mergebot.Prelude.{◌≡◌, refl, true, false, List, [], ◌∷◌, ◌++◌, arith, All}
use mergebot.Bytes.{Bytes, codes, find}
use mergebot.Bytes.Lines.{newline}
use mergebot.Conflict.{
  ConflictBlock, ConflictFile, ours, base, theirs, end, enum_name, extract_code_from_conflict_range,
  ok, overrun, construct_conflict_file,
}
use mergebot.Conflict.Extract.{Labels, diff3, IsClear, extract-diff3}
use mergebot.Conflict.Segments.{
  Segment, plain, block, render, blocks_of, IsWhole, construct_conflict_file-render,
}
use mergebot.Conflict.Tidy.{tidy_up_conflict_files, pending, tidy_up_conflict_files-pending}
use mergebot.Conflict.Buffer.{construct_conflict_file_total}
use mergebot.Conflict.Unterminated.{open_block, construct_conflict_file_unterminated}

abbrev line : Bytes → Bytes
line s = s ++ newline ∷ []

abbrev labels : Labels
labels = record { ours = codes " HEAD"; base = codes " old"; theirs = []; end = codes " topic" }

abbrev two_lines : Bytes
two_lines = line (codes "int a;") ++ line (codes "")

clear : IsClear labels (line (codes "f();")) [] two_lines
unfolding find
clear = record {
  label_ours = omega arith;
  label_base = omega arith;
  label_theirs = tt;
  head_ours_base = (refl, refl);
  head_ours_theirs = (refl, refl);
  head_base_theirs = (refl, refl);
  our_base = (refl, refl);
  our_theirs = (refl, refl);
  bas_theirs = (tt, refl);
  their_end = (refl, refl);
}

extract-diff3_example :
    let text = diff3 labels (line (codes "f();")) [] two_lines in
    (extract_code_from_conflict_range text (enum_name ours) (enum_name base) ≡ line (codes "f();"))
    × (extract_code_from_conflict_range text (enum_name base) (enum_name theirs) ≡ [])
    × (extract_code_from_conflict_range text (enum_name theirs) (enum_name end) ≡ two_lines)
extract-diff3_example = extract-diff3 labels (line (codes "f();")) [] two_lines clear

abbrev segments : List Segment
segments =
    plain (codes "x")
    ∷ block (codes " HEAD") (codes "a" ∷ codes "=======" ∷ codes "b" ∷ []) (codes " topic")
    ∷ plain []
    ∷ block [] [] []
    ∷ []

segments-All : All IsWhole segments
segments-All = (
  (omega arith, refl),
  (
    (
      omega arith,
      ((omega arith, refl), ((omega arith, refl), ((omega arith, refl), tt))),
      omega arith,
    ),
    ((tt, refl), ((tt, tt, tt), tt)),
  ),
)

construct_conflict_file-render_example :
    construct_conflict_file (render segments) ≡ ok (blocks_of 0 segments)
construct_conflict_file-render_example = construct_conflict_file-render segments segments-All

construct_conflict_file_total_example :
    (bs : List ConflictBlock) × (construct_conflict_file
        (line (codes "<<<<<<< HEAD") ++ line (codes "a"))
      ≡ ok bs)
construct_conflict_file_total_example =
    construct_conflict_file_total (line (codes "<<<<<<< HEAD") ++ line (codes "a")) refl

construct_conflict_file_unterminated_example :
    construct_conflict_file
      (render segments ++ open_block (codes " HEAD") (codes "a" ∷ []) (codes ">>>>>>> topic"))
    ≡ overrun
construct_conflict_file_unterminated_example =
    construct_conflict_file_unterminated segments (codes " HEAD") (codes "a" ∷ [])
      (codes ">>>>>>> topic") segments-All
      (omega arith, ((omega arith, refl), tt), (λ q. cc), omega arith)

abbrev some_files : List ConflictFile
some_files =
    record {
      filename = codes "a.cpp";
      conflict_blocks = record { index = 1; conflict_range = []; resolved = true } ∷ [];
      resolved = false;
    }
    ∷ record { filename = codes "b.h"; conflict_blocks = []; resolved = true }
    ∷ []

tidy_up_conflict_files-pending_example : tidy_up_conflict_files some_files ≡ pending some_files
tidy_up_conflict_files-pending_example = tidy_up_conflict_files-pending some_files
