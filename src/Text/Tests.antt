-- ===== src/Text/Tests.antt =====
-- The text based handler at small inputs.
use mergebot.Prelude.{◌≡◌, ◌↔◌, refl, true, false, some, [], List, ◌∷◌, ◌++◌}
use mergebot.Bytes.{Bytes, codes, contains, find}
use mergebot.Bytes.Lines.{newline}
use mergebot.Conflict.{ConflictFile}
use mergebot.Results.{BlockResolutionResult}
use mergebot.Handlers.{resolved}
use mergebot.Text.{
  parse_definitions, SyntaxNode, Env, extract_conflict_block, extract_from, is_sub_sequence,
}
use mergebot.Text.Checks.{
  text_check, check_deletion, deletion_result, with_range, deletion_or_modification,
  favours_modification, lower,
}
use mergebot.Text.Sub.{Sub, is_sub_sequence-Sub}
use mergebot.Text.Parts.{Item, children_of, parse_definitions-children_of}

abbrev merged_file : Bytes
merged_file =
    codes "<<<<<<< a"
    ++ newline ∷ codes "||||||| b"
    ++ newline ∷ codes "x"
    ++ newline ∷ codes "======="
    ++ newline ∷ codes ">>>>>>> c"

abbrev env : Env
env = record {
  conflicts = λ f. some merged_file;
  children = λ code. [];
  deletion_infavor = some (codes "Modification");
}

abbrev cf : ConflictFile
cf = record { filename = codes "a.h"; conflict_blocks = []; resolved = false }

abbrev kept : BlockResolutionResult
kept = record { index = 1; desc = codes "Single side deletion."; code = codes "y"; confidence = 70 }

keeps_modification : text_check env cf [] (codes "y") 1 ≡ resolved kept
unfolding text_check check_deletion deletion_result with_range deletion_or_modification
    favours_modification lower extract_conflict_block extract_from find
keeps_modification = refl

is_sub_sequence-Sub_example :
    (is_sub_sequence (codes "a" ∷ codes "b" ∷ codes "c" ∷ []) (codes "a" ∷ codes "c" ∷ []) ≡ true)
    ↔ Sub (codes "a" ∷ codes "b" ∷ codes "c" ∷ []) (codes "a" ∷ codes "c" ∷ [])
is_sub_sequence-Sub_example =
    is_sub_sequence-Sub (codes "a" ∷ codes "b" ∷ codes "c" ∷ []) (codes "a" ∷ codes "c" ∷ [])

abbrev comment_of : Bytes → SyntaxNode
comment_of s = record { symbol = codes "comment"; text = s; named = true }

abbrev named_node : Bytes → Bytes → SyntaxNode
named_node kind s = record { symbol = kind; text = s; named = true }

abbrev items : List Item
items =
    record {
      tokens = [];
      comments = comment_of (codes "// 1") ∷ comment_of (codes "// 2") ∷ [];
      node = named_node (codes "function_definition") (codes "int f() {}");
    }
    ∷ record {
      tokens = record { symbol = codes ";"; text = codes ";"; named = false } ∷ [];
      comments = [];
      node = named_node (codes "declaration") (codes "int x;");
    }
    ∷ []

abbrev env_of_items : Env
env_of_items = record env { children = λ code. children_of items }

parse_definitions-children_of_example :
    parse_definitions env_of_items (codes "x")
    ≡ some (codes "// 1\nint f() {}" ∷ codes "int x;" ∷ [])
unfolding contains find
parse_definitions-children_of_example =
    parse_definitions-children_of env_of_items (codes "x") items refl refl
      ((tt, (refl, (refl, tt)), refl, refl, refl), ((((refl, refl), tt), tt, refl, refl, refl), tt))
