-- ===== src/Text/Checks.antt =====
-- The four checks of a block, and their order in `TextBasedHandler::resolveConflictFiles`.
use mergebot.Prelude.{
  ℕ, ◌+◌, ◌-◌, Bool, true, false, ◌&&◌, ◌||◌, not, Option, none, some, List, [], ◌∷◌, ltb, leb,
  if◌then◌else◌, length,
}
pub mod Index
use mergebot.Bytes.{Bytes, codes, bytes_eq, contains, is_empty}
use mergebot.Bytes.Lines.{newline}
use mergebot.Conflict.{
  ConflictFile, ours, base, theirs, end, enum_name, extract_code_from_conflict_range,
}
use mergebot.StringOps.Deflate.{remove_comments_and_spaces}
use mergebot.StringOps.Macro.{do_macro_expansion}
use mergebot.StringOps.Split.{string_split, string_join}
use mergebot.Results.{BlockResolutionResult}
use mergebot.Handlers.{Verdict, fault, unresolved, resolved, Check}
use mergebot.Graph.{merge_vectors}
use mergebot.Text.{
  Extracted, text, overrun, extract_conflict_block, is_cpp_source, is_cpp_header, is_sub_sequence,
  SyntaxNode, Env, is_comment, parse_declarations, parse_definitions, parse_inclusions,
}

abbrev pub result : ℕ → Bytes → Bytes → ℕ → Verdict
result index desc code confidence =
    resolved (record { index = index; desc = desc; code = code; confidence = confidence })

-- `::tolower` of a byte in the C locale.
abbrev pub to_lower : ℕ → ℕ
to_lower c = if leb b'A' c && leb c b'Z' then c + 32 else c

unfoldable pub lower : Bytes → Bytes
lower [] = []
lower (c ∷ s) = to_lower c ∷ lower s

-- `initDeletionInfavor`: whether a modification wins over a deletion.
unfoldable pub favours_modification : Option Bytes → Bool
unfolding lower
favours_modification none = false
favours_modification (some v) = bytes_eq (lower v) (codes "modification")

unfoldable pub deletion_or_modification : Env → Bytes → Bytes
unfolding favours_modification
deletion_or_modification env code =
    if is_empty code then [] else if favours_modification env.deletion_infavor then code else []

-- The text of the block in the file of the directory `conflicts`, and what a check makes of it.
unfoldable pub with_range : Env → ConflictFile → ℕ → (Bytes → Verdict) → Verdict
with_range env cf index use_range = elim (env.conflicts cf.filename) [
  | none ↦ unresolved
  | some file ↦ elim (extract_conflict_block index file) [
    | overrun ↦ fault
    | text range ↦ if is_empty range then unresolved else use_range range
  ]
]

unfoldable pub deletion_result : Env → Bytes → Bytes → ℕ → Verdict
unfolding deletion_or_modification
deletion_result env our their index =
    if is_empty our
    then result index (codes "Single side deletion.") (deletion_or_modification env their) 70
    else result index (codes "Single side deletion.") (deletion_or_modification env our) 70

unfoldable pub check_deletion : Env → Check
unfolding with_range deletion_result
check_deletion env cf our their index =
    if not (is_empty our) && not (is_empty their)
    then unresolved
    else with_range env cf index (λ range. deletion_result env our their index)

pub side_of : Bytes → Bytes → Bytes → Bytes
side_of range start_mark end_mark =
    remove_comments_and_spaces
      (do_macro_expansion (extract_code_from_conflict_range range start_mark end_mark))

-- The sides and the base of the range, compared.
pub compare_range : Bytes → Bytes → ℕ → Bytes → Verdict
unfolding side_of
compare_range our their index range =
    let our_deflated = side_of range (enum_name ours) (enum_name base) in
    let base_deflated = side_of range (enum_name base) (enum_name theirs) in
    let their_deflated = side_of range (enum_name theirs) (enum_name end) in
    if bytes_eq our_deflated base_deflated
    then result index (codes "De facto one-sided modification, accept their side.") their 70
    else if bytes_eq their_deflated base_deflated
    then result index (codes "De facto one-sided modification, accept our side.") our 70
    else unresolved

pub check_one_side_delta : Env → Check
unfolding with_range compare_range
check_one_side_delta env cf our their index =
    if is_empty our || is_empty their
    then unresolved
    else with_range env cf index (compare_range our their index)

-- The comparison of the lines of the sides, for a source file: `none` where it decides nothing.
pub check_lines : Bytes → Bytes → ℕ → Option Verdict
check_lines our their index =
    let our_lines = string_split our (newline ∷ []) false in
    let their_lines = string_split their (newline ∷ []) false in
    if ltb (length their_lines) (length our_lines)
    then (if is_sub_sequence our_lines their_lines
        then some (result index (codes "Added code or method extraction, accept our side.") our 70)
        else none)
    else if is_sub_sequence their_lines our_lines
    then some (result index (codes "Added code or method extraction, accept their side") their 70)
    else none

pub only_declarations : List SyntaxNode → Bool
only_declarations [] = true
only_declarations (n ∷ ns) =
    if not n.named || (is_comment n || contains n.symbol (codes "declaration"))
    then only_declarations ns
    else false

pub check_header : Env → Bool → Bytes → Bytes → ℕ → Verdict
unfolding only_declarations
check_header env our_contain our their index =
    if not (only_declarations (env.children our))
    then unresolved
    else if not (only_declarations (env.children their))
    then unresolved
    else if our_contain
    then result index (codes "Our side contains all the modifications, accept our side") our 70
    else result index (codes "Their side contains all the modifications, accept their side.") their
        70

pub contains_more : Bytes → Bytes → Bool
contains_more a b = ltb (length b) (length a) && contains a b

pub check_inclusion : Env → Check
unfolding check_lines check_header contains_more
check_inclusion env cf our their index =
    let deflated_ours = remove_comments_and_spaces our in
    let deflated_theirs = remove_comments_and_spaces their in
    let our_contain = contains_more deflated_ours deflated_theirs in
    let their_contain = contains_more deflated_theirs deflated_ours in
    let header =
      if is_cpp_header cf.filename
      then check_header env our_contain our their index
      else unresolved in
    if not our_contain && not their_contain
    then unresolved
    else if is_cpp_source cf.filename
    then elim (check_lines our their index) [ none ↦ header | some v ↦ v ]
    else header

-- Both lists are there and can be merged.
pub merge_both : Option (List Bytes) → Option (List Bytes) → Option (List Bytes)
merge_both none their = none
merge_both (some our) none = none
merge_both (some our) (some their) = merge_vectors our their

pub list_result : ℕ → Bytes → Bytes → ℕ → Option (List Bytes) → Verdict
list_result index desc separator confidence none = unresolved
list_result index desc separator confidence (some merged) =
    result index desc (string_join merged separator) confidence

pub do_list_merge : Env → Check
unfolding merge_both list_result
do_list_merge env cf our their index =
    elim (merge_both (parse_inclusions env our) (parse_inclusions env their)) [
      | some merged ↦ result index (codes "Headers merge.") (string_join merged []) 70
      | none ↦
          if is_cpp_header cf.filename
          then list_result index (codes "Declarations merge.") (newline ∷ []) 50
              (merge_both (parse_declarations env our) (parse_declarations env their))
          else if is_cpp_source cf.filename
          then list_result index (codes "List merge.") (newline ∷ []) 40
              (merge_both (parse_definitions env our) (parse_definitions env their))
          else unresolved
    ]

-- The next check, where the first one does not resolve the block.
abbrev pub or_else : Verdict → Verdict → Verdict
or_else fault next = fault
or_else unresolved next = next
or_else (resolved r) next = resolved r

unfoldable pub text_check : Env → Check
unfolding check_deletion check_one_side_delta check_inclusion do_list_merge
text_check env cf our their index = or_else (check_deletion env cf our their index) (
    or_else (check_one_side_delta env cf our their index)
      (or_else (check_inclusion env cf our their index) (do_list_merge env cf our their index)))
