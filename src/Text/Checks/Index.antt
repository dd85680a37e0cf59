-- ===== src/Text/Checks/Index.antt =====
-- The results of the text based handler are for the block that is checked.
use mergebot.Prelude.{
  ℕ, ◌≡◌, refl, Bool, true, false, Option, none, some, List, [], ◌∷◌, inl, inr, Option-cases, ◌&&◌,
  ◌||◌, not, if◌then◌else◌,
}
use mergebot.Prelude.{ltb, length}
use mergebot.Bytes.{Bytes, is_empty, bytes_eq}
use mergebot.Bytes.Lines.{newline}
use mergebot.StringOps.Split.{string_split}
use mergebot.Conflict.{ConflictFile, ours, base, theirs, end, enum_name}
use mergebot.Results.{BlockResolutionResult, Disk}
use mergebot.Handlers.{Verdict, fault, unresolved, resolved}
use mergebot.Handlers.Conserve.{Conserves, resolve_conflict_files-Conserves}
use mergebot.Handlers.{resolve_conflict_files}
use mergebot.Text.{
  is_sub_sequence, is_cpp_header, is_cpp_source, parse_inclusions, Env, Extracted, text, overrun,
  extract_conflict_block,
}
use mergebot.Text.Checks.{
  result, with_range, check_deletion, check_one_side_delta, check_lines, check_header,
  check_inclusion, list_result, do_list_merge, or_else, text_check, merge_both, deletion_result,
  compare_range, side_of,
}

-- A verdict whose result, if there is one, has the index.
data For (index : ℕ) : Verdict → Type 0 where
  faulty : For index fault
  vacant : For index unresolved
  at : (r : BlockResolutionResult) → r.index ≡ index → For index (resolved r)

For-result : (index : ℕ) (desc code : Bytes) (c : ℕ) → For index (result index desc code c)
For-result index desc code c = at _ refl

For-if :
    {index : ℕ} (c : Bool) {v w : Verdict}
    → For index v
    → For index w
    → For index (if c then v else w)
For-if true hv hw = hv
For-if false hv hw = hw

For-or_else : {index : ℕ} {v w : Verdict} → For index v → For index w → For index (or_else v w)
For-or_else faulty hw = faulty
For-or_else vacant hw = hw
For-or_else (at r e) hw = at r e

For-with_range :
    (env : Env) (cf : ConflictFile) (index : ℕ) (f : Bytes → Verdict)
    → ((range : Bytes) → For index (f range))
    → For index (with_range env cf index f)
unfolding with_range
For-with_range env cf index f h = elim (Option-cases (env.conflicts cf.filename)) [
  | inl e ↦ rw (with_range, e) vacant
  | inr (file, e) ↦ rw (with_range, e) (range_of (extract_conflict_block index file))
]
  where
    range_of :
        (x : Extracted)
        → For index (elim x [
          | overrun ↦ fault
          | text range ↦ if is_empty range then unresolved else f range
        ])
    range_of overrun = faulty
    range_of (text range) = For-if (is_empty range) vacant (h range)

For-list_result :
    (index : ℕ) (desc sep : Bytes) (c : ℕ) (m : Option (List Bytes))
    → For index (list_result index desc sep c m)
unfolding list_result
For-list_result index desc sep c none = vacant
For-list_result index desc sep c (some xs) = at _ refl

For-deletion :
    (env : Env) (cf : ConflictFile) (our their : Bytes) (index : ℕ)
    → For index (check_deletion env cf our their index)
unfolding check_deletion deletion_result
For-deletion env cf our their index = For-if (not (is_empty our) && not (is_empty their)) vacant (
    For-with_range env cf index (λ range. deletion_result env our their index)
      (λ range. For-if (is_empty our) (at _ refl) (at _ refl)))

For-compare :
    (our their : Bytes) (index : ℕ) (range : Bytes)
    → For index (compare_range our their index range)
unfolding compare_range
For-compare our their index range =
    let our_side = side_of range (enum_name ours) (enum_name base) in
    let base_side = side_of range (enum_name base) (enum_name theirs) in
    let their_side = side_of range (enum_name theirs) (enum_name end) in
    For-if (bytes_eq our_side base_side) (For-result index _ _ 70)
      (For-if (bytes_eq their_side base_side) (For-result index _ _ 70) vacant)

For-delta :
    (env : Env) (cf : ConflictFile) (our their : Bytes) (index : ℕ)
    → For index (check_one_side_delta env cf our their index)
unfolding check_one_side_delta
For-delta env cf our their index =
    For-if (is_empty our || is_empty their) vacant
      (For-with_range env cf index (compare_range our their index) (For-compare our their index))

For-header :
    (env : Env) (c : Bool) (our their : Bytes) (index : ℕ)
    → For index (check_header env c our their index)
unfolding check_header
For-header env c our their index =
    For-if _ vacant (For-if _ vacant (For-if c (at _ refl) (at _ refl)))

For-decide :
    {index : ℕ} (a b c : Bool) {v w header : Verdict}
    → For index v
    → For index w
    → For index header
    → For index (elim (if a then (if b then some v else none) else if c then some w else none) [
      | none ↦ header
      | some x ↦ x
    ])
For-decide true true c hv hw h = hv
For-decide true false c hv hw h = h
For-decide false b true hv hw h = hw
For-decide false b false hv hw h = h

-- Where the lines decide, the verdict has the index.
For-lines :
    (our their : Bytes) (index : ℕ) (header : Verdict)
    → For index header
    → For index (elim (check_lines our their index) [ none ↦ header | some v ↦ v ])
unfolding check_lines
For-lines our their index header h =
    let our_lines = string_split our (newline ∷ []) false in
    let their_lines = string_split their (newline ∷ []) false in
    For-decide (ltb (length their_lines) (length our_lines)) (is_sub_sequence our_lines their_lines)
      (is_sub_sequence their_lines our_lines) (For-result index _ _ 70) (For-result index _ _ 70) h

For-inclusion :
    (env : Env) (cf : ConflictFile) (our their : Bytes) (index : ℕ)
    → For index (check_inclusion env cf our their index)
unfolding check_inclusion
For-inclusion env cf our their index =
    let header = For-if (is_cpp_header cf.filename) (For-header env _ our their index) vacant in
    For-if _ vacant (For-if (is_cpp_source cf.filename) (For-lines our their index _ header) header)

For-merge :
    (env : Env) (cf : ConflictFile) (our their : Bytes) (index : ℕ)
    → For index (do_list_merge env cf our their index)
unfolding do_list_merge
For-merge env cf our their index =
    elim (Option-cases (merge_both (parse_inclusions env our) (parse_inclusions env their))) [
      | inl e ↦
          rw (do_list_merge, e)
            (For-if (is_cpp_header cf.filename) (For-list_result index _ _ 50 _)
              (For-if (is_cpp_source cf.filename) (For-list_result index _ _ 40 _) vacant))
      | inr (m, e) ↦ rw (do_list_merge, e) (at _ refl)
    ]

For-resolved :
    (index : ℕ) (v : Verdict) (r : BlockResolutionResult)
    → For index v
    → v ≡ resolved r
    → r.index ≡ index
For-resolved index fault r h e = absurd cc
For-resolved index unresolved r h e = absurd cc
For-resolved index (resolved q) r (at x z) e = cc

-- Whichever of its four checks resolves a block, the text based handler's result is for that block.
pub text_check-index :
    (env : Env) (cf : ConflictFile) (our their : Bytes) (index : ℕ) (r : BlockResolutionResult)
    → text_check env cf our their index ≡ resolved r
    → r.index ≡ index
unfolding text_check
text_check-index env cf our their index r e =
    For-resolved index (text_check env cf our their index) r
      (For-or_else (For-deletion env cf our their index) (
        For-or_else (For-delta env cf our their index)
          (For-or_else (For-inclusion env cf our their index) (For-merge env cf our their index))))
      e

-- So the text based handler can stand in a chain.
pub text-Conserves :
    (disk : Disk) (env : Env)
    → ((path : Bytes) → disk.writes path ≡ true)
    → Conserves disk (resolve_conflict_files disk (text_check env))
text-Conserves disk env w =
    resolve_conflict_files-Conserves disk (text_check env) w
      (λ cf our their index r e. text_check-index env cf our their index r e)
