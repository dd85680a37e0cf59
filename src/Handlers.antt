-- ===== src/Handlers.antt =====
-- The loop by which src/core/handler/StyleBasedHandler.cpp and TextBasedHandler.cpp go over files and
-- blocks, and the check of the style based handler. Assertions are not checked.
use mergebot.Prelude.{
  ℕ, Bool, true, false, ◌&&◌, ◌||◌, Option, none, some, List, [], ◌∷◌, if◌then◌else◌,
}
use mergebot.Bytes.{Bytes, codes, bytes_eq, contains}
use mergebot.Conflict.{
  ConflictBlock, ConflictFile, ours, base, theirs, end, enum_name, extract_code_from_conflict_range,
}
use mergebot.Conflict.Tidy.{tidy_up_conflict_files}
use mergebot.StringOps.Deflate.{remove_comments_and_spaces}
use mergebot.StringOps.Macro.{do_macro_expansion}
pub mod Count
pub mod Blocks
pub mod Files
pub mod Conserve
pub mod Samples
mod Tests
use mergebot.Paths.{path_to_name}
use mergebot.Results.{BlockResolutionResult, Store, Disk, marshal_resolution_result}

-- What the checks of a block give. A fault is a read outside of a buffer.
pub data Verdict : Type 0 where
  fault unresolved : Verdict
  resolved : BlockResolutionResult → Verdict

-- The checks of a handler: the file, our code, their code, the index of the block.
abbrev pub Check : Type 0
Check = ConflictFile → Bytes → Bytes → ℕ → Verdict

-- `WithBase`, for the range of the first block of the first file.
pub has_base : List ConflictBlock → Bool
has_base [] = false
has_base (b ∷ bs) =
    contains b.conflict_range (enum_name ours)
    && (contains b.conflict_range (enum_name base) && contains b.conflict_range (enum_name theirs))

pub our_code : Bool → ConflictBlock → Bytes
our_code with_base b =
    extract_code_from_conflict_range b.conflict_range (enum_name ours)
      (if with_base then enum_name base else enum_name theirs)

pub their_code : ConflictBlock → Bytes
their_code b = extract_code_from_conflict_range b.conflict_range (enum_name theirs) (enum_name end)

pub note_block :
    ConflictBlock
    → Verdict
    → Option (List ConflictBlock × List BlockResolutionResult)
    → Option (List ConflictBlock × List BlockResolutionResult)
note_block b fault rest = none
note_block b unresolved none = none
note_block b unresolved (some (bs, rs)) = some (b ∷ bs, rs)
note_block b (resolved r) none = none
note_block b (resolved r) (some (bs, rs)) = some (record b { resolved = true } ∷ bs, r ∷ rs)

-- The loop over the blocks of a file: the blocks with their flags, and `ResolvedBlocks`.
pub resolve_blocks :
    Check
    → Bool
    → ConflictFile
    → List ConflictBlock
    → Option (List ConflictBlock × List BlockResolutionResult)
unfolding our_code their_code note_block
resolve_blocks check with_base cf [] = some ([], [])
resolve_blocks check with_base cf (b ∷ bs) =
    note_block b (check cf (our_code with_base b) (their_code b) b.index)
      (resolve_blocks check with_base cf bs)

unfoldable pub ever_resolved : List ConflictBlock → Bool
ever_resolved [] = false
ever_resolved (b ∷ bs) = b.resolved || ever_resolved bs

unfoldable pub all_resolved : List ConflictBlock → Bool
all_resolved [] = true
all_resolved (b ∷ bs) = b.resolved && all_resolved bs

-- The files and the store behind a loop over files, and `NeedShrink`.
pub record Progress : Type 0 where
  pub files : List ConflictFile
  pub store : Store
  pub need_shrink : Bool

unfoldable pub note_file :
    Disk
    → ConflictFile
    → List ConflictBlock × List BlockResolutionResult
    → Store
    → ConflictFile × Store
unfolding all_resolved ever_resolved
note_file disk cf (bs, rs) store =
    let path = disk.relative cf.filename in
    (
      record cf { conflict_blocks = bs; resolved = all_resolved bs },
      if ever_resolved bs
          then marshal_resolution_result disk (path_to_name path) path rs store
          else store,
    )

pub resolve_files : Disk → Check → Bool → List ConflictFile → Store → Option Progress
unfolding resolve_blocks note_file
resolve_files disk check with_base [] store =
    some (record { files = []; store = store; need_shrink = false })
resolve_files disk check with_base (cf ∷ cfs) store =
    elim (resolve_blocks check with_base cf cf.conflict_blocks) [
      | none ↦ none
      | some (bs, rs) ↦
          let (cf', store') = note_file disk cf (bs, rs) store in
          elim (resolve_files disk check with_base cfs store') [
            | none ↦ none
            | some p ↦ some (record {
              files = cf' ∷ p.files;
              store = p.store;
              need_shrink = ever_resolved bs || p.need_shrink;
            })
          ]
    ]

pub record State : Type 0 where
  pub files : List ConflictFile
  pub store : Store
  -- the file `running` of the cache directory
  pub running : Bool

-- `resolveConflictFiles`. It looks at the first file, which there has to be.
pub resolve_conflict_files : Disk → Check → State → Option State
unfolding has_base resolve_files
resolve_conflict_files disk check s = elim s.files [
  | [] ↦ none
  | cf ∷ cfs ↦ elim (resolve_files disk check (has_base cf.conflict_blocks) (cf ∷ cfs) s.store) [
    | none ↦ none
    | some p ↦ some (record s {
      files = if p.need_shrink then tidy_up_conflict_files p.files else p.files;
      store = p.store;
    })
  ]
]

-- The check of the style based handler; `NeedFormat` is false, and nothing sets it.
pub style_check : Check
style_check cf our their index =
    let deflated_ours = remove_comments_and_spaces (do_macro_expansion our) in
    let deflated_theirs = remove_comments_and_spaces (do_macro_expansion their) in
    if bytes_eq deflated_ours deflated_theirs
    then resolved (record {
      index = index;
      desc = codes "Merge conflict caused by formatting issues.";
      code = our;
      confidence = 0;
    })
    else unresolved
