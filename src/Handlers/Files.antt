-- ===== src/Handlers/Files.antt =====
-- The loop over the conflict files, seen as a relation, and what it counts.
use mergebot.Prelude.{
  ℕ, ◌+◌, ◌≡◌, refl, Bool, true, false, ◌||◌, none, some, List, [], ◌∷◌, arith, ◌∙◌, sym,
  if◌then◌else◌, All, Bool-cases, inl, inr, Option-cases, subst, some-injective,
}
use mergebot.Bytes.{Bytes, bytes_eq}
use mergebot.Conflict.{ConflictBlock, ConflictFile}
use mergebot.Conflict.Tidy.{open_blocks, still_open}
use mergebot.Results.{BlockResolutionResult, Store, Disk}
use mergebot.Handlers.{
  Check, resolve_blocks, ever_resolved, all_resolved, Progress, note_file, resolve_files,
}
use mergebot.Handlers.Count.{
  open_count, result_count, recorded, recorded-marshal, waiting, name_of, AllOpen, KeepsIndex,
}
use mergebot.Handlers.Blocks.{
  Outcome, resolve_blocks-Outcome, Outcome-count, Outcome-none, all_resolved-count,
}

abbrev pub FilesOpen : List ConflictFile → Type 0
FilesOpen = All (λ f. AllOpen f.conflict_blocks)

-- The flag of a file tells whether all of its blocks are resolved.
abbrev pub FilesMarked : List ConflictFile → Type 0
FilesMarked = All (λ f. f.resolved ≡ all_resolved f.conflict_blocks)

module _ (disk : Disk) (check : Check) (with_base : Bool) where
  abbrev pub join :
      ConflictFile → List ConflictBlock → List BlockResolutionResult → Store → Progress → Progress
  join cf bs rs store p = record {
    files = (note_file disk cf (bs, rs) store).0 ∷ p.files;
    store = p.store;
    need_shrink = ever_resolved bs || p.need_shrink;
  }

  pub data Pass : List ConflictFile → Store → Progress → Type 0 where
    done :
        {store : Store} → Pass [] store (record { files = []; store = store; need_shrink = false })
    file :
        (cf : ConflictFile) (bs : List ConflictBlock) (rs : List BlockResolutionResult)
        {cfs : List ConflictFile} {store : Store} {p : Progress}
        → Outcome cf.conflict_blocks bs rs
        → Pass cfs (note_file disk cf (bs, rs) store).1 p
        → Pass (cf ∷ cfs) store (join cf bs rs store p)

  pub files_nil :
      (store : Store)
      → resolve_files disk check with_base [] store
        ≡ some (record { files = []; store = store; need_shrink = false })
  unfolding resolve_files
  files_nil store = refl

  files_fault :
      (cf : ConflictFile) (cfs : List ConflictFile) (store : Store)
      → resolve_blocks check with_base cf cf.conflict_blocks ≡ none
      → resolve_files disk check with_base (cf ∷ cfs) store ≡ none
  unfolding resolve_files
  files_fault cf cfs store e = rw (e, resolve_files) refl

  files_later :
      (cf : ConflictFile) (cfs : List ConflictFile) (store : Store) (bs : List ConflictBlock)
      (rs : List BlockResolutionResult)
      → resolve_blocks check with_base cf cf.conflict_blocks ≡ some (bs, rs)
      → resolve_files disk check with_base cfs (note_file disk cf (bs, rs) store).1 ≡ none
      → resolve_files disk check with_base (cf ∷ cfs) store ≡ none
  unfolding resolve_files
  files_later cf cfs store bs rs e n = rw (e, resolve_files, n) refl

  pub files_join :
      (cf : ConflictFile) (cfs : List ConflictFile) (store : Store) (bs : List ConflictBlock)
      (rs : List BlockResolutionResult) (p : Progress)
      → resolve_blocks check with_base cf cf.conflict_blocks ≡ some (bs, rs)
      → resolve_files disk check with_base cfs (note_file disk cf (bs, rs) store).1 ≡ some p
      → resolve_files disk check with_base (cf ∷ cfs) store ≡ some (join cf bs rs store p)
  unfolding resolve_files
  files_join cf cfs store bs rs p e n = rw (e, resolve_files, n) refl

  -- Every run of the loop that faults nowhere is a pass.
  pub resolve_files-Pass :
      (cfs : List ConflictFile) (store : Store) (p : Progress)
      → KeepsIndex check
      → resolve_files disk check with_base cfs store ≡ some p
      → Pass cfs store p
  resolve_files-Pass [] store p k e =
      subst (λ x. Pass [] store x) (some-injective _ _ (sym (files_nil store) ∙ e)) done
  resolve_files-Pass (cf ∷ cfs) store p k e =
      elim (Option-cases (resolve_blocks check with_base cf cf.conflict_blocks)) [
        | inl n ↦ let f = files_fault cf cfs store n in absurd cc
        | inr ((bs, rs), h) ↦
            let store' = (note_file disk cf (bs, rs) store).1 in
            elim (Option-cases (resolve_files disk check with_base cfs store')) [
              | inl n ↦ let f = files_later cf cfs store bs rs h n in absurd cc
              | inr (q, r) ↦
                  subst (λ x. Pass (cf ∷ cfs) store x)
                    (some-injective _ _ (sym (files_join cf cfs store bs rs q h r) ∙ e))
                    (file cf bs rs
                      (resolve_blocks-Outcome check with_base cf cf.conflict_blocks (bs, rs) k h)
                      (resolve_files-Pass cfs store' q k r))
            ]
      ]

  note_file-recorded :
      (cf : ConflictFile) (bs : List ConflictBlock) (rs : List BlockResolutionResult)
      (store : Store) (name : Bytes) (i : ℕ)
      → ((path : Bytes) → disk.writes path ≡ true)
      → Outcome cf.conflict_blocks bs rs
      → AllOpen cf.conflict_blocks
      → recorded name i (note_file disk cf (bs, rs) store).1
        ≡ recorded name i store + (if bytes_eq name (name_of disk cf) then result_count i rs else 0)
  unfolding note_file result_count
  note_file-recorded cf bs rs store name i w h o = elim (Bool-cases (ever_resolved bs)) [
    | inl e ↦
        rw e (recorded-marshal disk (name_of disk cf) (disk.relative cf.filename) rs store name i w)
    | inr e ↦ rw (e, (Outcome-none e h o).1) (ground arith)
  ]

  -- The blocks that wait and the results that are recorded add up, for every index and file of results.
  pub Pass-count :
      {cfs : List ConflictFile} {store : Store} {p : Progress} (name : Bytes) (i : ℕ)
      → ((path : Bytes) → disk.writes path ≡ true)
      → Pass cfs store p
      → FilesOpen cfs
      → waiting disk name i p.files + recorded name i p.store
        ≡ waiting disk name i cfs + recorded name i store
  unfolding waiting note_file
  Pass-count name i w done o = refl
  Pass-count name i w (file cf bs rs {store = store} {p = p} h later) (oc, o) = ground (
    arith,
    Pass-count name i w later o,
    note_file-recorded cf bs rs store name i w h oc,
    Outcome-count i h oc,
  )

  pub Pass-FilesMarked :
      {cfs : List ConflictFile} {store : Store} {p : Progress}
      → Pass cfs store p
      → FilesMarked p.files
  unfolding note_file
  Pass-FilesMarked done = tt
  Pass-FilesMarked (file cf bs rs h later) = (refl, Pass-FilesMarked later)

  or_false : (a b : Bool) → (a || b) ≡ false → (a ≡ false) × (b ≡ false)
  or_false true b e = absurd cc
  or_false false b e = (refl, e)

  -- Where no block was resolved, all blocks are still open.
  pub Pass-FilesOpen :
      {cfs : List ConflictFile} {store : Store} {p : Progress}
      → Pass cfs store p
      → p.need_shrink ≡ false
      → FilesOpen cfs
      → FilesOpen p.files
  unfolding note_file
  Pass-FilesOpen done e o = tt
  Pass-FilesOpen (file cf bs rs {p = p} h later) e (oc, o) =
      let (eb, ep) = or_false (ever_resolved bs) p.need_shrink e in
      ((Outcome-none eb h oc).0, Pass-FilesOpen later ep o)

open_blocks-AllOpen : (bs : List ConflictBlock) → AllOpen (open_blocks bs)
unfolding open_blocks
open_blocks-AllOpen [] = tt
open_blocks-AllOpen (b ∷ bs) = elim (Bool-cases b.resolved) [
  | inl e ↦ rw e (open_blocks-AllOpen bs)
  | inr e ↦ rw e (refl, open_blocks-AllOpen bs)
]

open_count-open_blocks :
    (i : ℕ) (bs : List ConflictBlock) → open_count i (open_blocks bs) ≡ open_count i bs
unfolding open_blocks open_count
open_count-open_blocks i [] = refl
open_count-open_blocks i (b ∷ bs) = ground (arith, open_count-open_blocks i bs)

-- What is left when the resolved blocks and files are dropped.
pub still_open-FilesOpen : (fs : List ConflictFile) → FilesOpen (still_open fs)
still_open-FilesOpen [] = tt
still_open-FilesOpen (f ∷ fs) = elim (Bool-cases f.resolved) [
  | inl e ↦ rw e (still_open-FilesOpen fs)
  | inr e ↦ rw e (open_blocks-AllOpen f.conflict_blocks, still_open-FilesOpen fs)
]

-- Dropping them drops no block that waits.
pub waiting-still_open :
    (disk : Disk) (name : Bytes) (i : ℕ) (fs : List ConflictFile)
    → FilesMarked fs
    → waiting disk name i (still_open fs) ≡ waiting disk name i fs
unfolding waiting
waiting-still_open disk name i [] m = refl
waiting-still_open disk name i (f ∷ fs) (mf, m) = ground (
  arith,
  waiting-still_open disk name i fs m,
  open_count-open_blocks i f.conflict_blocks,
  all_resolved-count i f.conflict_blocks,
)
