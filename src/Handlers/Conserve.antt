-- ===== src/Handlers/Conserve.antt =====
-- What every handler keeps: no block is lost, and no result is made up.
use mergebot.Prelude.{
  ℕ, ◌+◌, ◌≡◌, ◌≢◌, refl, Bool, true, false, Option, none, some, List, [], ◌∷◌, ap, ◌∙◌, sym,
  if◌then◌else◌, Bool-cases, inl, inr, Option-cases, subst, some-injective, ◌⊎◌,
}
use mergebot.Bytes.{Bytes, codes, bytes_eq, bytes_eq_sound, bytes_eq_refl}
use mergebot.Conflict.{ConflictFile}
use mergebot.Conflict.Tidy.{still_open, tidy_up_conflict_files, tidy_up_conflict_files-still_open}
use mergebot.StringOps.Deflate.{remove_comments_and_spaces}
use mergebot.StringOps.Macro.{do_macro_expansion}
use mergebot.Results.{BlockResolutionResult, Store, Disk}
use mergebot.Handlers.{
  Check, resolved, unresolved, has_base, resolve_files, Progress, State, resolve_conflict_files,
  style_check,
}
use mergebot.Handlers.Count.{recorded, waiting, KeepsIndex}
use mergebot.Handlers.Files.{
  FilesOpen, Pass, resolve_files-Pass, Pass-count, Pass-FilesMarked, Pass-FilesOpen,
  still_open-FilesOpen, waiting-still_open,
}

-- The blocks with the index `i` whose results go to `name`, waiting or resolved.
abbrev pub total : Disk → Bytes → ℕ → State → ℕ
total disk name i s = waiting disk name i s.files + recorded name i s.store

-- What a handler keeps when it ends in `t`.
pub record Keeps (disk : Disk) (s t : State) : Type 0 where
  pub still_open : FilesOpen t.files
  pub total_same : (name : Bytes) (i : ℕ) → total disk name i t ≡ total disk name i s

-- The law of a handler, for the chain.
pub record Conserves (disk : Disk) (run : State → Option State) : Type 0 where
  pub keeps : (s t : State) → FilesOpen s.files → run s ≡ some t → Keeps disk s t

abbrev pub after : State → Progress → State
after s p = record s {
  files = if p.need_shrink then tidy_up_conflict_files p.files else p.files;
  store = p.store;
}

Pass-Keeps :
    (disk : Disk) (check : Check) (with_base : Bool) (s : State) (p : Progress)
    → ((path : Bytes) → disk.writes path ≡ true)
    → FilesOpen s.files
    → Pass disk check with_base s.files s.store p
    → Keeps disk s (after s p)
Pass-Keeps disk check with_base s p w o h = elim (Bool-cases p.need_shrink) [
  | inl e ↦
      let tidied : after s p ≡ record s { files = still_open p.files; store = p.store } =
        rw (e, tidy_up_conflict_files-still_open p.files) refl in
      subst (λ t. Keeps disk s t) (sym tidied)
        (record {
          still_open = still_open-FilesOpen p.files;
          total_same = λ name i.
              ap (λ n. n + recorded name i p.store)
                (waiting-still_open disk name i p.files (Pass-FilesMarked disk check with_base h))
              ∙ Pass-count disk check with_base name i w h o;
        })
  | inr e ↦
      let same : after s p ≡ record s { files = p.files; store = p.store } = rw e refl in
      subst (λ t. Keeps disk s t) (sym same)
        (record {
          still_open = Pass-FilesOpen disk check with_base h e o;
          total_same = λ name i. Pass-count disk check with_base name i w h o;
        })
]

resolve_fault :
    (disk : Disk) (check : Check) (cf : ConflictFile) (cfs : List ConflictFile) (store : Store)
    (running : Bool)
    → resolve_files disk check (has_base cf.conflict_blocks) (cf ∷ cfs) store ≡ none
    → resolve_conflict_files disk check
        (record { files = cf ∷ cfs; store = store; running = running })
      ≡ none
unfolding resolve_conflict_files
resolve_fault disk check cf cfs store running e = rw (resolve_conflict_files, e) refl

pub resolve_some :
    (disk : Disk) (check : Check) (cf : ConflictFile) (cfs : List ConflictFile) (store : Store)
    (running : Bool) (p : Progress)
    → resolve_files disk check (has_base cf.conflict_blocks) (cf ∷ cfs) store ≡ some p
    → resolve_conflict_files disk check
        (record { files = cf ∷ cfs; store = store; running = running })
      ≡ some (after (record { files = cf ∷ cfs; store = store; running = running }) p)
unfolding resolve_conflict_files
resolve_some disk check cf cfs store running p e = rw (resolve_conflict_files, e) refl

resolve_none :
    (disk : Disk) (check : Check) (store : Store) (running : Bool)
    → resolve_conflict_files disk check (record { files = []; store = store; running = running })
      ≡ none
unfolding resolve_conflict_files
resolve_none disk check store running = refl

resolve-Keeps :
    (disk : Disk) (check : Check) (files : List ConflictFile) (store : Store) (running : Bool)
    (t : State)
    → ((path : Bytes) → disk.writes path ≡ true)
    → KeepsIndex check
    → FilesOpen files
    → resolve_conflict_files disk check (record { files = files; store = store; running = running })
      ≡ some t
    → Keeps disk (record { files = files; store = store; running = running }) t
resolve-Keeps disk check [] store running t w k o e =
    let n = resolve_none disk check store running in absurd cc
resolve-Keeps disk check (cf ∷ cfs) store running t w k o e =
    let with_base = has_base cf.conflict_blocks in
    let s : State = record { files = cf ∷ cfs; store = store; running = running } in
    elim (Option-cases (resolve_files disk check with_base (cf ∷ cfs) store)) [
      | inl n ↦ let f = resolve_fault disk check cf cfs store running n in absurd cc
      | inr (p, h) ↦
          subst (λ x. Keeps disk s x)
            (some-injective _ _ (sym (resolve_some disk check cf cfs store running p h) ∙ e))
            (Pass-Keeps disk check with_base s p w o
              (resolve_files-Pass disk check with_base (cf ∷ cfs) store p k h))
    ]

style_same :
    (cf : ConflictFile) (our their : Bytes) (index : ℕ)
    → bytes_eq
        (remove_comments_and_spaces (do_macro_expansion our))
        (remove_comments_and_spaces (do_macro_expansion their))
      ≡ true
    → style_check cf our their index
      ≡ resolved (record {
        index = index;
        desc = codes "Merge conflict caused by formatting issues.";
        code = our;
        confidence = 0;
      })
unfolding style_check
style_same cf our their index e = rw e refl

style_other :
    (cf : ConflictFile) (our their : Bytes) (index : ℕ)
    → bytes_eq
        (remove_comments_and_spaces (do_macro_expansion our))
        (remove_comments_and_spaces (do_macro_expansion their))
      ≡ false
    → style_check cf our their index ≡ unresolved
unfolding style_check
style_other cf our their index e = rw e refl

resolved-injective : (r q : BlockResolutionResult) → resolved r ≡ resolved q → r ≡ q
resolved-injective r q e = cc

-- What the style based handler compares.
abbrev pub deflated : Bytes → Bytes
deflated code = remove_comments_and_spaces (do_macro_expansion code)

-- The style based handler resolves exactly the blocks whose sides are the same text when macros are
-- expanded and comments and spaces removed; its result is our side, under the block's index and
-- without confidence.
pub style_check_lem :
    (cf : ConflictFile) (our their : Bytes) (index : ℕ)
    → ((deflated our ≡ deflated their)
        × ((r : BlockResolutionResult) × (style_check cf our their index ≡ resolved r)
            × (r.code ≡ our)
            × (r.index ≡ index)
            × (r.confidence ≡ 0)))
      ⊎ ((deflated our ≢ deflated their) × (style_check cf our their index ≡ unresolved))
style_check_lem cf our their index = elim (Bool-cases (bytes_eq (deflated our) (deflated their))) [
  | inl e ↦ inl (
    bytes_eq_sound (deflated our) (deflated their) e,
    (_, style_same cf our their index e, refl, refl, refl),
  )
  | inr e ↦
      inr (λ q. let t = bytes_eq_refl (deflated our) in absurd cc, style_other cf our their index e)
]

pub style_check-KeepsIndex : KeepsIndex style_check
style_check-KeepsIndex cf our their index r e = elim (style_check_lem cf our their index) [
  | inl (q, (r', h, c, i, z)) ↦ let same = resolved-injective r' r (sym h ∙ e) in cc
  | inr (n, h) ↦ absurd cc
]

pub resolve_conflict_files-Conserves :
    (disk : Disk) (check : Check)
    → ((path : Bytes) → disk.writes path ≡ true)
    → KeepsIndex check
    → Conserves disk (resolve_conflict_files disk check)
resolve_conflict_files-Conserves disk check w k = record {
  keeps = λ s t o e. resolve-Keeps disk check s.files s.store s.running t w k o e;
}

-- The style based handler is lawful, so it can stand in a chain.
pub style-Conserves :
    (disk : Disk)
    → ((path : Bytes) → disk.writes path ≡ true)
    → Conserves disk (resolve_conflict_files disk style_check)
style-Conserves disk w = resolve_conflict_files-Conserves disk style_check w style_check-KeepsIndex

-- For a handler whose check puts the right index into its results, on a disk where writes succeed,
-- and conflict files with open blocks only: behind a run the blocks are open again, and for every
-- file of results and every index the blocks that wait and the results that are recorded are
-- together as many as before. So a block is dropped from the conflict files only when its result is
-- recorded, and just once.
pub resolve_conflict_files-total :
    (disk : Disk) (check : Check) (s t : State) (name : Bytes) (i : ℕ)
    → ((path : Bytes) → disk.writes path ≡ true)
    → KeepsIndex check
    → FilesOpen s.files
    → resolve_conflict_files disk check s ≡ some t
    → FilesOpen t.files × (total disk name i t ≡ total disk name i s)
resolve_conflict_files-total disk check s t name i w k o e =
    let law = (resolve_conflict_files-Conserves disk check w k).keeps s t o e in
    (law.still_open, law.total_same name i)
