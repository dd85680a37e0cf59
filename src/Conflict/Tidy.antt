-- ===== src/Conflict/Tidy.antt =====
-- `tidyUpConflictBlocks` and `tidyUpConflictFiles`: resolved blocks and files are dropped.
use mergebot.Prelude.{
  ◌≡◌, refl, Bool, true, false, ◌||◌, List, [], ◌∷◌, arith, if◌then◌else◌, Bool-cases, inl, inr,
  sym, ap, ◌∙◌, not, map,
}
use mergebot.Conflict.{ConflictBlock, ConflictFile}

unfoldable pub any_block : List ConflictBlock → Bool
any_block [] = false
any_block (b ∷ bs) = b.resolved || any_block bs

-- `NewConflictBlocks`, filled by the loop.
unfoldable pub open_blocks : List ConflictBlock → List ConflictBlock
open_blocks [] = []
open_blocks (b ∷ bs) = if b.resolved then open_blocks bs else b ∷ open_blocks bs

unfoldable pub tidy_up_conflict_blocks : List ConflictBlock → List ConflictBlock
unfolding any_block open_blocks
tidy_up_conflict_blocks bs = if any_block bs then open_blocks bs else bs

unfoldable pub any_file : List ConflictFile → Bool
any_file [] = false
any_file (f ∷ fs) = f.resolved || any_file fs

unfoldable pub tidy_file : ConflictFile → ConflictFile
unfolding tidy_up_conflict_blocks
tidy_file f = record f { conflict_blocks = tidy_up_conflict_blocks f.conflict_blocks }

unfoldable pub open_files : List ConflictFile → List ConflictFile
unfolding tidy_file
open_files [] = []
open_files (f ∷ fs) = if f.resolved then open_files fs else tidy_file f ∷ open_files fs

unfoldable pub tidy_each : List ConflictFile → List ConflictFile
unfolding tidy_file
tidy_each [] = []
tidy_each (f ∷ fs) = tidy_file f ∷ tidy_each fs

unfoldable pub tidy_up_conflict_files : List ConflictFile → List ConflictFile
unfolding any_file open_files tidy_each
tidy_up_conflict_files fs = if any_file fs then open_files fs else tidy_each fs

-- Without a resolved block there is nothing to drop.
open_blocks-any : (bs : List ConflictBlock) → any_block bs ≡ false → open_blocks bs ≡ bs
unfolding any_block open_blocks
open_blocks-any [] h = refl
open_blocks-any (b ∷ bs) h = ground (arith, open_blocks-any bs)

pub tidy_blocks-open : (bs : List ConflictBlock) → tidy_up_conflict_blocks bs ≡ open_blocks bs
unfolding tidy_up_conflict_blocks
tidy_blocks-open bs = elim (Bool-cases (any_block bs)) [
  | inl e ↦ rw e
  | inr e ↦ rw e (sym (open_blocks-any bs e))
]

-- The elements with the property, in their order.
abbrev pub keep {ℓ} : {A : Type ℓ} → (A → Bool) → List A → List A
keep f [] = []
keep f (x ∷ xs) = if f x then x ∷ keep f xs else keep f xs

-- A file with its blocks that are not resolved.
abbrev pub with_unresolved : ConflictFile → ConflictFile
with_unresolved f = record f { conflict_blocks = keep (λ b. not b.resolved) f.conflict_blocks }

-- The files that are not resolved, each with its blocks that are not resolved.
abbrev pub pending : List ConflictFile → List ConflictFile
pending fs = map with_unresolved (keep (λ f. not f.resolved) fs)

-- A test and its negation, with the branches exchanged.
if_not : {A : Type 0} (c : Bool) (x y : A) → (if c then x else y) ≡ (if not c then y else x)
if_not true x y = refl
if_not false x y = refl

pub open_blocks-keep : (bs : List ConflictBlock) → open_blocks bs ≡ keep (λ b. not b.resolved) bs
unfolding open_blocks
open_blocks-keep [] = refl
open_blocks-keep (b ∷ bs) =
    ap (λ l. if b.resolved then l else b ∷ l) (open_blocks-keep bs) ∙ if_not b.resolved _ _

-- The same, as the loops of the code build it.
abbrev pub still_open : List ConflictFile → List ConflictFile
still_open [] = []
still_open (f ∷ fs) =
    if f.resolved
    then still_open fs
    else record f { conflict_blocks = open_blocks f.conflict_blocks } ∷ still_open fs

map-if :
    (c : Bool) (f : ConflictFile) (fs : List ConflictFile)
    → (if c then map with_unresolved fs else with_unresolved f ∷ map with_unresolved fs)
      ≡ map with_unresolved (if not c then f ∷ fs else fs)
map-if true f fs = refl
map-if false f fs = refl

pub still_open-pending : (fs : List ConflictFile) → still_open fs ≡ pending fs
still_open-pending [] = refl
still_open-pending (f ∷ fs) =
    ap
      (λ bs.
        if f.resolved then still_open fs else record f { conflict_blocks = bs } ∷ still_open fs)
      (open_blocks-keep f.conflict_blocks)
    ∙ ap (λ l. if f.resolved then l else with_unresolved f ∷ l) (still_open-pending fs)
    ∙ map-if f.resolved f (keep (λ g. not g.resolved) fs)

tidy_file-open :
    (f : ConflictFile) → tidy_file f ≡ record f { conflict_blocks = open_blocks f.conflict_blocks }
unfolding tidy_file
tidy_file-open f = rw (tidy_blocks-open f.conflict_blocks)

open_files-still_open : (fs : List ConflictFile) → open_files fs ≡ still_open fs
unfolding open_files
open_files-still_open [] = refl
open_files-still_open (f ∷ fs) = rw (open_files-still_open fs, tidy_file-open f)

tidy_each-still_open : (fs : List ConflictFile) → any_file fs ≡ false → tidy_each fs ≡ still_open fs
unfolding tidy_each any_file
tidy_each-still_open [] h = refl
tidy_each-still_open (f ∷ fs) h = ground (arith, tidy_file-open f, tidy_each-still_open fs)

pub tidy_up_conflict_files-still_open :
    (fs : List ConflictFile) → tidy_up_conflict_files fs ≡ still_open fs
unfolding tidy_up_conflict_files
tidy_up_conflict_files-still_open fs = elim (Bool-cases (any_file fs)) [
  | inl e ↦ rw e (open_files-still_open fs)
  | inr e ↦ rw e (tidy_each-still_open fs e)
]

-- Whichever branch is taken, what is left are the unresolved files with their unresolved blocks,
-- in their order.
pub tidy_up_conflict_files-pending :
    (fs : List ConflictFile) → tidy_up_conflict_files fs ≡ pending fs
tidy_up_conflict_files-pending fs = tidy_up_conflict_files-still_open fs ∙ still_open-pending fs
