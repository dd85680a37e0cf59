-- ===== src/Handlers/Count.antt =====
-- Counting blocks: those that wait in the conflict files, and those whose results are recorded.
use mergebot.Prelude.{
  ℕ, ◌+◌, ◌≡◌, refl, true, false, List, [], ◌∷◌, ◌++◌, arith, ap, ◌∙◌, sym, ◌==◌, if◌then◌else◌,
  All, Bool-cases, inl, inr,
}
use mergebot.Bytes.{Bytes, bytes_eq, bytes_eq_sound}
use mergebot.Conflict.{ConflictBlock, ConflictFile}
use mergebot.Paths.{path_to_name}
use mergebot.Results.{
  BlockResolutionResult, Entry, absent, garbage, results, Store, Disk, set_entry, merged,
  marshal_resolution_result,
}
use mergebot.Handlers.{Check, resolved}

-- The blocks with a given index that are not resolved.
unfoldable pub open_count : ℕ → List ConflictBlock → ℕ
open_count i [] = 0
open_count i (b ∷ bs) = (if b.resolved then 0 else if b.index == i then 1 else 0) + open_count i bs

unfoldable pub result_count : ℕ → List BlockResolutionResult → ℕ
result_count i [] = 0
result_count i (r ∷ rs) = (if r.index == i then 1 else 0) + result_count i rs

unfoldable pub recorded_in : ℕ → Entry → ℕ
unfolding result_count
recorded_in i absent = 0
recorded_in i garbage = 0
recorded_in i (results fr) = result_count i fr.resolutions

-- The results for the index `i` in the file of results `name`.
unfoldable pub recorded : Bytes → ℕ → Store → ℕ
unfolding recorded_in
recorded name i store = recorded_in i (store name)

abbrev pub name_of : Disk → ConflictFile → Bytes
name_of disk f = path_to_name (disk.relative f.filename)

-- The unresolved blocks with the index `i` in the conflict files whose results go to `name`.
unfoldable pub waiting : Disk → Bytes → ℕ → List ConflictFile → ℕ
unfolding open_count
waiting disk name i [] = 0
waiting disk name i (f ∷ fs) =
    (if bytes_eq name (name_of disk f) then open_count i f.conflict_blocks else 0)
    + waiting disk name i fs

abbrev pub AllOpen : List ConflictBlock → Type 0
AllOpen = All (λ b. b.resolved ≡ false)

-- A check puts the index that it is given into its result.
abbrev pub KeepsIndex : Check → Type 0
KeepsIndex check =
    (cf : ConflictFile) (our their : Bytes) (index : ℕ) (r : BlockResolutionResult)
    → check cf our their index ≡ resolved r
    → r.index ≡ index

pub result_count-append :
    (i : ℕ) (rs qs : List BlockResolutionResult)
    → result_count i (rs ++ qs) ≡ result_count i rs + result_count i qs
unfolding result_count
result_count-append i [] qs = omega arith
result_count-append i (r ∷ rs) qs = ground (arith, result_count-append i rs qs)

recorded-merged :
    (i : ℕ) (e : Entry) (file_name : Bytes) (rs : List BlockResolutionResult)
    → recorded_in i (merged e file_name rs) ≡ recorded_in i e + result_count i rs
unfolding recorded_in merged
recorded-merged i absent file_name rs = omega arith
recorded-merged i garbage file_name rs = omega arith
recorded-merged i (results fr) file_name rs = result_count-append i fr.resolutions rs

marshal_at :
    (disk : Disk) (dest file_name : Bytes) (rs : List BlockResolutionResult) (store : Store)
    → disk.writes dest ≡ true
    → marshal_resolution_result disk dest file_name rs store
      ≡ set_entry dest (merged (store dest) file_name rs) store
unfolding marshal_resolution_result
marshal_at disk dest file_name rs store w = rw w refl

-- Where writes succeed, marshalling adds the results to the one file.
pub recorded-marshal :
    (disk : Disk) (dest file_name : Bytes) (rs : List BlockResolutionResult) (store : Store)
    (name : Bytes) (i : ℕ)
    → ((path : Bytes) → disk.writes path ≡ true)
    → recorded name i (marshal_resolution_result disk dest file_name rs store)
      ≡ recorded name i store + (if bytes_eq name dest then result_count i rs else 0)
unfolding recorded set_entry
recorded-marshal disk dest file_name rs store name i w = elim (Bool-cases (bytes_eq name dest)) [
  | inl e ↦
      let same = bytes_eq_sound name dest e in
      rw (marshal_at disk dest file_name rs store (w dest), e)
        (recorded-merged i (store dest) file_name rs
          ∙ ap (λ d. recorded_in i (store d) + result_count i rs) (sym same))
  | inr e ↦ rw (marshal_at disk dest file_name rs store (w dest), e) (omega arith)
]
