-- ===== src/Sources/Lists.antt =====
-- What the lists of sources hold.
use mergebot.Prelude.{
  ◌≡◌, refl, ap, Bool, true, false, ◌||◌, ◌&&◌, Option, none, some, List, [], ◌∷◌, arith,
  Option-cases, Bool-cases, inl, inr,
}
use mergebot.Bytes.{Bytes, bytes_eq, bytes_eq_sound}
use mergebot.Semantic.{seen_in}
use mergebot.Sources.{
  Deltas, old_path, SourceSets, add_ours, add_theirs, collect_from, collect_analysis_sources,
}
use mergebot.Sources.Direct.{seen_in-insert_path}

abbrev is_some : Option Bytes → Bool
is_some none = false
is_some (some x) = true

-- Whether a side changed the file.
abbrev pub changed : Bytes → Deltas → Bool
changed x deltas = is_some (old_path x deltas)

-- Whether a path is the old path of a conflict that the side changed.
unfoldable pub renamed_from : Bytes → Deltas → List Bytes → Bool
unfolding old_path
renamed_from z deltas [] = false
renamed_from z deltas (c ∷ cs) =
    let rest = renamed_from z deltas cs in
    elim (old_path c deltas) [ none ↦ rest | some old ↦ bytes_eq z old || rest ]

changed_same :
    (z c : Bytes) (deltas : Deltas) → bytes_eq z c ≡ true → changed z deltas ≡ changed c deltas
changed_same z c deltas e = ap (λ x. changed x deltas) (bytes_eq_sound z c e)

added_ours :
    (c z : Bytes) (o : Option Bytes) (sets : SourceSets)
    → seen_in z (add_ours c o sets).our_sources
      ≡ (seen_in z sets.our_sources || (is_some o && bytes_eq z c))
added_ours c z none sets = ground arith
added_ours c z (some old) sets = seen_in-insert_path z c sets.our_sources

kept_ours :
    (c : Bytes) (o : Option Bytes) (sets : SourceSets)
    → (add_theirs c o sets).our_sources ≡ sets.our_sources
kept_ours c none sets = refl
kept_ours c (some old) sets = refl

our_from :
    (our their : Deltas) (cs : List Bytes) (sets : SourceSets) (z : Bytes)
    → seen_in z (collect_from our their cs sets).our_sources
      ≡ (seen_in z sets.our_sources || (seen_in z cs && changed z our))
unfolding collect_from seen_in
our_from our their [] sets z = ground arith
our_from our their (c ∷ cs) sets z =
    let first = add_ours c (old_path c our) sets in
    let second = add_theirs c (old_path c their) first in
    let later = our_from our their cs second z in
    let kept = ap (seen_in z) (kept_ours c (old_path c their) first) in
    let added = added_ours c z (old_path c our) sets in
    elim (Bool-cases (bytes_eq z c)) [
      | inl e ↦ let same = changed_same z c our e in ground arith
      | inr e ↦ ground arith
    ]

added_theirs :
    (c z : Bytes) (o : Option Bytes) (sets : SourceSets)
    → seen_in z (add_theirs c o sets).their_sources
      ≡ (seen_in z sets.their_sources || (is_some o && bytes_eq z c))
added_theirs c z none sets = ground arith
added_theirs c z (some old) sets = seen_in-insert_path z c sets.their_sources

kept_theirs :
    (c : Bytes) (o : Option Bytes) (sets : SourceSets)
    → (add_ours c o sets).their_sources ≡ sets.their_sources
kept_theirs c none sets = refl
kept_theirs c (some old) sets = refl

their_from :
    (our their : Deltas) (cs : List Bytes) (sets : SourceSets) (z : Bytes)
    → seen_in z (collect_from our their cs sets).their_sources
      ≡ (seen_in z sets.their_sources || (seen_in z cs && changed z their))
unfolding collect_from seen_in
their_from our their [] sets z = ground arith
their_from our their (c ∷ cs) sets z =
    let first = add_ours c (old_path c our) sets in
    let second = add_theirs c (old_path c their) first in
    let later = their_from our their cs second z in
    let kept = ap (seen_in z) (kept_theirs c (old_path c our) sets) in
    let added = added_theirs c z (old_path c their) first in
    elim (Bool-cases (bytes_eq z c)) [
      | inl e ↦ let same = changed_same z c their e in ground arith
      | inr e ↦ ground arith
    ]

abbrev is_old : Bytes → Option Bytes → Bool
is_old z none = false
is_old z (some old) = bytes_eq z old

based_ours :
    (c z : Bytes) (o : Option Bytes) (sets : SourceSets)
    → seen_in z (add_ours c o sets).base_sources ≡ (seen_in z sets.base_sources || is_old z o)
based_ours c z none sets = ground arith
based_ours c z (some old) sets = seen_in-insert_path z old sets.base_sources

based_theirs :
    (c z : Bytes) (o : Option Bytes) (sets : SourceSets)
    → seen_in z (add_theirs c o sets).base_sources ≡ (seen_in z sets.base_sources || is_old z o)
based_theirs c z none sets = ground arith
based_theirs c z (some old) sets = seen_in-insert_path z old sets.base_sources

renamed_from_cons :
    (z c : Bytes) (deltas : Deltas) (cs : List Bytes)
    → renamed_from z deltas (c ∷ cs) ≡ (is_old z (old_path c deltas) || renamed_from z deltas cs)
unfolding renamed_from
renamed_from_cons z c deltas cs = elim (Option-cases (old_path c deltas)) [
  | inl e ↦ rw (e, renamed_from) refl
  | inr (old, e) ↦ rw (e, renamed_from) refl
]

base_from :
    (our their : Deltas) (cs : List Bytes) (sets : SourceSets) (z : Bytes)
    → seen_in z (collect_from our their cs sets).base_sources
      ≡ (seen_in z sets.base_sources || (renamed_from z our cs || renamed_from z their cs))
unfolding collect_from renamed_from
base_from our their [] sets z = ground arith
base_from our their (c ∷ cs) sets z =
    let first = add_ours c (old_path c our) sets in
    let second = add_theirs c (old_path c their) first in
    let later = base_from our their cs second z in
    let a = based_ours c z (old_path c our) sets in
    let b = based_theirs c z (old_path c their) first in
    let x = renamed_from_cons z c our cs in let y = renamed_from_cons z c their cs in ground arith

-- Our sources are the conflicts that our side changed, their sources those that their side changed,
-- and the base's sources are the old paths of both.
pub collect_analysis_sources_lem :
    (our their : Deltas) (conflicts : List Bytes) (z : Bytes)
    → (seen_in z (collect_analysis_sources our their conflicts).our_sources
        ≡ (seen_in z conflicts && changed z our))
      × (seen_in z (collect_analysis_sources our their conflicts).their_sources
          ≡ (seen_in z conflicts && changed z their))
      × (seen_in z (collect_analysis_sources our their conflicts).base_sources
          ≡ (renamed_from z our conflicts || renamed_from z their conflicts))
unfolding collect_analysis_sources seen_in
collect_analysis_sources_lem our their conflicts z = (
  our_from our their conflicts _ z,
  their_from our their conflicts _ z,
  base_from our their conflicts _ z,
)
