-- ===== src/Matching/Bimap.antt =====
-- The maps that the matching is kept in.
use mergebot.Prelude.{
  ℕ, ◌≡◌, refl, Bool, false, ◌&&◌, ◌||◌, not, some, List, [], ◌∷◌, ◌++◌, ◌==◌, arith, Bool-cases,
  inl, inr, All,
}
use mergebot.Matching.{
  Pair, left_at, right_at, is_some, insert_pair, Buckets, push_to, Table, assign, node_at, erase,
}
use mergebot.Nodes.Defs.{NodeKind, value}

abbrev pub has_key : ℕ → Table → Bool
has_key k t = is_some (node_at k t)

pub has_key-assign : (k h p : ℕ) (t : Table) → has_key k (assign h p t) ≡ ((h == k) || has_key k t)
unfolding node_at assign
has_key-assign k h p [] = ground arith
has_key-assign k h p ((j, q) ∷ t) = ground (arith, has_key-assign k h p t)

-- No key stands twice.
abbrev pub DistinctKeys : Table → Type 0
DistinctKeys [] = Unit
DistinctKeys ((h, p) ∷ t) = (has_key h t ≡ false) × DistinctKeys t

pub assign-DistinctKeys : (h p : ℕ) (t : Table) → DistinctKeys t → DistinctKeys (assign h p t)
unfolding assign node_at
assign-DistinctKeys h p [] d = (refl, tt)
assign-DistinctKeys h p ((j, q) ∷ t) (e, d) = elim (Bool-cases (j == h)) [
  | inl s ↦ rw (s, assign) (ground arith)
  | inr s ↦
      let a = has_key-assign j h p t in
      let rest = assign-DistinctKeys h p t d in rw (s, assign) (ground arith, rest)
]

pub has_key-erase :
    (k h : ℕ) (t : Table) → DistinctKeys t → has_key k (erase h t) ≡ (has_key k t && not (h == k))
unfolding node_at erase
has_key-erase k h [] d = ground arith
has_key-erase k h ((j, q) ∷ t) (e, d) = ground (arith, has_key-erase k h t d)

pub erase-DistinctKeys : (h : ℕ) (t : Table) → DistinctKeys t → DistinctKeys (erase h t)
unfolding node_at erase
erase-DistinctKeys h [] d = tt
erase-DistinctKeys h ((j, q) ∷ t) (e, d) = elim (Bool-cases (j == h)) [
  | inl s ↦ rw (s, erase) d
  | inr s ↦
      let a = has_key-erase j h t d in
      let rest = erase-DistinctKeys h t d in rw (s, erase) (ground arith, rest)
]

-- Each node stands under its own hash.
abbrev pub Keyed : (ℕ → ℕ) → Table → Type 0
Keyed sig = All (λ e. e.0 ≡ sig e.1)

pub assign-Keyed :
    (sig : ℕ → ℕ) (h p : ℕ) (t : Table) → h ≡ sig p → Keyed sig t → Keyed sig (assign h p t)
unfolding assign
assign-Keyed sig h p [] e k = (e, tt)
assign-Keyed sig h p ((j, q) ∷ t) e (a, k) = elim (Bool-cases (j == h)) [
  | inl s ↦ rw (s, assign) (ground arith, k)
  | inr s ↦ rw (s, assign) (a, assign-Keyed sig h p t e k)
]

pub erase-Keyed : (sig : ℕ → ℕ) (h : ℕ) (t : Table) → Keyed sig t → Keyed sig (erase h t)
unfolding erase
erase-Keyed sig h [] k = tt
erase-Keyed sig h ((j, q) ∷ t) (a, k) = elim (Bool-cases (j == h)) [
  | inl s ↦ rw (s, erase) k
  | inr s ↦ rw (s, erase) (a, erase-Keyed sig h t k)
]

pub node_at-Keyed :
    (sig : ℕ → ℕ) (h q : ℕ) (t : Table) → Keyed sig t → node_at h t ≡ some q → sig q ≡ h
unfolding node_at
node_at-Keyed sig h q [] k e = ground arith
node_at-Keyed sig h q ((j, p) ∷ t) (a, k) e = ground (arith, node_at-Keyed sig h q t k)

-- The two nodes of each pair have one hash.
abbrev pub Twin : List Pair → Type 0
Twin = All (λ p. p.base_hash ≡ p.revision_hash)

pub Twin-right :
    (k : ℕ) (ps : List Pair) → Twin ps → is_some (right_at k ps) ≡ is_some (left_at k ps)
unfolding left_at right_at
Twin-right k [] t = refl
Twin-right k (p ∷ ps) (e, t) = ground (arith, Twin-right k ps t)

pub insert_pair-Twin :
    (p : Pair) (ps : List Pair) → p.base_hash ≡ p.revision_hash → Twin ps → Twin (insert_pair p ps)
unfolding insert_pair
insert_pair-Twin p ps e t =
    elim (Bool-cases (is_some (left_at p.base_hash ps) || is_some (right_at p.revision_hash ps))) [
      | inl s ↦ rw (s, insert_pair) t
      | inr s ↦ rw (s, insert_pair) (e, t)
    ]

pub left_at-insert_pair :
    (k : ℕ) (p : Pair) (ps : List Pair)
    → p.base_hash ≡ p.revision_hash
    → Twin ps
    → is_some (left_at k (insert_pair p ps)) ≡ ((k == p.base_hash) || is_some (left_at k ps))
unfolding insert_pair left_at
left_at-insert_pair k p ps e t = ground (arith, Twin-right p.revision_hash ps t)

-- Whether a node with the hash waits in a vector, or in one of the map.
abbrev pub in_nodes : (ℕ → ℕ) → ℕ → List ℕ → Bool
in_nodes sig k [] = false
in_nodes sig k (p ∷ ps) = (k == sig p) || in_nodes sig k ps

abbrev pub in_buckets : (ℕ → ℕ) → ℕ → Buckets → Bool
in_buckets sig k [] = false
in_buckets sig k ((j, ps) ∷ m) = in_nodes sig k ps || in_buckets sig k m

in_nodes-append :
    (sig : ℕ → ℕ) (k p : ℕ) (ps : List ℕ)
    → in_nodes sig k (ps ++ p ∷ []) ≡ ((k == sig p) || in_nodes sig k ps)
in_nodes-append sig k p [] = ground arith
in_nodes-append sig k p (q ∷ ps) = ground (arith, in_nodes-append sig k p ps)

pub in_buckets-push_to :
    (sig : ℕ → ℕ) (k : ℕ) (kind : NodeKind) (p : ℕ) (m : Buckets)
    → in_buckets sig k (push_to kind p m) ≡ ((k == sig p) || in_buckets sig k m)
unfolding push_to
in_buckets-push_to sig k kind p [] = ground arith
in_buckets-push_to sig k kind p ((j, ps) ∷ m) = elim (Bool-cases (value j == value kind)) [
  | inl s ↦ let a = in_nodes-append sig k p ps in rw (s, push_to) (ground arith)
  | inr s ↦ let a = in_buckets-push_to sig k kind p m in rw (s, push_to) (ground arith)
]
