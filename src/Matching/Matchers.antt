-- ===== src/Matching/Matchers.antt =====
-- The matchers of include/mergebot/core/model/matcher, and `bottomUpMatch` and `match` of
-- src/core/semantic/GraphMatcher.cpp. The similarity of two nodes is computed over doubles, and the
-- mates come from `boost::maximum_weighted_matching`: both are parameters.
use mergebot.Prelude.{
  ℕ, zero, suc, Bool, true, false, ◌&&◌, ◌||◌, not, Option, none, some, List, [], ◌∷◌, ltb, ◌==◌,
  if◌then◌else◌, length,
}
use mergebot.Nodes.{Hashers}
use mergebot.Nodes.Defs.{NodeKind, value, Heap}
use mergebot.Matching.{TwoWayMatching, Buckets, insert_pair, is_some, signature}

-- `PossiblyDeleted[kind]`, which is empty where the map has no vector of the kind.
unfoldable pub nodes_of : NodeKind → Buckets → List ℕ
nodes_of k [] = []
nodes_of k ((j, ps) ∷ m) = if value j == value k then ps else nodes_of k m

unfoldable pub set_nodes : NodeKind → List ℕ → Buckets → Buckets
set_nodes k ps [] = (k, ps) ∷ []
set_nodes k ps ((j, qs) ∷ m) =
    if value j == value k then (j, ps) ∷ m else (j, qs) ∷ set_nodes k ps m

-- `RefactoredTypes`, from the hash of a base type to that of its revision.
abbrev pub Refactored : Type 0
Refactored = List (ℕ × ℕ)

unfoldable pub renamed_to : ℕ → Refactored → Option ℕ
renamed_to h [] = none
renamed_to h ((j, k) ∷ r) = if j == h then some k else renamed_to h r

-- What a matcher works on: the two vectors of unmatched nodes, and what it found.
pub record Work : Type 0 where
  pub matching : TwoWayMatching
  pub base_nodes : List ℕ
  pub revision_nodes : List ℕ
  pub refactored_types : Refactored

-- What a matcher does with a pair besides: it looks at the parents, or it records a type.
pub record Rules : Type 0 where
  pub checks_parents : Bool
  pub records_types : Bool

-- `mate i` is the place among the revision nodes of the mate of the base node at `i`; `similar` is
-- whether the two are joined by an edge whose weight reaches the threshold.
pub record Mates : Type 0 where
  pub mate : ℕ → Option ℕ
  pub similar : ℕ → ℕ → Bool

unfoldable pub element : List ℕ → ℕ → Option ℕ
element [] i = none
element (x ∷ xs) zero = some x
element (x ∷ xs) (suc i) = element xs i

module _ (hash : Hashers) (heap : Heap) where
  -- `erase` of the nodes with a hash.
  unfoldable pub erase_signature : ℕ → List ℕ → List ℕ
  erase_signature h [] = []
  erase_signature h (p ∷ ps) =
      if signature hash heap p == h then erase_signature h ps else p ∷ erase_signature h ps

  -- Whether the parents of the two, if both have one, are the same or a type and its revision.
  unfoldable pub parents_agree : Refactored → ℕ → ℕ → Bool
  unfolding renamed_to
  parents_agree refactored p q = elim (heap p).parent [
    | none ↦ true
    | some base_parent ↦ elim (heap q).parent [
      | none ↦ true
      | some revision_parent ↦
          let h = signature hash heap base_parent in
          let k = signature hash heap revision_parent in
          (h == k) || elim (renamed_to h refactored) [ none ↦ false | some r ↦ r == k ]
    ]
  ]

  -- The body that records a pair.
  unfoldable pub record_pair : Rules → ℕ → ℕ → Work → Work
  unfolding insert_pair erase_signature
  record_pair rules p q w =
      let h = signature hash heap p in
      let k = signature hash heap q in
      let m = w.matching in
      record {
        matching = record m {
          one_one_matching =
              insert_pair
                (record { base_hash = h; base_node = p; revision_hash = k; revision_node = q })
                m.one_one_matching;
        };
        base_nodes = erase_signature h w.base_nodes;
        revision_nodes = erase_signature k w.revision_nodes;
        refactored_types =
            if rules.records_types && not (is_some (renamed_to h w.refactored_types))
            then (h, k) ∷ w.refactored_types
            else w.refactored_types;
      }

  -- One round, for the base node `p` at `i`. `revision` holds the revision nodes as they were.
  unfoldable pub visit : Rules → Mates → List ℕ → ℕ → ℕ → Work → Work
  unfolding element parents_agree record_pair
  visit rules mates revision i p w = elim (mates.mate i) [
    | none ↦ w
    | some j ↦ elim (element revision j) [
      | none ↦ w
      | some q ↦
          if mates.similar p q && (not rules.checks_parents || parents_agree w.refactored_types p q)
          then record_pair rules p q w
          else w
    ]
  ]

  -- `for (size_t i = 0; i < BaseNodes.size(); ++i)` over the vertices of the graph, of which `ps` are
  -- those from `i` on. The body takes nodes out of `BaseNodes`.
  unfoldable pub adopt_mates : Rules → Mates → List ℕ → ℕ → List ℕ → Work → Work
  unfolding visit
  adopt_mates rules mates revision i [] w = w
  adopt_mates rules mates revision i (p ∷ ps) w = elim (ltb i (length w.base_nodes)) [
    | true ↦ adopt_mates rules mates revision (suc i) ps (visit rules mates revision i p w)
    | false ↦ w
  ]

  -- The matcher of a kind over a graph.
  unfoldable pub graph_match : Rules → Mates → Work → Work
  unfolding adopt_mates
  graph_match rules mates w = adopt_mates rules mates w.revision_nodes 0 w.base_nodes w
