-- ===== src/Matching.antt =====
-- The matching of two graphs: include/mergebot/core/model/mapping/TwoWayMatching.h and
-- `topDownMatch` of src/core/semantic/GraphMatcher.cpp.
use mergebot.Prelude.{
  ℕ, Bool, true, false, ◌&&◌, ◌||◌, not, Option, none, some, List, [], ◌∷◌, ◌++◌, ◌==◌,
  if◌then◌else◌,
}
pub mod Bimap
pub mod Paired
pub mod TopDown
pub mod Matchers
pub mod BottomUp
pub mod Half
mod Tests
use mergebot.Nodes.{Hashers, hash_signature}
use mergebot.Nodes.Defs.{NodeKind, value, SemanticNode, get_kind, Heap}

-- A pair of `OneOneMatching`, with the hashes that its nodes had when it was inserted: by these the
-- tables of the bimap find it. Hashes of two nodes that fall into one bucket are told apart.
pub record Pair : Type 0 where
  pub base_hash : ℕ
  pub base_node : ℕ
  pub revision_hash : ℕ
  pub revision_node : ℕ

abbrev pub Buckets : Type 0
Buckets = List (NodeKind × List ℕ)

pub record TwoWayMatching : Type 0 where
  pub one_one_matching : List Pair
  pub possibly_deleted : Buckets
  pub possibly_added : Buckets

-- `left.find` and `right.find`, with `at`.
unfoldable pub left_at : ℕ → List Pair → Option ℕ
left_at h [] = none
left_at h (p ∷ ps) = if h == p.base_hash then some p.revision_node else left_at h ps

unfoldable pub right_at : ℕ → List Pair → Option ℕ
right_at h [] = none
right_at h (p ∷ ps) = if h == p.revision_hash then some p.base_node else right_at h ps

abbrev pub is_some {ℓ} : {A : Type ℓ} → Option A → Bool
is_some none = false
is_some (some a) = true

-- `insert` leaves a bimap alone that has one of the two keys.
unfoldable pub insert_pair : Pair → List Pair → List Pair
unfolding left_at right_at
insert_pair p ps =
    if is_some (left_at p.base_hash ps) || is_some (right_at p.revision_hash ps) then ps else p ∷ ps

-- `operator[]` and `push_back` on a map of vectors.
unfoldable pub push_to : NodeKind → ℕ → Buckets → Buckets
push_to k p [] = (k, p ∷ []) ∷ []
push_to k p ((j, ps) ∷ m) =
    if value j == value k then (j, ps ++ p ∷ []) ∷ m else (j, ps) ∷ push_to k p m

-- `addUnmatchedNode`.
unfoldable pub add_unmatched_node : Heap → ℕ → Bool → TwoWayMatching → TwoWayMatching
unfolding push_to
add_unmatched_node heap p is_in_base m =
    if is_in_base
    then record m { possibly_deleted = push_to (get_kind (heap p)) p m.possibly_deleted }
    else record m { possibly_added = push_to (get_kind (heap p)) p m.possibly_added }

-- A map from hashes to nodes. Its order stands for the one in which the hash table is traversed.
abbrev pub Table : Type 0
Table = List (ℕ × ℕ)

unfoldable pub assign : ℕ → ℕ → Table → Table
assign h p [] = (h, p) ∷ []
assign h p ((k, q) ∷ t) = if k == h then (k, p) ∷ t else (k, q) ∷ assign h p t

unfoldable pub node_at : ℕ → Table → Option ℕ
node_at h [] = none
node_at h ((k, q) ∷ t) = if k == h then some q else node_at h t

unfoldable pub erase : ℕ → Table → Table
erase h [] = []
erase h ((k, q) ∷ t) = if k == h then t else (k, q) ∷ erase h t

module _ (hash : Hashers) (heap : Heap) where
  abbrev pub signature : ℕ → ℕ
  signature p = hash_signature hash (heap p)

  -- The nodes that take part.
  abbrev pub takes_part : ℕ → Bool
  takes_part p = (heap p).need_to_merge && not (heap p).is_synthetic

  -- The loop over the vertices of a graph.
  unfoldable pub table_of : List ℕ → Table → Table
  unfolding assign
  table_of [] t = t
  table_of (p ∷ ps) t = table_of ps (if takes_part p then assign (signature p) p t else t)

  unfoldable pub pair_up : Table → Table → TwoWayMatching → Table × TwoWayMatching
  unfolding node_at erase insert_pair add_unmatched_node
  pair_up [] revision_nodes m = (revision_nodes, m)
  pair_up ((h, p) ∷ base_nodes) revision_nodes m = elim (node_at h revision_nodes) [
    | some q ↦ pair_up base_nodes (erase h revision_nodes) (record m {
      one_one_matching =
          insert_pair
            (record {
              base_hash = signature p;
              base_node = p;
              revision_hash = signature q;
              revision_node = q;
            })
            m.one_one_matching;
    })
    | none ↦ pair_up base_nodes revision_nodes (add_unmatched_node heap p true m)
  ]

  unfoldable pub add_all : Table → TwoWayMatching → TwoWayMatching
  unfolding add_unmatched_node
  add_all [] m = m
  add_all ((h, p) ∷ t) m = add_all t (add_unmatched_node heap p false m)

  unfoldable pub top_down_match : List ℕ → List ℕ → TwoWayMatching
  unfolding table_of pair_up add_all
  top_down_match base_graph revision_graph =
      let (rest, m) =
        pair_up (table_of base_graph []) (table_of revision_graph [])
          (record { one_one_matching = []; possibly_deleted = []; possibly_added = [] }) in
      add_all rest m
