-- ===== src/Merger.antt =====
-- GraphMerger of src/core/semantic/GraphMerger.cpp on the nodes of the three graphs: the fields of a
-- node, its children, and the nodes that a side added. The nodes are on one heap, which the merge
-- writes to; the textual merge of git is a parameter.
use mergebot.Prelude.{
  ℕ, Bool, true, false, ◌&&◌, ◌||◌, not, Option, none, some, List, [], ◌∷◌, ◌++◌, ◌==◌,
  if◌then◌else◌, ltb,
}
pub mod Fields
pub mod Children
pub mod Frame
pub mod Order
pub mod News
pub mod Follows
pub mod Merged
pub mod Steady
pub mod Ends
pub mod Termination
pub mod Terminates
pub mod Samples
mod Tests
use mergebot.Bytes.{Bytes, bytes_eq, is_empty}
use mergebot.Nodes.{Hashers, hash_signature}
use mergebot.Nodes.Defs.{SemanticNode, Heap, get_kind, NodeKind, orphan_comment, value}
use mergebot.Matching.{TwoWayMatching, left_at, right_at, Buckets, signature}
use mergebot.Semantic.{OrderInfavour, in_ours, in_theirs}

-- A run of the merge: it may meet a node whose class is not the one that its partner has, or use up
-- its fuel.
pub data Run {ℓ} (A : Type ℓ) : Type ℓ where
  done : A → Run A
  bad_cast : Run A
  out_of_fuel : Run A

infixl 5 ◌>>=◌
abbrev pub ◌>>=◌ {ℓ κ} : {A : Type ℓ} {B : Type κ} → Run A → (A → Run B) → Run B
done a >>= f = f a
bad_cast >>= f = bad_cast
out_of_fuel >>= f = out_of_fuel

-- What stays as it is during a merge.
pub record Setting : Type 0 where
  pub hash : Hashers
  pub git : Bytes → Bytes → Bytes → Bytes
  pub our_matching : TwoWayMatching
  pub their_matching : TwoWayMatching
  pub order_in_favour : OrderInfavour

abbrev pub write : ℕ → SemanticNode → Heap → Heap
write p n heap q = if p == q then n else heap q

-- `FollowingEOL` of a node that is there is taken from another.
abbrev pub set_eol : Option ℕ → ℕ → Heap → Heap
set_eol none child heap = heap
set_eol (some p) child heap =
    write p (record (heap p) { following_eol = (heap child).following_eol }) heap

-- The pointers that are not null.
unfoldable pub present : List (Option ℕ) → List ℕ
present [] = []
present (none ∷ ps) = present ps
present (some p ∷ ps) = p ∷ present ps

-- `find_if` for a node with the hash, and an insertion before or behind the node found.
module _ (sig : ℕ → ℕ) where
  unfoldable pub insert_after : ℕ → ℕ → List ℕ → Option (List ℕ)
  insert_after h p [] = none
  insert_after h p (q ∷ qs) =
      if sig q == h
      then some (q ∷ p ∷ qs)
      else elim (insert_after h p qs) [ none ↦ none | some rs ↦ some (q ∷ rs) ]

  unfoldable pub insert_before : ℕ → ℕ → List ℕ → Option (List ℕ)
  insert_before h p [] = none
  insert_before h p (q ∷ qs) =
      if sig q == h
      then some (p ∷ q ∷ qs)
      else elim (insert_before h p qs) [ none ↦ none | some rs ↦ some (q ∷ rs) ]

-- `PossiblyAdded` of every kind.
unfoldable pub all_nodes : Buckets → List ℕ
all_nodes [] = []
all_nodes ((k, ps) ∷ m) = ps ++ all_nodes m

-- `std::sort` by the identifiers, which differ within a graph.
unfoldable pub insert_by_id : Heap → ℕ → List ℕ → List ℕ
insert_by_id heap p [] = p ∷ []
insert_by_id heap p (q ∷ qs) =
    if ltb (heap q).id (heap p).id then q ∷ insert_by_id heap p qs else p ∷ q ∷ qs

unfoldable pub sort_by_id : Heap → List ℕ → List ℕ
unfolding insert_by_id
sort_by_id heap [] = []
sort_by_id heap (p ∷ ps) = insert_by_id heap p (sort_by_id heap ps)

-- The siblings of a node, the nearer first on either side, if its parent has a child with its hash.
unfoldable pub siblings_around : (ℕ → ℕ) → ℕ → List ℕ → List ℕ → Option (List ℕ × List ℕ)
siblings_around sig h before [] = none
siblings_around sig h before (p ∷ ps) =
    if sig p == h then some (before, ps) else siblings_around sig h (p ∷ before) ps

module _ (hash : Hashers) (heap : Heap) where
  -- The nearest sibling that is no orphan comment.
  unfoldable pub nearest : List ℕ → Option ℕ
  nearest [] = none
  nearest (p ∷ ps) =
      if value (get_kind (heap p)) == value orphan_comment then nearest ps else some p

  -- `getNeighbors`, without the node itself.
  unfoldable pub get_neighbors : ℕ → Option (Option ℕ × Option ℕ)
  unfolding siblings_around nearest
  get_neighbors p = elim (heap p).parent [
    | none ↦ none
    | some parent ↦
        elim (siblings_around (signature hash heap) (signature hash heap p) []
          (heap parent).children) [
            | none ↦ none
            | some (before, behind) ↦ some (nearest before, nearest behind)
          ]
  ]

  -- Those of the nodes whose parent is `parent`.
  unfoldable pub with_parent : ℕ → List ℕ → List ℕ
  with_parent parent [] = []
  with_parent parent (p ∷ ps) = elim (heap p).parent [
    | none ↦ with_parent parent ps
    | some q ↦
        if signature hash heap q == signature hash heap parent
        then p ∷ with_parent parent ps
        else with_parent parent ps
  ]

  unfoldable pub filter_added_nodes : ℕ → TwoWayMatching → List ℕ
  unfolding with_parent all_nodes sort_by_id left_at
  filter_added_nodes base_node m =
      elim (left_at (signature hash heap base_node) m.one_one_matching) [
        | none ↦ []
        | some parent ↦ sort_by_id heap (with_parent parent (all_nodes m.possibly_added))
      ]

  unfoldable pub without_signature : ℕ → List ℕ → List ℕ
  without_signature h [] = []
  without_signature h (p ∷ ps) =
      if h == signature hash heap p then without_signature h ps else p ∷ without_signature h ps

  -- `removeDuplicates`: those of the first nodes whose hash none of the second has.
  unfoldable pub remove_duplicates : List ℕ → List ℕ → List ℕ
  unfolding without_signature
  remove_duplicates added [] = added
  remove_duplicates added (q ∷ others) =
      remove_duplicates (without_signature (signature hash heap q) added) others

  -- Where one added node goes.
  unfoldable pub place_before : ℕ → Option ℕ → List ℕ → List ℕ
  unfolding insert_before
  place_before p none merged = merged ++ p ∷ []
  place_before p (some next) merged =
      elim (insert_before (signature hash heap) (signature hash heap next) p merged) [
        | none ↦ merged ++ p ∷ []
        | some longer ↦ longer
      ]

  unfoldable pub place : ℕ → Option (Option ℕ × Option ℕ) → List ℕ → List ℕ
  unfolding insert_after place_before
  place p none merged = merged ++ p ∷ []
  place p (some (none, next)) merged = place_before p next merged
  place p (some (some prev, next)) merged =
      elim (insert_after (signature hash heap) (signature hash heap prev) p merged) [
        | none ↦ place_before p next merged
        | some longer ↦ longer
      ]

  -- The loop over the added nodes.
  unfoldable pub place_all : List ℕ → List ℕ → List ℕ
  unfolding place get_neighbors
  place_all [] merged = merged
  place_all (p ∷ ps) merged = place_all ps (place p (get_neighbors p) merged)
