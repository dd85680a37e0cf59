-- ===== src/ThreeWay.antt =====
-- threeWayMatch and threeWayMerge of src/core/semantic/GraphMerger.cpp: the matching of either side,
-- the translation units to merge, and their merge and print one after the other.
use mergebot.Prelude.{
  ℕ, Bool, true, false, ◌&&◌, ◌||◌, not, Option, none, some, List, [], ◌∷◌, if◌then◌else◌, ◌++◌,
}
pub mod Ends
pub mod OneSide
mod Tests
use mergebot.Nodes.{Hashers}
use mergebot.Nodes.Defs.{Heap}
use mergebot.Matching.{TwoWayMatching, left_at, signature}
use mergebot.Matching.BottomUp.{MatchOutcome, matched, invalidated, Oracle, match_graphs}
use mergebot.Merger.{Run, done, ◌>>=◌, Setting}
use mergebot.Merger.Children.{merge_semantic_node}
use mergebot.Printer.{TuText, pretty_print_tu, is_unit}

-- The base node of a mapping is always there.
pub record ThreeWayMapping : Type 0 where
  pub our_node : Option ℕ
  pub base_node : ℕ
  pub their_node : Option ℕ

module _ (hash : Hashers) (heap : Heap) where
  -- The base nodes that are merged or were written in a source.
  unfoldable pub need_to_merge_nodes : List ℕ → List ℕ
  need_to_merge_nodes [] = []
  need_to_merge_nodes (p ∷ ps) =
      let rest = need_to_merge_nodes ps in
      if (heap p).need_to_merge || not (heap p).is_synthetic then p ∷ rest else rest

  -- The mappings of the translation units among them.
  unfoldable pub mappings_of : TwoWayMatching → TwoWayMatching → List ℕ → List ThreeWayMapping
  unfolding left_at
  mappings_of our their [] = []
  mappings_of our their (p ∷ ps) =
      let rest = mappings_of our their ps in
      let mapping : ThreeWayMapping = record {
        our_node = left_at (signature hash heap p) our.one_one_matching;
        base_node = p;
        their_node = left_at (signature hash heap p) their.one_one_matching;
      } in
      if is_unit (heap p).class && (heap p).need_to_merge then mapping ∷ rest else rest

  -- `threeWayMatch`. `order` is the order in which the set of nodes is gone through. `none`: a matcher
  -- went on with iterators behind an erasure.
  unfoldable pub three_way_match :
      (List ℕ → List ℕ)
      → Oracle
      → Oracle
      → List ℕ
      → List ℕ
      → List ℕ
      → Option (TwoWayMatching × TwoWayMatching × List ThreeWayMapping)
  unfolding match_graphs need_to_merge_nodes mappings_of
  three_way_match order our_oracle their_oracle our_graph base_graph their_graph =
      elim (match_graphs hash heap our_oracle base_graph our_graph) [
        | invalidated ↦ none
        | matched our _ ↦ elim (match_graphs hash heap their_oracle base_graph their_graph) [
          | invalidated ↦ none
          | matched their _ ↦
              some (our, their, mappings_of our their (order (need_to_merge_nodes base_graph)))
        ]
      ]

-- The text of a unit, if the merge kept its node.
abbrev pub text_of_kept : ℕ → Heap → Option ℕ → List TuText
text_of_kept fuel heap none = []
text_of_kept fuel heap (some p) = pretty_print_tu heap fuel p ∷ []

-- `threeWayMerge`, with the fuel of a merge and of a print. It gives the texts that are written.
unfoldable pub three_way_merge :
    Setting → ℕ → ℕ → Heap → List ThreeWayMapping → Run (Heap × List TuText)
unfolding merge_semantic_node pretty_print_tu
three_way_merge s fuel depth heap [] = done (heap, [])
three_way_merge s fuel depth heap (m ∷ ms) = merge_semantic_node s fuel heap m.base_node >>= λ r.
    three_way_merge s fuel depth r.0 ms >>= λ q. done (q.0, text_of_kept depth r.0 r.1 ++ q.1)
