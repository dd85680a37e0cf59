-- ===== src/Matching/Tests.antt =====
-- Matchings of small graphs.
use mergebot.Prelude.{
  ℕ, ◌+◌, ◌*◌, ◌≤◌, ◌≡◌, refl, true, false, ◌&&◌, not, some, [], ◌∷◌, length, List, ◌==◌,
  if◌then◌else◌, map, ◌++◌,
}
use mergebot.Bytes.{codes}
use mergebot.Nodes.{hash_signature}
use mergebot.Nodes.Defs.{Heap, func_def}
use mergebot.Nodes.Samples.{sample_hash, sample_node, sample_func}
use mergebot.Matching.{
  left_at, right_at, is_some, insert_pair, push_to, add_unmatched_node, assign, node_at, erase,
  table_of, pair_up, add_all, top_down_match,
}
use mergebot.Matching.Bimap.{in_buckets}
use mergebot.Matching.Matchers.{
  Work, Mates, graph_match, adopt_mates, visit, record_pair, erase_signature, element,
  parents_agree, nodes_of, set_nodes,
}
use mergebot.Matching.BottomUp.{
  MatchOutcome, matched, invalidated, Oracle, scan_match, match_kind, bottom_up_match, match_graphs,
}
use mergebot.Matching.Paired.{offers, sig}
use mergebot.Matching.TopDown.{top_down_match-partition}
use mergebot.Matching.Half.{pairs, graph_match-half}

-- The functions 0 to 3 of the base and 4 to 7 of a revision; 3 and 7 agree.
abbrev graphs : Heap
graphs p =
    sample_node p (if p == 7 then codes "f" ++ b'3' ∷ [] else codes "f" ++ (p + 48) ∷ [])
      sample_func

abbrev base_graph : List ℕ
base_graph = 0 ∷ 1 ∷ 2 ∷ 3 ∷ []

abbrev revision_graph : List ℕ
revision_graph = 4 ∷ 5 ∷ 6 ∷ 7 ∷ []

-- Only the functions with one hash are paired.
top_down_sample : top_down_match sample_hash graphs base_graph revision_graph ≡ record {
  one_one_matching =
      record {
        base_hash = hash_signature sample_hash (graphs 3);
        base_node = 3;
        revision_hash = hash_signature sample_hash (graphs 3);
        revision_node = 7;
      }
      ∷ [];
  possibly_deleted = (func_def, 0 ∷ 1 ∷ 2 ∷ []) ∷ [];
  possibly_added = (func_def, 4 ∷ 5 ∷ 6 ∷ []) ∷ [];
}
unfolding top_down_match table_of pair_up add_all assign node_at erase insert_pair left_at right_at
    add_unmatched_node push_to hash_signature
top_down_sample = refl

-- Every base node has a mate that is similar enough.
abbrev all_mates : Mates
all_mates = record { mate = λ i. some i; similar = λ p q. true }

abbrev oracle : Oracle
oracle = record { mates = λ kind bases revisions. all_mates; enum_is_matched = λ a b. false }

abbrev pair_list : MatchOutcome → List (ℕ × ℕ)
pair_list (matched m r) = map (λ p. (p.base_node, p.revision_node)) m.one_one_matching
pair_list invalidated = []

-- Of the three functions left, the last is not paired with its mate.
match_sample :
    pair_list (match_graphs sample_hash graphs oracle base_graph revision_graph)
    ≡ (1, 5) ∷ (0, 4) ∷ (3, 7) ∷ []
unfolding match_graphs bottom_up_match scan_match match_kind graph_match adopt_mates visit
    record_pair erase_signature element parents_agree nodes_of set_nodes top_down_match table_of
    pair_up add_all assign node_at erase insert_pair left_at right_at add_unmatched_node push_to
    hash_signature
match_sample = refl

abbrev fresh_work : Work
fresh_work = record {
  matching = record { one_one_matching = []; possibly_deleted = []; possibly_added = [] };
  base_nodes = base_graph;
  revision_nodes = revision_graph;
  refactored_types = [];
}

graph_match-half_example :
    2
      * pairs sample_hash graphs (
          graph_match sample_hash graphs
            (record { checks_parents = false; records_types = false })
            all_mates
            fresh_work)
    ≤ 2 * pairs sample_hash graphs fresh_work + (length base_graph + 1)
unfolding hash_signature
graph_match-half_example =
    graph_match-half sample_hash graphs (record { checks_parents = false; records_types = false })
      all_mates fresh_work (refl, (refl, (refl, (refl, tt))))

top_down_match-partition_example :
    (is_some (
        left_at
          (sig sample_hash graphs 3)
          (top_down_match sample_hash graphs base_graph revision_graph).one_one_matching)
      ≡ (offers sample_hash graphs (sig sample_hash graphs 3) base_graph
          && offers sample_hash graphs (sig sample_hash graphs 3) revision_graph))
    × ((is_some (
            right_at
              (sig sample_hash graphs 3)
              (top_down_match sample_hash graphs base_graph revision_graph).one_one_matching)
          ≡ (offers sample_hash graphs (sig sample_hash graphs 3) base_graph
              && offers sample_hash graphs (sig sample_hash graphs 3) revision_graph))
        × ((in_buckets
                (sig sample_hash graphs)
                (sig sample_hash graphs 3)
                (top_down_match sample_hash graphs base_graph revision_graph).possibly_deleted
              ≡ (offers sample_hash graphs (sig sample_hash graphs 3) base_graph
                  && not (offers sample_hash graphs (sig sample_hash graphs 3) revision_graph)))
            × (in_buckets
                  (sig sample_hash graphs)
                  (sig sample_hash graphs 3)
                  (top_down_match sample_hash graphs base_graph revision_graph).possibly_added
                ≡ (offers sample_hash graphs (sig sample_hash graphs 3) revision_graph
                    && not (offers sample_hash graphs (sig sample_hash graphs 3) base_graph)))))
top_down_match-partition_example =
    top_down_match-partition sample_hash graphs base_graph revision_graph (sig sample_hash graphs 3)
