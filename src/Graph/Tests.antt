-- ===== src/Graph/Tests.antt =====
-- Merges of small lists.
use mergebot.Prelude.{◌≡◌, refl, none, some, [], ◌∷◌}
use mergebot.Bytes.{codes}
use mergebot.Prelude.{true, inl}
use mergebot.Graph.Queue.{Distinct}
use mergebot.Graph.Order.{merge_vectors-order, merge_vectors-Distinct}
use mergebot.Graph.{
  unique, add_nodes, add_node, add_chain, add_edge, insert_edge, count_edge, has_node, member,
  topological_sort, has_cycle, dfs, names, dfs_fuel, neighbours_of, degrees, sources, sort_loop,
  pop_max, bytes_less, release, decrement, merge_vectors,
}

-- Both sides add a line behind the one that they share.
merges_one_side :
    merge_vectors (codes "a" ∷ codes "b" ∷ []) (codes "a" ∷ codes "c" ∷ [])
    ≡ some (codes "a" ∷ codes "c" ∷ codes "b" ∷ [])
unfolding merge_vectors unique add_nodes add_node add_chain add_edge insert_edge count_edge has_node
    member topological_sort has_cycle dfs names dfs_fuel neighbours_of degrees sources sort_loop
    pop_max bytes_less release decrement
merges_one_side = refl

-- A cycle is found.
merges_cycle : merge_vectors (codes "a" ∷ codes "b" ∷ []) (codes "b" ∷ codes "a" ∷ []) ≡ none
unfolding merge_vectors unique add_nodes add_node add_chain add_edge insert_edge count_edge has_node
    member topological_sort has_cycle dfs names dfs_fuel neighbours_of degrees sources sort_loop
    pop_max bytes_less release decrement
merges_cycle = refl

-- Two lists that agree are not merged: the edge that they share counts twice in the in-degree.
merges_same : merge_vectors (codes "a" ∷ codes "b" ∷ []) (codes "a" ∷ codes "b" ∷ []) ≡ none
unfolding merge_vectors unique add_nodes add_node add_chain add_edge insert_edge count_edge has_node
    member topological_sort has_cycle dfs names dfs_fuel neighbours_of degrees sources sort_loop
    pop_max bytes_less release decrement
merges_same = refl

merge_vectors-order_example : member (codes "a") (codes "a" ∷ codes "c" ∷ []) ≡ true
unfolding unique member
merge_vectors-order_example =
    merge_vectors-order (codes "a" ∷ codes "b" ∷ []) (codes "a" ∷ codes "c" ∷ [])
      (codes "a" ∷ codes "c" ∷ codes "b" ∷ []) [] (codes "a") (codes "b") []
      (codes "a" ∷ codes "c" ∷ []) [] merges_one_side (inl refl) refl

merge_vectors-Distinct_example : Distinct (codes "a" ∷ codes "c" ∷ codes "b" ∷ [])
merge_vectors-Distinct_example =
    merge_vectors-Distinct (codes "a" ∷ codes "b" ∷ []) (codes "a" ∷ codes "c" ∷ [])
      (codes "a" ∷ codes "c" ∷ codes "b" ∷ []) merges_one_side
