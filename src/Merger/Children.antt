-- ===== src/Merger/Children.antt =====
-- `mergeSemanticNode` and the merge of children in the order of a side.
use mergebot.Prelude.{ℕ, zero, suc, true, false, Option, none, some, List, [], ◌∷◌}
use mergebot.Nodes.Defs.{Heap, get_kind, is_terminal, is_composite}
use mergebot.Matching.{TwoWayMatching, Pair, left_at, right_at, signature}
use mergebot.Semantic.{in_ours, in_theirs}
use mergebot.Merger.{
  Run, done, bad_cast, out_of_fuel, ◌>>=◌, Setting, write, set_eol, present, filter_added_nodes,
  remove_duplicates, place_all,
}
use mergebot.Merger.Fields.{merge_terminal, merge_composite}

module _ (s : Setting) where
  abbrev pub sig_in : Heap → ℕ → ℕ
  sig_in heap p = signature s.hash heap p

  -- A merge of a base node gives the heap that it leaves, and the node, if it is not deleted.
  abbrev pub Merge : Type 0
  Merge = Heap → ℕ → Run (Heap × Option ℕ)

  -- The first loop over the children of the side whose order is kept.
  unfoldable pub merge_matched : Merge → List Pair → Heap → List ℕ → Run (Heap × List (Option ℕ))
  unfolding right_at
  merge_matched merge pairs heap [] = done (heap, [])
  merge_matched merge pairs heap (child ∷ children) = elim (right_at (sig_in heap child) pairs) [
    | none ↦ merge_matched merge pairs heap children >>= λ r. done (r.0, some child ∷ r.1)
    | some base_child ↦ merge heap base_child >>= λ m.
        merge_matched merge pairs (set_eol m.1 child m.0) children >>= λ r. done (r.0, m.1 ∷ r.1)
  ]

  -- The children of `node`, whose matching is `own`, with what the other side added.
  unfoldable pub merge_in_order :
      Merge → TwoWayMatching → TwoWayMatching → Heap → ℕ → ℕ → Run (Heap × List ℕ)
  unfolding merge_matched present filter_added_nodes remove_duplicates place_all
  merge_in_order merge own other heap node base_node =
      merge_matched merge own.one_one_matching heap (heap node).children >>= λ r. done (
        r.0,
        place_all s.hash r.0
            (remove_duplicates s.hash r.0 (filter_added_nodes s.hash r.0 base_node other)
              (filter_added_nodes s.hash r.0 base_node own))
            (present r.1),
      )

  unfoldable pub direct_merge_children_in_our_order : Merge → Heap → ℕ → ℕ → ℕ → Run (Heap × List ℕ)
  unfolding merge_in_order
  direct_merge_children_in_our_order merge heap our_node base_node their_node =
      merge_in_order merge s.our_matching s.their_matching heap our_node base_node

  unfoldable pub direct_merge_children_in_their_order :
      Merge → Heap → ℕ → ℕ → ℕ → Run (Heap × List ℕ)
  unfolding merge_in_order
  direct_merge_children_in_their_order merge heap our_node base_node their_node =
      merge_in_order merge s.their_matching s.our_matching heap their_node base_node

  unfoldable pub direct_merge_children : Merge → Heap → ℕ → ℕ → ℕ → Run (Heap × List ℕ)
  unfolding direct_merge_children_in_our_order direct_merge_children_in_their_order
  direct_merge_children merge heap our_node base_node their_node = elim s.order_in_favour [
    | in_ours ↦ direct_merge_children_in_our_order merge heap our_node base_node their_node
    | in_theirs ↦ direct_merge_children_in_their_order merge heap our_node base_node their_node
  ]

  -- A base node with a partner on either side. A composite node is written before its children are
  -- merged.
  unfoldable pub merge_with_partners : Merge → Heap → ℕ → ℕ → ℕ → Run (Heap × Option ℕ)
  unfolding merge_terminal merge_composite direct_merge_children
  merge_with_partners merge heap our_node base_node their_node =
      let our = heap our_node in
      let base = heap base_node in
      let their = heap their_node in
      elim (is_terminal (get_kind base)) [
        | true ↦ merge_terminal s.git our base their >>= λ n.
            done (write base_node n heap, some base_node)
        | false ↦ elim (is_composite (get_kind their)) [
          | false ↦ bad_cast
          | true ↦
              direct_merge_children merge
                (write base_node (merge_composite s.git our base their) heap) our_node base_node
                their_node
              >>= λ r.
                  done (
                    write base_node (record (r.0 base_node) { children = r.1 }) r.0,
                    some base_node,
                  )
        ]
      ]

  unfoldable pub merge_semantic_node : ℕ → Merge
  unfolding left_at merge_with_partners
  merge_semantic_node zero heap base_node = out_of_fuel
  merge_semantic_node (suc fuel) heap base_node =
      elim (left_at (sig_in heap base_node) s.our_matching.one_one_matching) [
        | none ↦ done (heap, none)
        | some our_node ↦ elim (left_at (sig_in heap base_node) s.their_matching.one_one_matching) [
          | none ↦ done (heap, none)
          | some their_node ↦
              merge_with_partners (merge_semantic_node fuel) heap our_node base_node their_node
        ]
      ]
