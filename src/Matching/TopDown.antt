-- ===== src/Matching/TopDown.antt =====
-- What `topDownMatch` does with every hash.
use mergebot.Prelude.{ℕ, ◌≡◌, refl, Bool, false, ◌&&◌, ◌||◌, not, List, [], ◌∷◌, arith, subst, ◌∙◌}
use mergebot.Nodes.{Hashers}
use mergebot.Nodes.Defs.{Heap, get_kind}
use mergebot.Matching.{
  left_at, right_at, is_some, Table, node_at, TwoWayMatching, add_unmatched_node, table_of, pair_up,
  add_all, top_down_match,
}
use mergebot.Matching.Bimap.{has_key, Keyed, Twin-right, in_buckets, in_buckets-push_to}
use mergebot.Matching.Paired.{
  offers, sig, IsTable, Paired, table_of-IsTable, has_key-table_of, pair_up-Paired,
}

module _ (hash : Hashers) (heap : Heap) where
  record Added (t : Table) (m m' : TwoWayMatching) : Type 0 where
    pairs : m'.one_one_matching ≡ m.one_one_matching
    deleted : m'.possibly_deleted ≡ m.possibly_deleted
    waiting :
        (k : ℕ)
        → in_buckets (sig hash heap) k m'.possibly_added
          ≡ (in_buckets (sig hash heap) k m.possibly_added || has_key k t)

  add_all-Added :
      (t : Table) (m : TwoWayMatching) → Keyed (sig hash heap) t → Added t m (add_all hash heap t m)
  unfolding add_all node_at add_unmatched_node
  add_all-Added [] m w = record { pairs = refl; deleted = refl; waiting = λ k. ground arith }
  add_all-Added ((h, p) ∷ t) m (e, w) =
      let r = add_all-Added t (add_unmatched_node heap p false m) w in
      record {
        pairs = r.pairs;
        deleted = r.deleted;
        waiting = λ k.
            let l = r.waiting k in
            let b = in_buckets-push_to (sig hash heap) k (get_kind (heap p)) p m.possibly_added in
            ground arith;
      }

  or_false : (b : Bool) → (b || false) ≡ b
  or_false b = ground arith

  abbrev Partition : ℕ → TwoWayMatching → Bool → Bool → Type 0
  Partition k m ours theirs =
      (is_some (left_at k m.one_one_matching) ≡ (ours && theirs))
      × ((is_some (right_at k m.one_one_matching) ≡ (ours && theirs))
          × ((in_buckets (sig hash heap) k m.possibly_deleted ≡ (ours && not theirs))
              × (in_buckets (sig hash heap) k m.possibly_added ≡ (theirs && not ours))))

  finished :
      (k : ℕ) (base revision rest : Table) (m m' : TwoWayMatching)
      → Paired hash heap base revision rest
          (record { one_one_matching = []; possibly_deleted = []; possibly_added = [] })
          m
      → Added rest m m'
      → Partition k m' (has_key k base) (has_key k revision)
  unfolding left_at
  finished k base revision rest m m' w a =
      let tw = Twin-right k m.one_one_matching w.twin in
      let l = w.left k in
      let g = w.gone k in
      let o = w.left_over k in
      let n = a.waiting k in
      (
        rw (a.pairs) (ground arith),
        (
          rw (a.pairs) (ground arith),
          (rw (a.deleted) (ground arith), rw (n, w.added) (ground arith)),
        ),
      )

  -- For every hash: the nodes with that hash are paired, on either side of the map, exactly when both
  -- graphs have a node with it that takes part; such a node of the base alone is possibly deleted,
  -- and one of the revision alone possibly added, and no others are.
  pub top_down_match-partition :
      (base_graph revision_graph : List ℕ) (k : ℕ)
      → (is_some (left_at k (top_down_match hash heap base_graph revision_graph).one_one_matching)
          ≡ (offers hash heap k base_graph && offers hash heap k revision_graph))
        × ((is_some
                (right_at k (top_down_match hash heap base_graph revision_graph).one_one_matching)
              ≡ (offers hash heap k base_graph && offers hash heap k revision_graph))
            × ((in_buckets
                    (sig hash heap)
                    k
                    (top_down_match hash heap base_graph revision_graph).possibly_deleted
                  ≡ (offers hash heap k base_graph && not (offers hash heap k revision_graph)))
                × (in_buckets
                      (sig hash heap)
                      k
                      (top_down_match hash heap base_graph revision_graph).possibly_added
                    ≡ (offers hash heap k revision_graph && not (offers hash heap k base_graph)))))
  unfolding top_down_match node_at left_at
  top_down_match-partition base_graph revision_graph k =
      let nothing : IsTable hash heap [] = record { distinct = tt; keyed = tt } in
      let fresh : TwoWayMatching = record {
        one_one_matching = [];
        possibly_deleted = [];
        possibly_added = [];
      } in
      let bt = table_of hash heap base_graph [] in
      let rt = table_of hash heap revision_graph [] in
      let w =
        pair_up-Paired hash heap bt rt fresh (table_of-IsTable hash heap base_graph [] nothing)
          (table_of-IsTable hash heap revision_graph [] nothing) tt in
      let a =
        add_all-Added (pair_up hash heap bt rt fresh).0 (pair_up hash heap bt rt fresh).1
          w.table.keyed in
      let all = finished k bt rt _ _ _ w a in
      subst
        (λ x.
          Partition k (top_down_match hash heap base_graph revision_graph) x
            (offers hash heap k revision_graph))
        (has_key-table_of hash heap k base_graph [] ∙ or_false _)
        (subst
          (λ y. Partition k (top_down_match hash heap base_graph revision_graph) (has_key k bt) y)
          (has_key-table_of hash heap k revision_graph [] ∙ or_false _) all)
