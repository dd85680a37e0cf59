-- ===== src/Matching/Paired.antt =====
-- The loop of `topDownMatch` over the nodes of the base.
use mergebot.Prelude.{
  ℕ, ◌≡◌, refl, Bool, true, false, ◌&&◌, ◌||◌, not, List, [], ◌∷◌, ◌==◌, arith, Bool-cases,
  Option-cases, inl, inr, sym, subst,
}
use mergebot.Nodes.{Hashers}
use mergebot.Nodes.Defs.{Heap, get_kind}
use mergebot.Matching.{
  Pair, left_at, is_some, insert_pair, Table, assign, node_at, erase, TwoWayMatching, signature,
  takes_part, add_unmatched_node, table_of, pair_up,
}
use mergebot.Matching.Bimap.{
  has_key, has_key-assign, DistinctKeys, assign-DistinctKeys, has_key-erase, erase-DistinctKeys,
  Keyed, assign-Keyed, erase-Keyed, node_at-Keyed, Twin, insert_pair-Twin, left_at-insert_pair,
  in_buckets, in_buckets-push_to,
}

-- Whether a node of the graph that takes part has the hash.
abbrev pub offers : Hashers → Heap → ℕ → List ℕ → Bool
offers hash heap k [] = false
offers hash heap k (p ∷ ps) =
    (takes_part hash heap p && (k == signature hash heap p)) || offers hash heap k ps

module _ (hash : Hashers) (heap : Heap) where
  abbrev pub sig : ℕ → ℕ
  sig = signature hash heap

  pub record IsTable (t : Table) : Type 0 where
    pub distinct : DistinctKeys t
    pub keyed : Keyed sig t

  pub table_of-IsTable : (ps : List ℕ) (t : Table) → IsTable t → IsTable (table_of hash heap ps t)
  unfolding table_of
  table_of-IsTable [] t w = w
  table_of-IsTable (p ∷ ps) t w = elim (Bool-cases (takes_part hash heap p)) [
    | inl s ↦
        rw (s, table_of)
          (table_of-IsTable ps (assign (sig p) p t) (record {
            distinct = assign-DistinctKeys (sig p) p t w.distinct;
            keyed = assign-Keyed sig (sig p) p t refl w.keyed;
          }))
    | inr s ↦ rw (s, table_of) (table_of-IsTable ps t w)
  ]

  pub has_key-table_of :
      (k : ℕ) (ps : List ℕ) (t : Table)
      → has_key k (table_of hash heap ps t) ≡ (offers hash heap k ps || has_key k t)
  unfolding table_of
  has_key-table_of k [] t = refl
  has_key-table_of k (p ∷ ps) t = elim (Bool-cases (takes_part hash heap p)) [
    | inl s ↦
        let a = has_key-assign k (sig p) p t in
        let r = has_key-table_of k ps (assign (sig p) p t) in rw (s, table_of) (ground arith)
    | inr s ↦ let r = has_key-table_of k ps t in rw (s, table_of) (ground arith)
  ]

  -- What is known of the outcome `m'` that the loop over the base nodes makes of `m`.
  pub record Paired (base revision rest : Table) (m m' : TwoWayMatching) : Type 0 where
    pub twin : Twin m'.one_one_matching
    pub left :
        (k : ℕ)
        → is_some (left_at k m'.one_one_matching)
          ≡ (is_some (left_at k m.one_one_matching) || (has_key k base && has_key k revision))
    pub gone :
        (k : ℕ)
        → in_buckets sig k m'.possibly_deleted
          ≡ (in_buckets sig k m.possibly_deleted || (has_key k base && not (has_key k revision)))
    pub added : m'.possibly_added ≡ m.possibly_added
    pub left_over : (k : ℕ) → has_key k rest ≡ (has_key k revision && not (has_key k base))
    pub table : IsTable rest

  abbrev pair_of : ℕ → ℕ → Pair
  pair_of p q = record {
    base_hash = sig p;
    base_node = p;
    revision_hash = sig q;
    revision_node = q;
  }

  abbrev with_pair : ℕ → ℕ → TwoWayMatching → TwoWayMatching
  with_pair p q m = record m { one_one_matching = insert_pair (pair_of p q) m.one_one_matching }

  after_match :
      (p q : ℕ) (base revision rest : Table) (m m' : TwoWayMatching)
      → IsTable revision
      → Twin m.one_one_matching
      → sig q ≡ sig p
      → has_key (sig p) revision ≡ true
      → has_key (sig p) base ≡ false
      → Paired base (erase (sig p) revision) rest (with_pair p q m) m'
      → Paired ((sig p, p) ∷ base) revision rest m m'
  unfolding node_at
  after_match p q base revision rest m m' r t e here apart w = record {
    twin = w.twin;
    left = λ k.
        let l = w.left k in
        let i = left_at-insert_pair k (pair_of p q) m.one_one_matching (ground arith) t in
        let d = has_key-erase k (sig p) revision r.distinct in ground arith;
    gone = λ k.
        let g = w.gone k in let d = has_key-erase k (sig p) revision r.distinct in ground arith;
    added = w.added;
    left_over = λ k.
        let l = w.left_over k in
        let d = has_key-erase k (sig p) revision r.distinct in ground arith;
    table = w.table;
  }

  after_deletion :
      (p : ℕ) (base revision rest : Table) (m m' : TwoWayMatching)
      → has_key (sig p) revision ≡ false
      → Paired base revision rest (add_unmatched_node heap p true m) m'
      → Paired ((sig p, p) ∷ base) revision rest m m'
  unfolding node_at add_unmatched_node
  after_deletion p base revision rest m m' absent w = record {
    twin = w.twin;
    left = λ k. let l = w.left k in ground arith;
    gone = λ k.
        let g = w.gone k in
        let b = in_buckets-push_to sig k (get_kind (heap p)) p m.possibly_deleted in ground arith;
    added = w.added;
    left_over = λ k. let l = w.left_over k in ground arith;
    table = w.table;
  }

  pub pair_up-Paired :
      (base revision : Table) (m : TwoWayMatching)
      → IsTable base
      → IsTable revision
      → Twin m.one_one_matching
      → Paired base revision
          (pair_up hash heap base revision m).0
          m
          (pair_up hash heap base revision m).1
  unfolding pair_up node_at
  pair_up-Paired [] revision m b r t = record {
    twin = t;
    left = λ k. ground arith;
    gone = λ k. ground arith;
    added = refl;
    left_over = λ k. ground arith;
    table = r;
  }
  pair_up-Paired ((h, p) ∷ base) revision m b r t =
      let same : h ≡ sig p = b.keyed.0 in
      let apart : has_key (sig p) base ≡ false =
        subst (λ j. has_key j base ≡ false) same b.distinct.0 in
      let rest : IsTable base = record { distinct = b.distinct.1; keyed = b.keyed.1 } in
      subst
        (λ j.
          Paired ((j, p) ∷ base) revision (pair_up hash heap ((j, p) ∷ base) revision m).0 m
            (pair_up hash heap ((j, p) ∷ base) revision m).1)
        (sym same)
        (elim (Option-cases (node_at (sig p) revision)) [
          | inl none_there ↦
              rw (none_there, pair_up)
                (after_deletion p base revision _ m _ (rw none_there refl)
                  (pair_up-Paired base revision (add_unmatched_node heap p true m) rest r t))
          | inr (q, found) ↦
              let e = node_at-Keyed sig (sig p) q revision r.keyed found in
              let left : IsTable (erase (sig p) revision) = record {
                distinct = erase-DistinctKeys (sig p) revision r.distinct;
                keyed = erase-Keyed sig (sig p) revision r.keyed;
              } in
              let t' = insert_pair-Twin (pair_of p q) m.one_one_matching (sym e) t in
              rw (found, pair_up)
                (after_match p q base revision _ m _ r t e (rw found refl) apart
                  (pair_up-Paired base (erase (sig p) revision) (with_pair p q m) rest left t'))
        ])
