-- ===== src/Merger/Termination.antt =====
-- A merge of graphs that no side renamed a composite node of, and that have finite depth, ends.
use mergebot.Prelude.{
  ℕ, ◌≡◌, ◌<◌, refl, Bool, true, false, Option, none, some, List, [], ◌∷◌, Bool-cases, Option-cases,
  inl, inr, ◌⊎◌, ◌∙◌, ap, subst, sym, All, some-injective,
}
use mergebot.Nodes.{hash_signature}
use mergebot.Nodes.Defs.{Heap, get_kind, is_composite}
use mergebot.Matching.{TwoWayMatching, Pair, left_at, right_at}
use mergebot.Semantic.{OrderInfavour, in_ours, in_theirs}
use mergebot.Merger.{Setting, write, set_eol}
use mergebot.Merger.Fields.{merge_terminal, merge_composite}
use mergebot.Merger.Children.{
  Merge, merge_matched, merge_in_order, direct_merge_children, direct_merge_children_in_our_order,
  direct_merge_children_in_their_order, merge_with_partners, sig_in,
}
use mergebot.Merger.Frame.{OwnsBases, OwnsAll, right_at-owned}
use mergebot.Merger.Merged.{choose, own_matching}
use mergebot.Merger.Steady.{
  signature-eol, signature-children, signature-merge_composite, name-merge_composite,
  kind-merge_composite,
}
use mergebot.Merger.Ends.{Ends, Ends-bind, terminal, merge_terminal-Ends, Steady, write-Steady}

both : true ≡ false → ⊥
both e = cc

-- A partner of a composite base node is no base node, and has its name.
abbrev pub Unrenamed : (ℕ → Bool) → Setting → Heap → List Pair → Type 0
Unrenamed owned s start ps =
    (b o : ℕ)
    → owned b ≡ true
    → terminal (start b) ≡ false
    → left_at (sig_in s start b) ps ≡ some o
    → (owned o ≡ false) × ((start o).qualified_name ≡ (start b).qualified_name)

-- What is asked of the children of a node: they are no base nodes, and their own partners in the
-- base have a rank below a bound.
abbrev pub Low : (ℕ → Bool) → Setting → Heap → (ℕ → ℕ) → ℕ → List Pair → List ℕ → Type 0
Low owned s start rank bound ps =
    All (λ c.
      (owned c ≡ false) × ((d : ℕ) → right_at (sig_in s start c) ps ≡ some d → rank d < bound))

-- The children of the partner of a composite base node have a lower rank than it.
abbrev pub Ranked : (ℕ → Bool) → Setting → Heap → (ℕ → ℕ) → List Pair → Type 0
Ranked owned s start rank ps =
    (b o : ℕ)
    → owned b ≡ true
    → terminal (start b) ≡ false
    → left_at (sig_in s start b) ps ≡ some o
    → Low owned s start rank (rank b) ps (start o).children

module _ (owned : ℕ → Bool) (s : Setting) (owns : OwnsAll owned s) (start : Heap) where
  abbrev pub Good : Heap → Type 0
  Good = Steady owned s start

  -- What the merge of the base node `b` leaves.
  abbrev pub Left : ℕ → Heap × Option ℕ → Type 0
  Left b r = Good r.0 × ((r.1 ≡ none) ⊎ (r.1 ≡ some b))

  set_eol-Good :
      (r : Option ℕ) (b c : ℕ) (h : Heap) → owned b ≡ true → Left b (h, r) → Good (set_eol r c h)
  set_eol-Good none b c h o (g, _) = g
  set_eol-Good (some p) b c h o (g, w) = elim w [
    | inl n ↦ absurd (cc)
    | inr n ↦
        let own = subst (λ x. owned x ≡ true) (sym (some-injective _ _ n)) o in
        write-Steady owned s start h p _ own refl (λ z. refl) (λ z. signature-eol s.hash (h p) _) g
  ]

  module _ (merge : Merge s) (bound : ℕ) (rank : ℕ → ℕ)
      (ends : (h : Heap) (d : ℕ)
        → Good h
        → owned d ≡ true
        → rank d < bound
        → Ends (Left d) (merge h d)) where
    merge_matched-Ends :
        (ps : List Pair) (h : Heap) (cs : List ℕ)
        → OwnsBases owned ps
        → Good h
        → Low owned s start rank bound ps cs
        → Ends (λ r. Good r.0) (merge_matched s merge ps h cs)
    unfolding merge_matched
    merge_matched-Ends ps h [] o g w = g
    merge_matched-Ends ps h (c ∷ cs) o g ((foreign, low), w) =
        let same : sig_in s h c ≡ sig_in s start c =
          ap (hash_signature s.hash) (g.others c foreign) in
        elim (Option-cases (right_at (sig_in s h c) ps)) [
          | inl f ↦
              rw (f, merge_matched)
                (Ends-bind (λ r. Good r.0) (λ r. Good r.0) (merge_matched s merge ps h cs) _
                  (merge_matched-Ends ps h cs o g w) (λ r k. k))
          | inr (d, f) ↦
              let own = right_at-owned owned (sig_in s h c) d ps o f in
              let there : right_at (sig_in s start c) ps ≡ some d =
                subst (λ k. right_at k ps ≡ some d) same f in
              rw (f, merge_matched)
                (Ends-bind (Left d) (λ r. Good r.0) (merge h d) _ (ends h d g own (low d there))
                  (λ m k.
                    Ends-bind (λ r. Good r.0) (λ r. Good r.0)
                      (merge_matched s merge ps (set_eol m.1 c m.0) cs) _
                      (merge_matched-Ends ps (set_eol m.1 c m.0) cs o
                        (set_eol-Good m.1 d c m.0 own k) w)
                      (λ r q. q)))
        ]

    merge_in_order-Ends :
        (own other : TwoWayMatching) (h : Heap) (n b : ℕ)
        → OwnsBases owned own.one_one_matching
        → Good h
        → owned n ≡ false
        → Low owned s start rank bound own.one_one_matching (start n).children
        → Ends (λ r. Good r.0) (merge_in_order s merge own other h n b)
    unfolding merge_in_order
    merge_in_order-Ends own other h n b o g f w =
        Ends-bind (λ r. Good r.0) (λ r. Good r.0)
          (merge_matched s merge own.one_one_matching h (h n).children) _
          (merge_matched-Ends own.one_one_matching h (h n).children o g (
            subst (λ m. Low owned s start rank bound own.one_one_matching m.children)
              (sym (g.others n f)) w))
          (λ r k. k)

    by_order-Ends :
        (f : OrderInfavour) (h : Heap) (o b t : ℕ)
        → Good h
        → owned o ≡ false
        → owned t ≡ false
        → Low owned s start rank bound
            (choose f s.our_matching s.their_matching).one_one_matching
            (start (choose f o t)).children
        → Ends
            (λ r. Good r.0)
            (elim f [
              | in_ours ↦ direct_merge_children_in_our_order s merge h o b t
              | in_theirs ↦ direct_merge_children_in_their_order s merge h o b t
            ])
    unfolding direct_merge_children_in_our_order direct_merge_children_in_their_order
    by_order-Ends in_ours h o b t g fo ft w =
        merge_in_order-Ends s.our_matching s.their_matching h o b owns.0 g fo w
    by_order-Ends in_theirs h o b t g fo ft w =
        merge_in_order-Ends s.their_matching s.our_matching h t b owns.1 g ft w

    -- A composite base node, with its partners.
    pub composite-Ends :
        (h : Heap) (o b t : ℕ)
        → Good h
        → owned b ≡ true
        → terminal (start b) ≡ false
        → (owned o ≡ false) × ((start o).qualified_name ≡ (start b).qualified_name)
        → (owned t ≡ false) × ((start t).qualified_name ≡ (start b).qualified_name)
        → Low owned s start rank bound
            (own_matching s).one_one_matching
            (start (choose s.order_in_favour o t)).children
        → Ends (Left b) (merge_with_partners s merge h o b t)
    unfolding merge_with_partners direct_merge_children
    composite-Ends h o b t g k z (fo, same_o) (ft, same_t) w =
        let tz : terminal (h b) ≡ false = g.kinds b k ∙ z in
        elim (Bool-cases (is_composite (get_kind (h t)))) [
          | inr e ↦ rw (tz, e, merge_with_partners) tt
          | inl e ↦
              let name_o : (h o).qualified_name ≡ (h b).qualified_name =
                ap (λ n. n.qualified_name) (g.others o fo) ∙ (same_o ∙ sym (g.kept_names b k z)) in
              let name_t : (h t).qualified_name ≡ (h b).qualified_name =
                ap (λ n. n.qualified_name) (g.others t ft) ∙ (same_t ∙ sym (g.kept_names b k z)) in
              let made = merge_composite s.git (h o) (h b) (h t) in
              let g' =
                write-Steady owned s start h b made k (kind-merge_composite s.git (h o) (h b) (h t))
                  (λ _. name-merge_composite s.git (h o) (h b) (h t) name_o name_t)
                  (λ _. signature-merge_composite s.hash s.git (h o) (h b) (h t) name_o name_t) g in
              rw (tz, e, merge_with_partners)
                (Ends-bind (λ r. Good r.0) (Left b)
                  (direct_merge_children s merge (write b made h) o b t) _
                  (by_order-Ends s.order_in_favour (write b made h) o b t g' fo ft w)
                  (λ r q. (
                    write-Steady owned s start r.0 b (record (r.0 b) { children = r.1 }) k refl
                        (λ _. refl) (λ _. signature-children s.hash (r.0 b) r.1) q,
                    inr refl,
                  )))
        ]

    pub terminal-Ends :
        (h : Heap) (o b t : ℕ)
        → Good h
        → owned b ≡ true
        → terminal (start b) ≡ true
        → Ends (Left b) (merge_with_partners s merge h o b t)
    unfolding merge_with_partners
    terminal-Ends h o b t g k z =
        let tz : terminal (h b) ≡ true = g.kinds b k ∙ z in
        rw (tz, merge_with_partners)
          (Ends-bind (λ n. terminal n ≡ true) (Left b) (merge_terminal s.git (h o) (h b) (h t)) _
            (merge_terminal-Ends s.git (h o) (h b) (h t) tz)
            (λ n q. (
              write-Steady owned s start h b n k (q ∙ sym tz) (λ f. absurd (both (sym z ∙ f)))
                  (λ f. absurd (both (sym z ∙ f))) g,
              inr refl,
            )))
