-- ===== src/Merger/Follows.antt =====
-- The children that a merge keeps, against the children of the side whose order it keeps.
use mergebot.Prelude.{
  ℕ, zero, suc, ◌≡◌, refl, Bool, true, false, ◌&&◌, Option, none, some, List, [], ◌∷◌, Option-cases,
  inl, inr, ◌⊎◌, All, sym, subst, ap, ◌∙◌, some-injective,
}
use mergebot.Nodes.{hash_signature}
use mergebot.Nodes.Defs.{Heap}
use mergebot.Matching.{Pair, left_at, right_at, is_some}
use mergebot.Merger.{Setting, done, set_eol, present}
use mergebot.Merger.Children.{Merge, merge_matched, merge_semantic_node, sig_in}
use mergebot.Merger.Frame.{
  >>=-done, Same, done-heap, done-result, Agrees, OwnsBases, OwnsAll, IsFramed,
  merge_with_partners-Framed, right_at-owned, set_eol-Agrees, Agrees-trans,
}

-- Whether a base node has a partner on both sides.
abbrev pub in_both : (s : Setting) → Heap → ℕ → Bool
in_both s h b =
    is_some (left_at (sig_in s h b) s.our_matching.one_one_matching)
    && is_some (left_at (sig_in s h b) s.their_matching.one_one_matching)

-- What a merge of a base node gives back, the heap with it.
abbrev pub Answer : (s : Setting) → Heap → ℕ → Heap → Option ℕ → Type 0
Answer s h b h' r =
    ((r ≡ none) × ((in_both s h b ≡ false) × (h' ≡ h))) ⊎ ((r ≡ some b) × (in_both s h b ≡ true))

-- How the kept children come from the children of a side, from the heap before the loop over them to
-- the one behind it. A child without partner in the base is kept itself. For another its base node is
-- merged on the heap of its turn and kept, with the line end of the child, if it has a partner on both
-- sides on that heap; if not, nothing is kept, and the heap stays.
pub data Follows (s : Setting) (merge : Merge s) (own : List Pair) (start : Heap)
    : Heap → List ℕ → Heap → List ℕ → Type 0 where
  nothing : {h : Heap} → Follows s merge own start h [] h []
  added :
      (c : ℕ) {h h' : Heap} {cs ks : List ℕ}
      → right_at (sig_in s start c) own ≡ none
      → Follows s merge own start h cs h' ks
      → Follows s merge own start h (c ∷ cs) h' (c ∷ ks)
  kept :
      (c b : ℕ) {h m h' : Heap} {cs ks : List ℕ}
      → right_at (sig_in s start c) own ≡ some b
      → in_both s h b ≡ true
      → merge h b ≡ done (m, some b)
      → Follows s merge own start (set_eol (some b) c m) cs h' ks
      → Follows s merge own start h (c ∷ cs) h' (b ∷ ks)
  dropped :
      (c b : ℕ) {h h' : Heap} {cs ks : List ℕ}
      → right_at (sig_in s start c) own ≡ some b
      → in_both s h b ≡ false
      → Follows s merge own start h cs h' ks
      → Follows s merge own start h (c ∷ cs) h' ks

none-some : (b : ℕ) → ◌≡◌ {A = Option ℕ} none (some b) → ⊥
none-some b e = cc

-- One more child.
one :
    {s : Setting} (merge : Merge s) (ps : List Pair) (start h m h' : Heap) (c b : ℕ) (cs : List ℕ)
    (r : Option ℕ) (rs : List (Option ℕ))
    → right_at (sig_in s start c) ps ≡ some b
    → merge h b ≡ done (m, r)
    → Answer s h b m r
    → Follows s merge ps start (set_eol r c m) cs h' (present rs)
    → Follows s merge ps start h (c ∷ cs) h' (present (r ∷ rs))
unfolding present
one {s} merge ps start h m h' c b cs none rs g run x w = elim x [
  | inl n ↦ dropped c b g n.1.0 (subst (λ k. Follows s merge ps start k cs h' (present rs)) n.1.1 w)
  | inr y ↦ absurd (none-some b y.0)
]
one {s} merge ps start h m h' c b cs (some d) rs g run x w = elim x [
  | inl n ↦ absurd (none-some d (sym n.0))
  | inr y ↦
      let same = some-injective _ _ y.0 in
      subst (λ k. Follows s merge ps start h (c ∷ cs) h' (k ∷ present rs)) (sym same)
        (kept c b g y.1 (subst (λ k. merge h b ≡ done (m, some k)) same run)
          (subst (λ k. Follows s merge ps start (set_eol (some k) c m) cs h' (present rs)) same w))
]

module _ (owned : ℕ → Bool) (s : Setting) (owns : OwnsAll owned s) where
  abbrev pub Specified : Merge s → Type 0
  Specified merge =
      (h : Heap) (b : ℕ) (h' : Heap) (r : Option ℕ)
      → owned b ≡ true
      → merge h b ≡ done (h', r)
      → Agrees owned h h' × Answer s h b h' r

  pub Specified-Framed : (merge : Merge s) → Specified merge → IsFramed owned s merge
  Specified-Framed merge w h b h' r o e =
      let (a, x) = w h b h' r o e in (a, elim x [ inl n ↦ inl n.0 | inr y ↦ inr y.0 ])

  pub merge_semantic_node-Specified : (fuel : ℕ) → Specified (merge_semantic_node s fuel)
  unfolding merge_semantic_node
  merge_semantic_node-Specified zero h b h' r o e = absurd cc
  merge_semantic_node-Specified (suc fuel) h b h' r o e =
      let our = left_at (sig_in s h b) s.our_matching.one_one_matching in
      let their = left_at (sig_in s h b) s.their_matching.one_one_matching in
      elim (Option-cases our) [
        | inl f ↦
            let e' : Same h h' none r = rw (f, merge_semantic_node) at e in
            (
              subst (λ g. Agrees owned h g) (done-heap h h' none r e') (λ q k. refl),
              inl (sym (done-result h h' none r e'), (rw f refl, sym (done-heap h h' none r e'))),
            )
        | inr (p, f) ↦ elim (Option-cases their) [
          | inl g ↦
              let e' : Same h h' none r = rw (f, g, merge_semantic_node) at e in
              (
                subst (λ g. Agrees owned h g) (done-heap h h' none r e') (λ q k. refl),
                inl (
                  sym (done-result h h' none r e'),
                  (rw (f, g) refl, sym (done-heap h h' none r e')),
                ),
              )
          | inr (q, g) ↦
              let e' = rw (f, g, merge_semantic_node) at e in
              let framed =
                Specified-Framed (merge_semantic_node s fuel)
                  (merge_semantic_node-Specified fuel) in
              let (a, x) =
                merge_with_partners-Framed owned s (merge_semantic_node s fuel) framed h p b q h' r
                  owns o e' in
              (a, inr (x, rw (f, g) refl))
        ]
      ]

  -- None of the nodes is one of the base graph.
  abbrev pub Foreign : List ℕ → Type 0
  Foreign = All (λ c. owned c ≡ false)

  same_child :
      (start h : Heap) (c : ℕ)
      → Agrees owned start h
      → owned c ≡ false
      → sig_in s h c ≡ sig_in s start c
  same_child start h c a f = ap (hash_signature s.hash) (a c f)

  -- What the loop gives at its end.
  at_end :
      (merge : Merge s) (ps : List Pair) (start h : Heap) (cs : List ℕ) (g h' : Heap)
      (xs rs : List (Option ℕ))
      → Same g h' xs rs
      → Follows s merge ps start h cs g (present xs)
      → Follows s merge ps start h cs h' (present rs)
  at_end merge ps start h cs g h' xs rs e w =
      subst (λ k. Follows s merge ps start h cs k (present rs)) (done-heap g h' xs rs e)
        (subst (λ l. Follows s merge ps start h cs g (present l)) (done-result g h' xs rs e) w)

  pub merge_matched-Follows :
      (merge : Merge s) (ps : List Pair) (start h : Heap) (cs : List ℕ) (h' : Heap)
      (rs : List (Option ℕ))
      → Specified merge
      → OwnsBases owned ps
      → Foreign cs
      → Agrees owned start h
      → merge_matched s merge ps h cs ≡ done (h', rs)
      → Follows s merge ps start h cs h' (present rs)
  unfolding merge_matched present
  merge_matched-Follows merge ps start h [] h' rs w o f a e =
      subst (λ k. Follows s merge ps start h [] k (present rs)) (done-heap h h' [] rs e)
        (subst (λ l. Follows s merge ps start h [] h (present l)) (done-result h h' [] rs e)
          nothing)
  merge_matched-Follows merge ps start h (c ∷ cs) h' rs w o (fc, f) a e =
      let there = ap (λ k. right_at k ps) (same_child start h c a fc) in
      elim (Option-cases (right_at (sig_in s h c) ps)) [
        | inl g ↦
            let e' = rw (g, merge_matched) at e in
            let (r, (run, last)) = >>=-done (merge_matched s merge ps h cs) _ _ e' in
            at_end merge ps start h (c ∷ cs) r.0 h' (some c ∷ r.1) rs last (
              added c (sym there ∙ g)
                (merge_matched-Follows merge ps start h cs r.0 r.1 w o f a run))
        | inr (b, g) ↦
            let e' = rw (g, merge_matched) at e in
            let (m, (first, more)) = >>=-done (merge h b) _ _ e' in
            let h1 = set_eol m.1 c m.0 in
            let (r, (run, last)) = >>=-done (merge_matched s merge ps h1 cs) _ _ more in
            let own = right_at-owned owned (sig_in s h c) b ps o g in
            let (a1, x) = w h b m.0 m.1 own first in
            let a2 =
              set_eol-Agrees owned m.1 b c m.0 own
                (Specified-Framed merge w h b m.0 m.1 own first).1 in
            let ah = Agrees-trans owned start m.0 h1 (Agrees-trans owned start h m.0 a a1) a2 in
            let rest = merge_matched-Follows merge ps start h1 cs r.0 r.1 w o f ah run in
            at_end merge ps start h (c ∷ cs) r.0 h' (m.1 ∷ r.1) rs last
              (one merge ps start h m.0 r.0 c b cs m.1 r.1 (sym there ∙ g) first x rest)
      ]
