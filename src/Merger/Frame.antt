-- ===== src/Merger/Frame.antt =====
-- A merge writes to nodes of the base graph only, and gives back the node that it was asked for or
-- none.
use mergebot.Prelude.{
  ℕ, ◌≡◌, refl, Bool, true, false, Option, none, some, List, [], ◌∷◌, arith, Bool-cases,
  Option-cases, inl, inr, ◌⊎◌, All, ◌∙◌, sym, ap, subst, some-injective,
}
use mergebot.Nodes.Defs.{SemanticNode, Heap, get_kind, is_terminal, is_composite}
use mergebot.Matching.{TwoWayMatching, Pair, right_at}
use mergebot.Semantic.{OrderInfavour, in_ours, in_theirs}
use mergebot.Merger.{Run, done, bad_cast, out_of_fuel, ◌>>=◌, Setting, write, set_eol}
use mergebot.Merger.Fields.{merge_terminal, merge_composite}
use mergebot.Merger.Children.{
  Merge, merge_matched, merge_in_order, direct_merge_children, direct_merge_children_in_our_order,
  direct_merge_children_in_their_order, merge_with_partners, sig_in,
}

pub >>=-done {ℓ κ} :
    {A : Type ℓ} {B : Type κ} (m : Run A) (f : A → Run B) (b : B)
    → (m >>= f) ≡ done b
    → (a : A) × ((m ≡ done a) × (f a ≡ done b))
>>=-done (done a) f b h = (a, (refl, h))
>>=-done bad_cast f b h = absurd cc
>>=-done out_of_fuel f b h = absurd cc

pub done-injective {ℓ} : {A : Type ℓ} {a b : A} → done a ≡ done b → a ≡ b
done-injective h = cc

abbrev pub Same {ℓ} : {A : Type ℓ} → Heap → Heap → A → A → Type ℓ
Same {A} h g a b = ◌≡◌ {A = Run (Heap × A)} (done (h, a)) (done (g, b))

pub done-heap {ℓ} : {A : Type ℓ} (h g : Heap) (a b : A) → Same h g a b → h ≡ g
done-heap h g a b e = ap (λ x. x.0) (done-injective e)

pub done-result {ℓ} : {A : Type ℓ} (h g : Heap) (a b : A) → Same h g a b → a ≡ b
done-result h g a b e = ap (λ x. x.1) (done-injective e)

pub order_cases : (f : OrderInfavour) → (f ≡ in_ours) ⊎ (f ≡ in_theirs)
order_cases in_ours = inl refl
order_cases in_theirs = inr refl

-- `owned` holds of the nodes of the base graph.
module _ (owned : ℕ → Bool) where
  -- The nodes of the other graphs are as they were.
  abbrev pub Agrees : Heap → Heap → Type 0
  Agrees h h' = (q : ℕ) → owned q ≡ false → h' q ≡ h q

  -- The base nodes of the pairs are owned.
  abbrev pub OwnsBases : List Pair → Type 0
  OwnsBases = All (λ p. owned p.base_node ≡ true)

  -- Those of both matchings.
  abbrev pub OwnsAll : Setting → Type 0
  OwnsAll s =
      OwnsBases s.our_matching.one_one_matching × OwnsBases s.their_matching.one_one_matching

  pub right_at-owned :
      (k b : ℕ) (ps : List Pair) → OwnsBases ps → right_at k ps ≡ some b → owned b ≡ true
  unfolding right_at
  right_at-owned k b [] w e = ground arith
  right_at-owned k b (p ∷ ps) (o, w) e = ground (arith, right_at-owned k b ps w)

  pub write-Agrees : (p : ℕ) (n : SemanticNode) (h : Heap) → owned p ≡ true → Agrees h (write p n h)
  write-Agrees p n h o q e = ground arith

  pub Agrees-trans : (h h' h'' : Heap) → Agrees h h' → Agrees h' h'' → Agrees h h''
  Agrees-trans h h' h'' a b q e = b q e ∙ a q e

  -- What holds of a merge of base nodes.
  abbrev pub IsFramed : (s : Setting) → Merge s → Type 0
  IsFramed s merge =
      (h : Heap) (b : ℕ) (h' : Heap) (r : Option ℕ)
      → owned b ≡ true
      → merge h b ≡ done (h', r)
      → Agrees h h' × ((r ≡ none) ⊎ (r ≡ some b))

  pub set_eol-Agrees :
      (r : Option ℕ) (b c : ℕ) (h : Heap)
      → owned b ≡ true
      → (r ≡ none) ⊎ (r ≡ some b)
      → Agrees h (set_eol r c h)
  set_eol-Agrees none b c h o w = λ q e. refl
  set_eol-Agrees (some p) b c h o w = elim w [
    | inl n ↦ absurd (cc)
    | inr n ↦ write-Agrees p _ h (subst (λ x. owned x ≡ true) (sym (some-injective _ _ n)) o)
  ]

  module _ (s : Setting) (merge : Merge s) (framed : IsFramed s merge) where
    pub merge_matched-Agrees :
        (ps : List Pair) (h : Heap) (cs : List ℕ) (h' : Heap) (rs : List (Option ℕ))
        → OwnsBases ps
        → merge_matched s merge ps h cs ≡ done (h', rs)
        → Agrees h h'
    unfolding merge_matched
    merge_matched-Agrees ps h [] h' rs o e =
        let same : h ≡ h' = done-heap h h' [] rs e in subst (λ g. Agrees h g) same (λ q k. refl)
    merge_matched-Agrees ps h (c ∷ cs) h' rs o e =
        elim (Option-cases (right_at (sig_in s h c) ps)) [
          | inl f ↦
              let e' = rw (f, merge_matched) at e in
              let (r, (run, last)) = >>=-done (merge_matched s merge ps h cs) _ _ e' in
              let same : r.0 ≡ h' = done-heap r.0 h' _ rs last in
              subst (λ g. Agrees h g) same (merge_matched-Agrees ps h cs r.0 r.1 o run)
          | inr (b, f) ↦
              let e' = rw (f, merge_matched) at e in
              let (m, (first, more)) = >>=-done (merge h b) _ _ e' in
              let (r, (run, last)) =
                >>=-done (merge_matched s merge ps (set_eol m.1 c m.0) cs) _ _ more in
              let same : r.0 ≡ h' = done-heap r.0 h' _ rs last in
              let own = right_at-owned (sig_in s h c) b ps o f in
              let (a, w) = framed h b m.0 m.1 own first in
              let eol = set_eol-Agrees m.1 b c m.0 own w in
              let rest = merge_matched-Agrees ps (set_eol m.1 c m.0) cs r.0 r.1 o run in
              subst (λ g. Agrees h g) same
                (Agrees-trans h m.0 r.0 a (Agrees-trans m.0 (set_eol m.1 c m.0) r.0 eol rest))
        ]

    merge_in_order-Agrees :
        (own other : TwoWayMatching) (h : Heap) (node b : ℕ) (h' : Heap) (r : List ℕ)
        → OwnsBases own.one_one_matching
        → merge_in_order s merge own other h node b ≡ done (h', r)
        → Agrees h h'
    unfolding merge_in_order
    merge_in_order-Agrees own other h node b h' r o e =
        let (m, (run, last)) =
          >>=-done (merge_matched s merge own.one_one_matching h (h node).children) _ _ e in
        subst (λ g. Agrees h g) (done-heap m.0 h' _ r last)
          (merge_matched-Agrees own.one_one_matching h (h node).children m.0 m.1 o run)

    direct_merge_children-Agrees :
        (h : Heap) (o b t : ℕ) (h' : Heap) (r : List ℕ)
        → OwnsAll s
        → direct_merge_children s merge h o b t ≡ done (h', r)
        → Agrees h h'
    unfolding direct_merge_children direct_merge_children_in_our_order
        direct_merge_children_in_their_order
    direct_merge_children-Agrees h o b t h' r w e = elim (order_cases s.order_in_favour) [
      | inl f ↦
          merge_in_order-Agrees s.our_matching s.their_matching h o b h' r w.0
            (rw (f, direct_merge_children) at e)
      | inr f ↦
          merge_in_order-Agrees s.their_matching s.our_matching h t b h' r w.1
            (rw (f, direct_merge_children) at e)
    ]

    pub merge_with_partners-Framed :
        (h : Heap) (o b t : ℕ) (h' : Heap) (r : Option ℕ)
        → OwnsAll s
        → owned b ≡ true
        → merge_with_partners s merge h o b t ≡ done (h', r)
        → Agrees h h' × (r ≡ some b)
    unfolding merge_with_partners
    merge_with_partners-Framed h o b t h' r w k e =
        elim (Bool-cases (is_terminal (get_kind (h b)))) [
          | inl f ↦
              let e' = rw (f, merge_with_partners) at e in
              let (n, (run, last)) = >>=-done (merge_terminal s.git (h o) (h b) (h t)) _ _ e' in
              (
                subst (λ g. Agrees h g) (done-heap (write b n h) h' (some b) r last)
                    (write-Agrees b n h k),
                sym (done-result (write b n h) h' (some b) r last),
              )
          | inr f ↦ elim (Bool-cases (is_composite (get_kind (h t)))) [
            | inr g ↦ let e' = rw (f, g, merge_with_partners) at e in absurd cc
            | inl g ↦
                let e' = rw (f, g, merge_with_partners) at e in
                let start = write b (merge_composite s.git (h o) (h b) (h t)) h in
                let (m, (run, last)) =
                  >>=-done (direct_merge_children s merge start o b t) _ _ e' in
                let inside = direct_merge_children-Agrees start o b t m.0 m.1 w run in
                let end = write b (record (m.0 b) { children = m.1 }) m.0 in
                (
                  subst (λ g. Agrees h g) (done-heap end h' (some b) r last)
                      (Agrees-trans h m.0 end
                        (Agrees-trans h start m.0 (write-Agrees b _ h k) inside)
                        (write-Agrees b _ m.0 k)),
                  sym (done-result end h' (some b) r last),
                )
          ]
        ]
