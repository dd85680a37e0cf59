-- ===== src/Merger/News.antt =====
-- Which nodes the other side alone added below a base node: filterAddedNodes and removeDuplicates
-- against a test of their own.
use mergebot.Prelude.{
  ℕ, ◌≡◌, refl, Bool, true, false, ◌&&◌, ◌||◌, not, none, some, List, [], ◌∷◌, ◌==◌, arith,
  Bool-cases, Option-cases, inl, inr, ◌∙◌, sym, ap,
}
use mergebot.Nodes.Defs.{Heap}
use mergebot.Matching.{TwoWayMatching, left_at}
use mergebot.Merger.{
  Setting, filter_added_nodes, remove_duplicates, without_signature, with_parent, sort_by_id,
  insert_by_id, all_nodes,
}
use mergebot.Merger.Children.{sig_in}
use mergebot.Merger.Order.{==-≡}

abbrev pub any : (ℕ → Bool) → List ℕ → Bool
any f [] = false
any f (x ∷ xs) = f x || any f xs

-- Whether the parent of the node `q` has the hash of `t`.
abbrev pub child_of : Setting → Heap → ℕ → ℕ → Bool
child_of s h t q = elim (h q).parent [ none ↦ false | some r ↦ sig_in s h r == sig_in s h t ]

-- Whether some node that the matching calls added is a child of the partner of the base node, and
-- satisfies the test.
abbrev pub added_below : Setting → TwoWayMatching → Heap → ℕ → (ℕ → Bool) → Bool
added_below s m h b f = elim (left_at (sig_in s h b) m.one_one_matching) [
  | none ↦ false
  | some t ↦ any (λ q. child_of s h t q && f q) (all_nodes m.possibly_added)
]

-- Whether the other side added the node below the base node, and our side no node with its hash.
abbrev pub is_news : Setting → TwoWayMatching → TwoWayMatching → Heap → ℕ → ℕ → Bool
is_news s own other h b p =
    added_below s other h b (λ q. q == p)
    && not (added_below s own h b (λ q. sig_in s h q == sig_in s h p))

and_true : (a : Bool) → a && true ≡ a
and_true true = refl
and_true false = refl

and_nor : (a b c : Bool) → (a && not b) && not c ≡ a && not (b || c)
and_nor false b c = refl
and_nor true true c = refl
and_nor true false c = refl

module _ (s : Setting) (h : Heap) where
  any-insert_by_id :
      (f : ℕ → Bool) (p : ℕ) (xs : List ℕ) → any f (insert_by_id h p xs) ≡ f p || any f xs
  unfolding insert_by_id
  any-insert_by_id f p [] = refl
  any-insert_by_id f p (x ∷ xs) = ground (arith, any-insert_by_id f p xs)

  any-sort_by_id : (f : ℕ → Bool) (xs : List ℕ) → any f (sort_by_id h xs) ≡ any f xs
  unfolding sort_by_id
  any-sort_by_id f [] = refl
  any-sort_by_id f (x ∷ xs) =
      any-insert_by_id f x (sort_by_id h xs) ∙ ap (λ b. f x || b) (any-sort_by_id f xs)

  any-with_parent :
      (f : ℕ → Bool) (t : ℕ) (xs : List ℕ)
      → any f (with_parent s.hash h t xs) ≡ any (λ q. child_of s h t q && f q) xs
  unfolding with_parent
  any-with_parent f t [] = refl
  any-with_parent f t (x ∷ xs) = elim (Option-cases (h x).parent) [
    | inl e ↦ rw (e, with_parent, child_of) (any-with_parent f t xs)
    | inr (r, e) ↦ elim (Bool-cases (sig_in s h r == sig_in s h t)) [
      | inl g ↦ rw (e, g, with_parent, child_of) (ap (λ b. f x || b) (any-with_parent f t xs))
      | inr g ↦ rw (e, g, with_parent, child_of) (any-with_parent f t xs)
    ]
  ]

  any-filter_added_nodes :
      (f : ℕ → Bool) (m : TwoWayMatching) (b : ℕ)
      → any f (filter_added_nodes s.hash h b m) ≡ added_below s m h b f
  unfolding filter_added_nodes
  any-filter_added_nodes f m b = elim (Option-cases (left_at (sig_in s h b) m.one_one_matching)) [
    | inl e ↦ rw (e, filter_added_nodes, added_below) refl
    | inr (t, e) ↦
        rw (e, filter_added_nodes, added_below)
          (any-sort_by_id f (with_parent s.hash h t (all_nodes m.possibly_added))
            ∙ any-with_parent f t (all_nodes m.possibly_added))
  ]

  any-without_signature :
      (k p : ℕ) (xs : List ℕ)
      → any (λ q. q == p) (without_signature s.hash h k xs)
        ≡ any (λ q. q == p) xs && not (k == sig_in s h p)
  unfolding without_signature
  any-without_signature k p [] = refl
  any-without_signature k p (x ∷ xs) = elim (Bool-cases (x == p)) [
    | inl e ↦
        let same : sig_in s h x ≡ sig_in s h p = ap (sig_in s h) (==-≡ x p e) in
        ground (arith, any-without_signature k p xs)
    | inr e ↦ ground (arith, any-without_signature k p xs)
  ]

  any-remove_duplicates :
      (p : ℕ) (xs ys : List ℕ)
      → any (λ q. q == p) (remove_duplicates s.hash h xs ys)
        ≡ any (λ q. q == p) xs && not (any (λ q. sig_in s h q == sig_in s h p) ys)
  unfolding remove_duplicates
  any-remove_duplicates p xs [] = sym (and_true _)
  any-remove_duplicates p xs (y ∷ ys) =
      any-remove_duplicates p (without_signature s.hash h (sig_in s h y) xs) ys
      ∙ ap (λ a. a && not (any (λ q. sig_in s h q == sig_in s h p) ys))
          (any-without_signature (sig_in s h y) p xs)
      ∙ and_nor (any (λ q. q == p) xs) (sig_in s h y == sig_in s h p) _

  pub any-news :
      (own other : TwoWayMatching) (b p : ℕ)
      → any
          (λ q. q == p)
          (remove_duplicates s.hash h
            (filter_added_nodes s.hash h b other)
            (filter_added_nodes s.hash h b own))
        ≡ is_news s own other h b p
  any-news own other b p =
      any-remove_duplicates p (filter_added_nodes s.hash h b other)
        (filter_added_nodes s.hash h b own)
      ∙ ap
          (λ c.
            c && not (any (λ q. sig_in s h q == sig_in s h p) (filter_added_nodes s.hash h b own)))
          (any-filter_added_nodes (λ q. q == p) other b)
      ∙ ap (λ c. added_below s other h b (λ q. q == p) && not c)
          (any-filter_added_nodes (λ q. sig_in s h q == sig_in s h p) own b)
