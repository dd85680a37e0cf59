-- ===== src/Merger/Order.antt =====
-- Where the merge of children puts the nodes that the other side added.
use mergebot.Prelude.{
  ℕ, ◌≡◌, ◌≢◌, Option, none, some, List, [], ◌∷◌, ◌++◌, ◌==◌, All, arith, true, false, Bool-cases,
  Option-cases, inl, inr, subst, some-injective,
}
use mergebot.Nodes.Defs.{Heap}
use mergebot.Merger.{
  Setting, insert_after, insert_before, place, place_before, place_all, get_neighbors,
}
use mergebot.Merger.Children.{sig_in}

-- The second list is the first with `p` put directly behind the first node with the hash `k`.
pub data PutBehind (sig : ℕ → ℕ) (k p : ℕ) : List ℕ → List ℕ → Type 0 where
  found_behind : (x : ℕ) {xs : List ℕ} → sig x ≡ k → PutBehind sig k p (x ∷ xs) (x ∷ p ∷ xs)
  later_behind :
      (x : ℕ) {xs ys : List ℕ}
      → sig x ≢ k
      → PutBehind sig k p xs ys
      → PutBehind sig k p (x ∷ xs) (x ∷ ys)

-- The second list is the first with `p` put directly before the first node with the hash `k`.
pub data PutBefore (sig : ℕ → ℕ) (k p : ℕ) : List ℕ → List ℕ → Type 0 where
  found_before : (x : ℕ) {xs : List ℕ} → sig x ≡ k → PutBefore sig k p (x ∷ xs) (p ∷ x ∷ xs)
  later_before :
      (x : ℕ) {xs ys : List ℕ}
      → sig x ≢ k
      → PutBefore sig k p xs ys
      → PutBefore sig k p (x ∷ xs) (x ∷ ys)

-- There is no such neighbor, or no node of the list has its hash.
abbrev pub Missed : (ℕ → ℕ) → Option ℕ → List ℕ → Type 0
Missed sig none xs = Unit
Missed sig (some q) xs = All (λ x. sig x ≢ sig q) xs

-- The second list is the first with `p` put in, whose neighbors are the two: behind the one before it,
-- before the one behind it if the first is not in the list, and at the end if neither is.
pub data Placed (sig : ℕ → ℕ) (p : ℕ) : Option ℕ → Option ℕ → List ℕ → List ℕ → Type 0 where
  behind_prev :
      (q : ℕ) (n : Option ℕ) {xs ys : List ℕ}
      → PutBehind sig (sig q) p xs ys
      → Placed sig p (some q) n xs ys
  before_next :
      (o : Option ℕ) (q : ℕ) {xs ys : List ℕ}
      → Missed sig o xs
      → PutBefore sig (sig q) p xs ys
      → Placed sig p o (some q) xs ys
  at_the_end :
      (o n : Option ℕ) (xs : List ℕ)
      → Missed sig o xs
      → Missed sig n xs
      → Placed sig p o n xs (xs ++ p ∷ [])

abbrev pub or_none : Option (Option ℕ × Option ℕ) → Option ℕ × Option ℕ
or_none none = (none, none)
or_none (some n) = n

-- The neighbors of a node below its parent; none, if it has no parent or is no child of it.
abbrev pub neighbors : Setting → Heap → ℕ → Option ℕ × Option ℕ
neighbors s h p = or_none (get_neighbors s.hash h p)

-- The last list is the second with each of the first placed, one after another.
pub data Insertions (s : Setting) (h : Heap) : List ℕ → List ℕ → List ℕ → Type 0 where
  finished : {xs : List ℕ} → Insertions s h [] xs xs
  next :
      {p : ℕ} {ps xs ys zs : List ℕ}
      → Placed (sig_in s h) p (neighbors s h p).0 (neighbors s h p).1 xs ys
      → Insertions s h ps ys zs
      → Insertions s h (p ∷ ps) xs zs

==-≢ : (a b : ℕ) → (a == b) ≡ false → a ≢ b
==-≢ a b f e = ground arith

pub ==-≡ : (a b : ℕ) → (a == b) ≡ true → a ≡ b
==-≡ a b f = ground arith

insert_before-PutBefore :
    (sig : ℕ → ℕ) (h p : ℕ) (xs ys : List ℕ)
    → insert_before sig h p xs ≡ some ys
    → PutBefore sig h p xs ys
unfolding insert_before
insert_before-PutBefore sig h p [] ys e = absurd cc
insert_before-PutBefore sig h p (x ∷ xs) ys e = elim (Bool-cases (sig x == h)) [
  | inl f ↦
      let e' = rw (f, insert_before) at e in
      subst (λ l. PutBefore sig h p (x ∷ xs) l) (some-injective _ _ e')
        (found_before x (==-≡ (sig x) h f))
  | inr f ↦ elim (Option-cases (insert_before sig h p xs)) [
    | inl g ↦ let e' = rw (f, g, insert_before) at e in absurd cc
    | inr (zs, g) ↦
        let e' = rw (f, g, insert_before) at e in
        subst (λ l. PutBefore sig h p (x ∷ xs) l) (some-injective _ _ e')
          (later_before x (==-≢ (sig x) h f) (insert_before-PutBefore sig h p xs zs g))
  ]
]

insert_before-missed :
    (sig : ℕ → ℕ) (h p : ℕ) (xs : List ℕ)
    → insert_before sig h p xs ≡ none
    → All (λ x. sig x ≢ h) xs
unfolding insert_before
insert_before-missed sig h p [] e = tt
insert_before-missed sig h p (x ∷ xs) e = elim (Bool-cases (sig x == h)) [
  | inl f ↦ let e' = rw (f, insert_before) at e in absurd cc
  | inr f ↦ elim (Option-cases (insert_before sig h p xs)) [
    | inl g ↦ (==-≢ (sig x) h f, insert_before-missed sig h p xs g)
    | inr (zs, g) ↦ let e' = rw (f, g, insert_before) at e in absurd cc
  ]
]

insert_after-PutBehind :
    (sig : ℕ → ℕ) (h p : ℕ) (xs ys : List ℕ)
    → insert_after sig h p xs ≡ some ys
    → PutBehind sig h p xs ys
unfolding insert_after
insert_after-PutBehind sig h p [] ys e = absurd cc
insert_after-PutBehind sig h p (x ∷ xs) ys e = elim (Bool-cases (sig x == h)) [
  | inl f ↦
      let e' = rw (f, insert_after) at e in
      subst (λ l. PutBehind sig h p (x ∷ xs) l) (some-injective _ _ e')
        (found_behind x (==-≡ (sig x) h f))
  | inr f ↦ elim (Option-cases (insert_after sig h p xs)) [
    | inl g ↦ let e' = rw (f, g, insert_after) at e in absurd cc
    | inr (zs, g) ↦
        let e' = rw (f, g, insert_after) at e in
        subst (λ l. PutBehind sig h p (x ∷ xs) l) (some-injective _ _ e')
          (later_behind x (==-≢ (sig x) h f) (insert_after-PutBehind sig h p xs zs g))
  ]
]

insert_after-missed :
    (sig : ℕ → ℕ) (h p : ℕ) (xs : List ℕ) → insert_after sig h p xs ≡ none → All (λ x. sig x ≢ h) xs
unfolding insert_after
insert_after-missed sig h p [] e = tt
insert_after-missed sig h p (x ∷ xs) e = elim (Bool-cases (sig x == h)) [
  | inl f ↦ let e' = rw (f, insert_after) at e in absurd cc
  | inr f ↦ elim (Option-cases (insert_after sig h p xs)) [
    | inl g ↦ (==-≢ (sig x) h f, insert_after-missed sig h p xs g)
    | inr (zs, g) ↦ let e' = rw (f, g, insert_after) at e in absurd cc
  ]
]

module _ (s : Setting) (heap : Heap) where
  abbrev sig : ℕ → ℕ
  sig = sig_in s heap

  place_before-Placed :
      (p : ℕ) (o n : Option ℕ) (xs : List ℕ)
      → Missed sig o xs
      → Placed sig p o n xs (place_before s.hash heap p n xs)
  unfolding place_before
  place_before-Placed p o none xs w = at_the_end o none xs w tt
  place_before-Placed p o (some q) xs w = elim (Option-cases (insert_before sig (sig q) p xs)) [
    | inl f ↦
        rw (f, place_before) (at_the_end o (some q) xs w (insert_before-missed sig (sig q) p xs f))
    | inr (ys, f) ↦
        rw (f, place_before) (before_next o q w (insert_before-PutBefore sig (sig q) p xs ys f))
  ]

  place-Placed :
      (p : ℕ) (n : Option (Option ℕ × Option ℕ)) (xs : List ℕ)
      → Placed sig p (or_none n).0 (or_none n).1 xs (place s.hash heap p n xs)
  unfolding place
  place-Placed p none xs = at_the_end none none xs tt tt
  place-Placed p (some (none, n)) xs = place_before-Placed p none n xs tt
  place-Placed p (some (some q, n)) xs = elim (Option-cases (insert_after sig (sig q) p xs)) [
    | inl f ↦
        rw (f, place) (place_before-Placed p (some q) n xs (insert_after-missed sig (sig q) p xs f))
    | inr (ys, f) ↦ rw (f, place) (behind_prev q n (insert_after-PutBehind sig (sig q) p xs ys f))
  ]

  pub place_all-Insertions :
      (ps xs : List ℕ) → Insertions s heap ps xs (place_all s.hash heap ps xs)
  unfolding place_all
  place_all-Insertions [] xs = finished
  place_all-Insertions (p ∷ ps) xs =
      next (place-Placed p (get_neighbors s.hash heap p) xs)
        (place_all-Insertions ps (place s.hash heap p (get_neighbors s.hash heap p) xs))
