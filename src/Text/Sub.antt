-- ===== src/Text/Sub.antt =====
-- What `isSubSequence` decides.
use mergebot.Prelude.{◌≡◌, ◌↔◌, refl, true, false, List, [], ◌∷◌, Bool-cases, inl, inr, subst}
use mergebot.Bytes.{Bytes, bytes_eq, bytes_eq_sound, bytes_eq_refl}
use mergebot.Text.{is_sub_sequence}

-- The second sequence comes from the first one by leaving elements out.
pub data Sub : List Bytes → List Bytes → Type 0 where
  empty : Sub [] []
  take : (x : Bytes) {xs ys : List Bytes} → Sub xs ys → Sub (x ∷ xs) (x ∷ ys)
  skip : (x : Bytes) {xs ys : List Bytes} → Sub xs ys → Sub (x ∷ xs) ys

Sub-nil : (xs : List Bytes) → Sub xs []
Sub-nil [] = empty
Sub-nil (x ∷ xs) = skip x (Sub-nil xs)

Sub-weaken : {xs ys : List Bytes} (y : Bytes) → Sub xs (y ∷ ys) → Sub xs ys
Sub-weaken y (take x s) = skip x s
Sub-weaken y (skip x s) = skip x (Sub-weaken y s)

sound : (xs ys : List Bytes) → is_sub_sequence xs ys ≡ true → Sub xs ys
unfolding is_sub_sequence
sound xs [] h = Sub-nil xs
sound [] (y ∷ ys) h = absurd cc
sound (x ∷ xs) (y ∷ ys) h = elim (Bool-cases (bytes_eq x y)) [
  | inl e ↦
      let inner : is_sub_sequence xs ys ≡ true = rw e at h in
      subst (λ z. Sub (x ∷ xs) (z ∷ ys)) (bytes_eq_sound x y e) (take x (sound xs ys inner))
  | inr e ↦
      let inner : is_sub_sequence xs (y ∷ ys) ≡ true = rw e at h in skip x (sound xs (y ∷ ys) inner)
]

drop_first : (y : Bytes) {x : Bytes} {xs ys : List Bytes} → Sub (x ∷ xs) (y ∷ ys) → Sub xs ys
drop_first y (take x s) = s
drop_first y (skip x s) = Sub-weaken y s

drop_other :
    (y : Bytes) {x : Bytes} {xs ys : List Bytes}
    → bytes_eq x y ≡ false
    → Sub (x ∷ xs) (y ∷ ys)
    → Sub xs (y ∷ ys)
drop_other y e (take x s) = let r = bytes_eq_refl x in absurd cc
drop_other y e (skip x s) = s

complete : (xs ys : List Bytes) → Sub xs ys → is_sub_sequence xs ys ≡ true
unfolding is_sub_sequence
complete xs [] s = refl
complete [] (y ∷ ys) s = elim s [ ]
complete (x ∷ xs) (y ∷ ys) s = elim (Bool-cases (bytes_eq x y)) [
  | inl e ↦ rw e (complete xs ys (drop_first y s))
  | inr e ↦ rw e (complete xs (y ∷ ys) (drop_other y e s))
]

-- The greedy comparison decides exactly whether the second sequence is the first one with elements
-- left out.
pub is_sub_sequence-Sub : (xs ys : List Bytes) → (is_sub_sequence xs ys ≡ true) ↔ Sub xs ys
is_sub_sequence-Sub xs ys = (sound xs ys, complete xs ys)
