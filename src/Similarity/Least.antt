-- ===== src/Similarity/Least.antt =====
-- The distance is the number of changes of the shortest edit script.
use mergebot.Prelude.{
  ℕ, suc, ◌+◌, ◌≤◌, ◌≡◌, [], ◌∷◌, arith, ◌==◌, Bool-cases, inl, inr, subst, sym, ==_iff, ◌⊎◌,
}
use mergebot.Bytes.{Bytes}
use mergebot.Similarity.{min3, differ, levenshtein_distance}
use mergebot.Similarity.Scripts.{
  read, edit, edit-nil, Script, done, keep, replace, delete, insert, levenshtein_distance-edit,
}

min3-cases : (x y z : ℕ) → (min3 x y z ≡ x) ⊎ ((min3 x y z ≡ y) ⊎ (min3 x y z ≡ z))
min3-cases x y z = ground arith

edit-both : (a b : ℕ) (p q : Bytes) → edit (a ∷ p) (b ∷ q) ≤ edit p q + differ a b
unfolding edit
edit-both a b p q = ground arith

edit-delete : (a : ℕ) (p q : Bytes) → edit (a ∷ p) q ≤ edit p q + 1
unfolding edit
edit-delete a p [] = omega (arith, edit-nil p)
edit-delete a p (b ∷ q) = ground arith

edit-insert : (b : ℕ) (p q : Bytes) → edit p (b ∷ q) ≤ edit p q + 1
unfolding edit
edit-insert b [] q = omega arith
edit-insert b (a ∷ p) q = ground arith

differ_same : (a : ℕ) → differ a a ≡ 0
differ_same a = ground arith

differ_le : (a b : ℕ) → differ a b ≤ 1
differ_le a b = ground arith

Script-least : {p q : Bytes} {n : ℕ} → Script p q n → edit p q ≤ n
unfolding edit
Script-least done = omega arith
Script-least (keep a {p} {q} s) = omega (arith, edit-both a a p q, differ_same a, Script-least s)
Script-least (replace a b {p} {q} s) =
    omega (arith, edit-both a b p q, differ_le a b, Script-least s)
Script-least (delete a {p} {q} s) = omega (arith, edit-delete a p q, Script-least s)
Script-least (insert b {p} {q} s) = omega (arith, edit-insert b p q, Script-least s)

by_both :
    (a b : ℕ) (p q : Bytes) → Script p q (edit p q) → Script (a ∷ p) (b ∷ q) (edit p q + differ a b)
by_both a b p q s = elim (Bool-cases (a == b)) [
  | inl e ↦
      let same : a ≡ b = (==_iff a b).0 e in
      let n : edit p q ≡ edit p q + differ a b = ground arith in
      subst (λ m. Script (a ∷ p) (b ∷ q) m) n
        (subst (λ c. Script (a ∷ p) (c ∷ q) (edit p q)) same (keep a s))
  | inr e ↦
      let n : suc (edit p q) ≡ edit p q + differ a b = ground arith in
      subst (λ m. Script (a ∷ p) (b ∷ q) m) n (replace a b s)
]

edit-Script : (p q : Bytes) → Script p q (edit p q)
unfolding edit
edit-Script [] [] = done
edit-Script [] (b ∷ q) = insert b (edit-Script [] q)
edit-Script (a ∷ p) [] = delete a (subst (λ n. Script p [] n) (edit-nil p) (edit-Script p []))
edit-Script (a ∷ p) (b ∷ q) =
    let x = edit p q + differ a b in
    let y = edit p (b ∷ q) + 1 in
    let z = edit (a ∷ p) q + 1 in
    let to = λ (m : ℕ). λ (e : min3 x y z ≡ m).
      λ (s : Script (a ∷ p) (b ∷ q) m). subst (λ k. Script (a ∷ p) (b ∷ q) k) (sym e) s in
    elim (min3-cases x y z) [
      | inl e ↦ to x e (by_both a b p q (edit-Script p q))
      | inr (inl e) ↦ to y e (more (edit p (b ∷ q)) (delete a (edit-Script p (b ∷ q))))
      | inr (inr e) ↦ to z e (more (edit (a ∷ p) q) (insert b (edit-Script (a ∷ p) q)))
    ]
  where
    more : {p q : Bytes} (n : ℕ) → Script p q (suc n) → Script p q (n + 1)
    more {p} {q} n s = let e : suc n ≡ n + 1 = omega arith in subst (λ k. Script p q k) e s

-- The table gives the least number of single byte changes that turn one text into the other: there
-- is an edit script of the two texts, read from the end, with as many, and none has fewer.
pub levenshtein_distance-least :
    (s1 s2 : Bytes)
    → Script (read s1 []) (read s2 []) (levenshtein_distance s1 s2)
      × ((n : ℕ) → Script (read s1 []) (read s2 []) n → levenshtein_distance s1 s2 ≤ n)
levenshtein_distance-least s1 s2 =
    let e = levenshtein_distance-edit s1 s2 in
    (
      subst (λ n. Script (read s1 []) (read s2 []) n) (sym e)
          (edit-Script (read s1 []) (read s2 [])),
      λ n s. subst (λ m. m ≤ n) (sym e) (Script-least s),
    )
