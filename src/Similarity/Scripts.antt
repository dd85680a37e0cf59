-- ===== src/Similarity/Scripts.antt =====
-- The table of the distance, and the edit scripts that it measures.
use mergebot.Prelude.{ℕ, suc, ◌+◌, ◌≡◌, refl, List, [], ◌∷◌, length, ap, ◌∙◌, subst}
use mergebot.Bytes.{Bytes}
use mergebot.Similarity.{min3, differ, fill, first_row, last_entry, rows, levenshtein_distance}

-- The bytes read so far, the last one first.
abbrev pub read : Bytes → Bytes → Bytes
read [] p = p
read (a ∷ s) p = read s (a ∷ p)

-- The entry of two prefixes, each with its last byte first.
unfoldable pub edit : Bytes → Bytes → ℕ
edit [] q = length q
edit (a ∷ p) [] = suc (length p)
edit (a ∷ p) (b ∷ q) = min3 (edit p q + differ a b) (edit p (b ∷ q) + 1) (edit (a ∷ p) q + 1)

after : Bytes → Bytes → Bytes → List ℕ
unfolding edit
after p q [] = []
after p q (b ∷ s) = edit p (b ∷ q) ∷ after p (b ∷ q) s

fill-after :
    (a : ℕ) (p q s : Bytes) → fill a (edit (a ∷ p) q) (edit p q) (after p q s) s ≡ after (a ∷ p) q s
unfolding fill after edit
fill-after a p q [] = refl
fill-after a p q (b ∷ s) = ap (λ l. edit (a ∷ p) (b ∷ q) ∷ l) (fill-after a p (b ∷ q) s)

first_row-after : (q s : Bytes) → first_row (length q) s ≡ after [] q s
unfolding first_row after edit
first_row-after q [] = refl
first_row-after q (b ∷ s) = ap (λ l. suc (length q) ∷ l) (first_row-after (b ∷ q) s)

last_entry-after : (p q s : Bytes) → last_entry (edit p q) (after p q s) ≡ edit p (read s q)
unfolding last_entry after edit
last_entry-after p q [] = refl
last_entry-after p q (b ∷ s) = last_entry-after p (b ∷ q) s

pub edit-nil : (p : Bytes) → edit p [] ≡ length p
unfolding edit
edit-nil [] = refl
edit-nil (a ∷ p) = refl

rows-after :
    (p s1 s2 : Bytes) → rows (length p) (after p [] s2) s1 s2 ≡ edit (read s1 p) (read s2 [])
unfolding rows edit
rows-after p [] s2 =
    subst (λ n. last_entry n (after p [] s2) ≡ edit p (read s2 [])) (edit-nil p)
      (last_entry-after p [] s2)
rows-after p (a ∷ s1) s2 =
    let next : fill a (suc (length p)) (length p) (after p [] s2) s2 ≡ after (a ∷ p) [] s2 =
      subst (λ n. fill a (suc (length p)) n (after p [] s2) s2 ≡ after (a ∷ p) [] s2) (edit-nil p)
        (fill-after a p [] s2) in
    ap (λ r. rows (suc (length p)) r s1 s2) next ∙ rows-after (a ∷ p) s1 s2

pub levenshtein_distance-edit :
    (s1 s2 : Bytes) → levenshtein_distance s1 s2 ≡ edit (read s1 []) (read s2 [])
unfolding levenshtein_distance
levenshtein_distance-edit s1 s2 =
    ap (λ r. rows 0 r s1 s2) (first_row-after [] s2) ∙ rows-after [] s1 s2

-- The ways to turn one text into another with `n` changes of a byte, both read from the end: a byte
-- is kept, replaced, taken away or put in.
pub data Script : Bytes → Bytes → ℕ → Type 0 where
  done : Script [] [] 0
  keep : (a : ℕ) {p q : Bytes} {n : ℕ} → Script p q n → Script (a ∷ p) (a ∷ q) n
  replace : (a b : ℕ) {p q : Bytes} {n : ℕ} → Script p q n → Script (a ∷ p) (b ∷ q) (suc n)
  delete : (a : ℕ) {p q : Bytes} {n : ℕ} → Script p q n → Script (a ∷ p) q (suc n)
  insert : (b : ℕ) {p q : Bytes} {n : ℕ} → Script p q n → Script p (b ∷ q) (suc n)
