-- ===== src/Semantic/Union.antt =====
-- The elements of the union that `mergeStrVecByUnion` builds.
use mergebot.Prelude.{
  ℕ, zero, suc, ◌≤◌, ◌≡◌, refl, true, false, ◌||◌, some, List, [], ◌∷◌, ◌++◌, arith, ltb, length,
  take, drop, Option-cases, inl, inr, length-append,
}
use mergebot.Bytes.{Bytes}
use mergebot.Semantic.{seen_in, fence, insert_at, flush}

pub seen_in-append :
    (z : Bytes) (xs ys : List Bytes) → seen_in z (xs ++ ys) ≡ (seen_in z xs || seen_in z ys)
unfolding seen_in
seen_in-append z [] ys = refl
seen_in-append z (x ∷ xs) ys = ground (arith, seen_in-append z xs ys)

seen_in-take :
    (z : Bytes) (n : ℕ) (xs : List Bytes)
    → (seen_in z (take n xs) || seen_in z (drop n xs)) ≡ seen_in z xs
unfolding seen_in
seen_in-take z zero xs = refl
seen_in-take z (suc n) [] = refl
seen_in-take z (suc n) (x ∷ xs) = ground (arith, seen_in-take z n xs)

-- The last position of an element of the list lies inside the list, and there is one.
pub fence-bound : (x : Bytes) (ys : List Bytes) (i : ℕ) → fence x ys ≡ some i → suc i ≤ length ys
unfolding fence
fence-bound x [] i e = ground arith
fence-bound x (y ∷ ys) i e = elim (Option-cases (fence x ys)) [
  | inl n ↦ ground arith
  | inr (j, n) ↦ let b = fence-bound x ys j n in ground arith
]

pub fence-seen : (x : Bytes) (ys : List Bytes) (i : ℕ) → fence x ys ≡ some i → seen_in x ys ≡ true
unfolding fence seen_in
fence-seen x [] i e = ground arith
fence-seen x (y ∷ ys) i e = elim (Option-cases (fence x ys)) [
  | inl n ↦ ground arith
  | inr (j, n) ↦ let b = fence-seen x ys j n in ground arith
]

length-take-drop : (n : ℕ) (xs : List Bytes) → length (take n xs ++ drop n xs) ≡ length xs
length-take-drop zero xs = refl
length-take-drop (suc n) [] = refl
length-take-drop (suc n) (x ∷ xs) = omega (arith, length-take-drop n xs)

-- What the code relies on at an insertion: the position is inside `Ret`, which holds the first list.
pub record Ready (fences ret : List Bytes) (pos : ℕ) : Type 0 where
  pub within : pos ≤ length ret
  pub longer : length fences ≤ length ret
  pub kept : (z : Bytes) → seen_in z fences ≡ true → seen_in z ret ≡ true

-- The new `Ret` holds what the old one and `TmpList` hold, and is not shorter.
pub record Inserted (tmp ret r : List Bytes) : Type 0 where
  pub grown : length ret ≤ length r
  pub same : (z : Bytes) → seen_in z r ≡ (seen_in z ret || seen_in z tmp)

insert_at-same :
    (z : Bytes) (pos : ℕ) (tmp ret : List Bytes)
    → seen_in z (take pos ret ++ (tmp ++ drop pos ret)) ≡ (seen_in z ret || seen_in z tmp)
insert_at-same z pos tmp ret =
    let a = seen_in-append z (take pos ret) (tmp ++ drop pos ret) in
    let b = seen_in-append z tmp (drop pos ret) in let c = seen_in-take z pos ret in ground arith

insert_at-grown :
    (pos : ℕ) (tmp ret : List Bytes) → length ret ≤ length (take pos ret ++ (tmp ++ drop pos ret))
insert_at-grown pos tmp ret = omega (
  arith,
  length-append (take pos ret) (tmp ++ drop pos ret),
  length-append tmp (drop pos ret),
  length-append (take pos ret) (drop pos ret),
  length-take-drop pos ret,
)

insert_at_lem :
    (pos : ℕ) (tmp ret : List Bytes)
    → pos ≤ length ret
    → (r : List Bytes) × ((insert_at pos tmp ret ≡ some r) × Inserted tmp ret r)
unfolding insert_at
insert_at_lem pos tmp ret h =
    let e : ltb (length ret) pos ≡ false = ground arith in
    let all : Inserted tmp ret (take pos ret ++ (tmp ++ drop pos ret)) = record {
      grown = insert_at-grown pos tmp ret;
      same = λ z. insert_at-same z pos tmp ret;
    } in
    (take pos ret ++ (tmp ++ drop pos ret), (rw e refl, all))

nothing-Inserted : (ret : List Bytes) → Inserted [] ret ret
unfolding seen_in
nothing-Inserted ret = record { grown = omega arith; same = λ z. ground arith }

pub flush_lem :
    (pos : ℕ) (tmp ret : List Bytes)
    → pos ≤ length ret
    → (r : List Bytes) × ((flush pos tmp ret ≡ some r) × Inserted tmp ret r)
unfolding flush
flush_lem pos [] ret h = (ret, (refl, nothing-Inserted ret))
flush_lem pos (x ∷ tmp) ret h = insert_at_lem pos (x ∷ tmp) ret h
