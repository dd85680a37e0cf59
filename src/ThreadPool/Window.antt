-- ===== src/ThreadPool/Window.antt =====
-- The slots in use: `count` of them from `head` on, around the end of the queue.
use native.Mathlib.Nat.{mod-eq_of_lt, mod_self}
use mergebot.Prelude.{
  ℕ, zero, suc, ◌+◌, ◌-◌, ◌%◌, ◌≡◌, ◌≢◌, ◌<◌, ◌≤◌, refl, Option, List, [], ◌∷◌, ◌++◌, arith, length,
  ap, ltb, ◌==◌, if◌then◌else◌,
}
use mergebot.ThreadPool.{slot, set_slot, empty_slots}

-- The index behind `i`.
abbrev pub wrap : ℕ → ℕ → ℕ
wrap size i = if suc i == size then 0 else suc i

pub mod-wrap : (size i : ℕ) → i < size → (i + 1) % size ≡ wrap size i
mod-wrap size i h = ground (arith, mod_self size, mod-eq_of_lt {n = suc i} {m = size})

abbrev pub advance : ℕ → ℕ → ℕ → ℕ
advance size zero h = h
advance size (suc n) h = advance size n (wrap size h)

pub wrap-lt : (size i : ℕ) → i < size → wrap size i < size
wrap-lt size i h = ground arith

-- Where `n` steps lead.
pub advance_lem :
    (size n h : ℕ)
    → h < size
    → n ≤ size
    → advance size n h ≡ (if ltb (h + n) size then h + n else h + n - size)
advance_lem size zero h hh hn = ground arith
advance_lem size (suc n) h hh hn =
    ground (arith, advance_lem size n (wrap size h) (wrap-lt size h hh) (omega arith))

unfoldable pub window : {A : Type 0} → ℕ → ℕ → ℕ → List (Option A) → List (Option A)
window size zero h q = []
window size (suc n) h q = slot q h ∷ window size n (wrap size h) q

pub advance-suc : (size n h : ℕ) → advance size (suc n) h ≡ wrap size (advance size n h)
advance-suc size zero h = refl
advance-suc size (suc n) h = advance-suc size n (wrap size h)

pub window-snoc :
    {A : Type 0} (size n h : ℕ) (q : List (Option A))
    → window size (suc n) h q ≡ window size n h q ++ slot q (advance size n h) ∷ []
unfolding window
window-snoc size zero h q = refl
window-snoc size (suc n) h q = ap (λ l. slot q h ∷ l) (window-snoc size n (wrap size h) q)

pub slot_set :
    {A : Type 0} (q : List (Option A)) (i : ℕ) (y : Option A)
    → i < length q
    → slot (set_slot q i y) i ≡ y
unfolding slot set_slot
slot_set [] i y h = elim h [ ]
slot_set (x ∷ q) zero y h = refl
slot_set (x ∷ q) (suc i) y h = slot_set q i y (omega arith)

pub slot_other :
    {A : Type 0} (q : List (Option A)) (i j : ℕ) (y : Option A)
    → j ≢ i
    → slot (set_slot q i y) j ≡ slot q j
unfolding slot set_slot
slot_other [] i j y h = refl
slot_other (x ∷ q) zero zero y h = absurd (h refl)
slot_other (x ∷ q) zero (suc j) y h = refl
slot_other (x ∷ q) (suc i) zero y h = refl
slot_other (x ∷ q) (suc i) (suc j) y h = slot_other q i j y (omega arith)

pub length-set_slot :
    {A : Type 0} (q : List (Option A)) (i : ℕ) (y : Option A) → length (set_slot q i y) ≡ length q
unfolding set_slot
length-set_slot [] i y = refl
length-set_slot (x ∷ q) zero y = refl
length-set_slot (x ∷ q) (suc i) y = omega (arith, length-set_slot q i y)

pub length-empty_slots : (A : Type 0) (n : ℕ) → length (empty_slots {A = A} n) ≡ n
unfolding empty_slots
length-empty_slots A zero = refl
length-empty_slots A (suc n) = omega (arith, length-empty_slots A n)

-- A slot that the window does not reach can be set.
pub window-set_slot :
    {A : Type 0} (size n h i : ℕ) (q : List (Option A)) (y : Option A)
    → ((k : ℕ) → k < n → advance size k h ≢ i)
    → window size n h (set_slot q i y) ≡ window size n h q
unfolding window
window-set_slot size zero h i q y d = refl
window-set_slot size (suc n) h i q y d = rw (slot_other q i h y (d 0 (omega arith))) (
    ap (λ l. slot q h ∷ l)
      (window-set_slot size n (wrap size h) i q y (λ k lt. d (suc k) (omega arith))))
