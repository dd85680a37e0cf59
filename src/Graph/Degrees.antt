-- ===== src/Graph/Degrees.antt =====
-- The in-degrees that the sort counts down.
use mergebot.Prelude.{
  ℕ, ◌-◌, ◌≡◌, refl, Bool, true, false, ◌&&◌, ◌||◌, [], ◌∷◌, arith, ◌==◌, if◌then◌else◌, sym, subst,
}
use mergebot.Bytes.{Bytes, bytes_eq, bytes_eq_sound}
use mergebot.Graph.{Degrees, decrement}

unfoldable pub has_counter : Bytes → Degrees → Bool
has_counter y [] = false
has_counter y ((x, d) ∷ ds) = bytes_eq y x || has_counter y ds

-- The counter, or 0 where there is none.
unfoldable pub counter : Bytes → Degrees → ℕ
counter y [] = 0
counter y ((x, d) ∷ ds) = if bytes_eq y x then d else counter y ds

-- Two names that agree with a third one agree.
pub same_name : (x y w : Bytes) → bytes_eq x w ≡ true → bytes_eq y w ≡ true → bytes_eq y x ≡ true
same_name x y w e h = subst (λ z. bytes_eq y z ≡ true) (sym (bytes_eq_sound x w e)) h

pub has_counter-decrement :
    (x y : Bytes) (ds : Degrees) → has_counter y (decrement x ds).1 ≡ has_counter y ds
unfolding has_counter decrement
has_counter-decrement x y [] = refl
has_counter-decrement x y ((w, d) ∷ ds) = ground (arith, has_counter-decrement x y ds)

pub counter-same : (x : Bytes) (ds : Degrees) → counter x (decrement x ds).1 ≡ counter x ds - 1
unfolding counter decrement
counter-same x [] = omega arith
counter-same x ((w, d) ∷ ds) = ground (arith, counter-same x ds)

pub counter-other :
    (x y : Bytes) (ds : Degrees)
    → bytes_eq y x ≡ false
    → counter y (decrement x ds).1 ≡ counter y ds
unfolding counter decrement
counter-other x y [] n = refl
counter-other x y ((w, d) ∷ ds) n = ground (arith, counter-other x y ds n, same_name x y w)

pub decrement-hit :
    (x : Bytes) (ds : Degrees) → (decrement x ds).0 ≡ (has_counter x ds && (counter x ds == 1))
unfolding counter has_counter decrement
decrement-hit x [] = refl
decrement-hit x ((w, d) ∷ ds) = ground (arith, decrement-hit x ds)
