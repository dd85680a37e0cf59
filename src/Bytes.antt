-- ===== src/Bytes.antt =====
-- Byte strings: what the code uses of `std::string` and `std::string_view`, and the helpers
-- `starts_with` and `ends_with` of include/mergebot/utils/stringop.h.
use Prim.Native.Char.{code}
use Prim.Native.String.{String}
use mergebot.Prelude.{
  ℕ, suc, ◌-◌, ◌≡◌, refl, ◌↔◌, Bool, true, false, ◌&&◌, Option, none, some, List, [], ◌∷◌, ◌++◌,
  arith, ltb, ◌==◌, if◌then◌else◌, length, take, drop, ◌⊎◌, inl, inr, ap, ==_refl,
}
use mathlib.Core.Option
pub mod Find
pub mod Lines

abbrev pub Bytes : Type 0
Bytes = List ℕ

-- The code points of a literal; these are its bytes when the text is ASCII.
abbrev pub codes : String → Bytes
codes String.[] = []
codes (String.◌∷◌ c s) = code c ∷ codes s

-- `operator==`.
abbrev pub bytes_eq : Bytes → Bytes → Bool
bytes_eq [] [] = true
bytes_eq [] (y ∷ ys) = false
bytes_eq (x ∷ xs) [] = false
bytes_eq (x ∷ xs) (y ∷ ys) = (x == y) && bytes_eq xs ys

abbrev pub is_empty {ℓ} : {A : Type ℓ} → List A → Bool
is_empty [] = true
is_empty (x ∷ xs) = false

-- `str.compare(0, n, prefix) == 0` under the test of the two lengths.
abbrev pub starts_with : Bytes → Bytes → Bool
starts_with s p = if ltb (length s) (length p) then false else bytes_eq (take (length p) s) p

abbrev pub ends_with : Bytes → Bytes → Bool
ends_with s p =
    if ltb (length s) (length p)
    then false
    else bytes_eq (take (length p) (drop (length s - length p) s)) p

-- `s.find(t)`: the first position at which `t` occurs, `npos` being `none`.
unfoldable pub find : Bytes → Bytes → Option ℕ
find [] t = if starts_with [] t then some 0 else none
find (c ∷ s) t = if starts_with (c ∷ s) t then some 0 else Option.map suc (find s t)

unfoldable pub contains : Bytes → Bytes → Bool
contains s t = elim (find s t) [ none ↦ false | some _ ↦ true ]

pub bytes_eq_refl : (s : Bytes) → bytes_eq s s ≡ true
bytes_eq_refl [] = refl
bytes_eq_refl (x ∷ s) = ground (arith, bytes_eq_refl s)

pub bytes_eq_sound : (s t : Bytes) → bytes_eq s t ≡ true → s ≡ t
bytes_eq_sound [] [] h = refl
bytes_eq_sound [] (y ∷ t) h = ground arith
bytes_eq_sound (x ∷ s) [] h = ground arith
bytes_eq_sound (x ∷ s) (y ∷ t) h = ground (arith, bytes_eq_sound s t)
