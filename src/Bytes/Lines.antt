-- ===== src/Bytes/Lines.antt =====
-- Lines of a text: what precedes the first newline, and what follows it.
use mergebot.Prelude.{
  ℕ, ◌≡◌, refl, List, [], ◌∷◌, ◌++◌, arith, ◌==◌, if◌then◌else◌, Lacks, ◌<◌, length, tail,
  Bool-cases, inl, inr, ◌≢◌,
}

abbrev pub newline : ℕ
newline = b'\n'

-- The bytes before the first newline: `std::find(Pos, End, '\n')` seen from `Pos`.
unfoldable pub line_of : List ℕ → List ℕ
line_of [] = []
line_of (c ∷ s) = if c == newline then [] else c ∷ line_of s

-- The bytes from the first newline on.
unfoldable pub rest_of : List ℕ → List ℕ
rest_of [] = []
rest_of (c ∷ s) = if c == newline then c ∷ s else rest_of s

-- Empty, or the last byte is a newline.
abbrev pub EndsLine : List ℕ → Type 0
EndsLine [] = Unit
EndsLine (c ∷ []) = c ≡ newline
EndsLine (c ∷ d ∷ s) = EndsLine (d ∷ s)

pub line_of-append : (l r : List ℕ) → Lacks newline l → line_of (l ++ newline ∷ r) ≡ l
unfolding line_of
line_of-append [] r h = refl
line_of-append (c ∷ l) r (hc, h) = ground (arith, line_of-append l r h)

pub rest_of-append : (l r : List ℕ) → Lacks newline l → rest_of (l ++ newline ∷ r) ≡ newline ∷ r
unfolding rest_of
rest_of-append [] r h = refl
rest_of-append (c ∷ l) r (hc, h) = ground (arith, rest_of-append l r h)

pub line_of_lacking : (l : List ℕ) → Lacks newline l → line_of l ≡ l
unfolding line_of
line_of_lacking [] h = refl
line_of_lacking (c ∷ l) (hc, h) = ground (arith, line_of_lacking l h)

pub rest_of_lacking : (l : List ℕ) → Lacks newline l → rest_of l ≡ []
unfolding rest_of
rest_of_lacking [] h = refl
rest_of_lacking (c ∷ l) (hc, h) = ground (arith, rest_of_lacking l h)

pub EndsLine-append : (a b : List ℕ) → EndsLine a → EndsLine b → EndsLine (a ++ b)
EndsLine-append [] b ha hb = hb
EndsLine-append (c ∷ []) [] ha hb = ha
EndsLine-append (c ∷ []) (d ∷ b) ha hb = hb
EndsLine-append (c ∷ d ∷ a) b ha hb = EndsLine-append (d ∷ a) b ha hb

pub EndsLine-line : (l : List ℕ) → EndsLine (l ++ newline ∷ [])
EndsLine-line [] = refl
EndsLine-line (c ∷ []) = refl
EndsLine-line (c ∷ d ∷ l) = EndsLine-line (d ∷ l)

-- In whole lines a newline follows the first line, and whole lines follow the newline.
pub rest_of-EndsLine :
    (s : List ℕ)
    → EndsLine s
    → s ≢ []
    → (rest_of s ≡ newline ∷ tail (rest_of s))
      × EndsLine (tail (rest_of s))
      × (length (tail (rest_of s)) < length s)
unfolding rest_of
rest_of-EndsLine [] h ne = absurd (ne refl)
rest_of-EndsLine (c ∷ []) h ne = rw h (refl, tt, omega arith)
rest_of-EndsLine (c ∷ d ∷ s) h ne = elim (Bool-cases (c == newline)) [
  | inl e ↦ rw e (ground arith, h, omega arith)
  | inr e ↦ let (p, q, r) = rest_of-EndsLine (d ∷ s) h (λ q. cc) in rw e (p, q, omega arith)
]
