-- ===== src/Bytes/Find.antt =====
-- Where `find` finds a mark that stands at the start of a line.
use mergebot.Prelude.{
  ℕ, ◌≡◌, ◌≢◌, refl, true, false, ◌&&◌, none, some, List, [], ◌∷◌, ◌++◌, arith, length, Lacks, ◌==◌,
  suc, Bool-cases, inl, inr,
}
use mergebot.Bytes.{starts_with, find}
use mergebot.Bytes.Lines.{newline, EndsLine}

pub starts_with-cons :
    (c d : ℕ) (s p : List ℕ) → starts_with (c ∷ s) (d ∷ p) ≡ ((c == d) && starts_with s p)
starts_with-cons c d s p = ground arith

pub starts_with_nil : (s : List ℕ) → starts_with s [] ≡ true
starts_with_nil [] = refl
starts_with_nil (c ∷ s) = ground arith

pub starts_with_self : (p r : List ℕ) → starts_with (p ++ r) p ≡ true
starts_with_self [] r = starts_with_nil r
starts_with_self (c ∷ p) r = ground (arith, starts_with-cons c c (p ++ r) p, starts_with_self p r)

-- A mark without newline that starts inside whole lines ends inside them.
starts_with_lines :
    (a p r : List ℕ)
    → EndsLine a
    → a ≢ []
    → Lacks newline p
    → starts_with (a ++ r) p ≡ true
    → starts_with a p ≡ true
starts_with_lines [] p r ha h lp e = absurd (h refl)
starts_with_lines (c ∷ a) [] r ha h lp e = starts_with_nil (c ∷ a)
starts_with_lines (c ∷ []) (d ∷ p) r ha h (hd, lp) e = ground (arith, starts_with-cons c d r p)
starts_with_lines (c ∷ b ∷ a) (d ∷ p) r ha h (hd, lp) e = ground (
  arith,
  starts_with-cons c d (b ∷ (a ++ r)) p,
  starts_with-cons c d (b ∷ a) p,
  starts_with_lines (b ∷ a) p r ha (λ q. cc) lp,
)

pub find_here : (s p : List ℕ) → starts_with s p ≡ true → find s p ≡ some 0
unfolding find
find_here [] p h = rw h
find_here (c ∷ s) p h = rw h

-- No occurrence in a text means none at its start, and none in what follows.
pub find-none_head : (s p : List ℕ) → find s p ≡ none → starts_with s p ≡ false
unfolding find
find-none_head [] p h = ground arith
find-none_head (c ∷ s) p h = ground arith

pub find-none_tail : (c : ℕ) (s p : List ℕ) → find (c ∷ s) p ≡ none → find s p ≡ none
unfolding find
find-none_tail c s p h = ground arith

pub find-none_cons :
    (c : ℕ) (s p : List ℕ) → starts_with (c ∷ s) p ≡ false → find s p ≡ none → find (c ∷ s) p ≡ none
unfolding find
find-none_cons c s p h k = rw (h, k)

pub find-some_cons :
    (c n : ℕ) (s p : List ℕ)
    → starts_with (c ∷ s) p ≡ false
    → find s p ≡ some n
    → find (c ∷ s) p ≡ some (suc n)
unfolding find
find-some_cons c n s p h k = rw (h, k)

EndsLine-tail : (c : ℕ) (a : List ℕ) → EndsLine (c ∷ a) → EndsLine a
EndsLine-tail c [] h = tt
EndsLine-tail c (d ∷ a) h = h

module _ (p : List ℕ) (lp : Lacks newline p) where
  starts_with_lines_false :
      (c : ℕ) (a r : List ℕ)
      → EndsLine (c ∷ a)
      → find (c ∷ a) p ≡ none
      → starts_with (c ∷ (a ++ r)) p ≡ false
  starts_with_lines_false c a r ha h = elim (Bool-cases (starts_with (c ∷ (a ++ r)) p)) [
    | inl e ↦ cc (find-none_head (c ∷ a) p h, starts_with_lines (c ∷ a) p r ha (λ q. cc) lp e)
    | inr e ↦ e
  ]

  -- The first occurrence of `p` behind whole lines that do not hold it.
  pub find_lines :
      (a r : List ℕ) → EndsLine a → find a p ≡ none → find (a ++ (p ++ r)) p ≡ some (length a)
  find_lines [] r ha h = find_here (p ++ r) p (starts_with_self p r)
  find_lines (c ∷ a) r ha h =
      find-some_cons c (length a) (a ++ (p ++ r)) p (starts_with_lines_false c a (p ++ r) ha h)
        (find_lines a r (EndsLine-tail c a ha) (find-none_tail c a p h))

  -- Whole lines without `p`, followed by a text without `p`, hold no `p`.
  pub find-append_none :
      (a r : List ℕ) → EndsLine a → find a p ≡ none → find r p ≡ none → find (a ++ r) p ≡ none
  find-append_none [] r ha h k = k
  find-append_none (c ∷ a) r ha h k =
      find-none_cons c (a ++ r) p (starts_with_lines_false c a r ha h)
        (find-append_none a r (EndsLine-tail c a ha) (find-none_tail c a p h) k)
