-- ===== src/Sources/Relative.antt =====
-- The path of a source relative to the directory of its side.
use mergebot.Prelude.{
  ◌+◌, ◌≡◌, refl, ◌∙◌, ap, subst, sym, false, none, some, [], ◌∷◌, ◌++◌, arith, ltb, length, drop,
  length-append,
}
use mergebot.Bytes.{Bytes, codes, starts_with}
use mergebot.Bytes.Find.{starts_with_self, starts_with-cons}
use mergebot.Sources.{behind_side, without_dot, relative_source}

behind_side_other : (side p : Bytes) → starts_with p side ≡ false → behind_side side p ≡ some p
unfolding behind_side
behind_side_other side p e = rw (e, behind_side) refl

behind_side_same :
    (side p : Bytes)
    → behind_side side (side ++ b'/' ∷ p) ≡ some (drop (length side + 1) (side ++ b'/' ∷ p))
unfolding behind_side
behind_side_same side p =
    let e : ltb (length (side ++ b'/' ∷ p)) (length side + 1) ≡ false =
      ground (arith, length-append side (b'/' ∷ p)) in
    rw (starts_with_self side (b'/' ∷ p), e, behind_side) refl

without_dot_other :
    (x : Bytes)
    → starts_with x (codes "./") ≡ false
    → starts_with x (codes ".\\") ≡ false
    → without_dot x ≡ x
without_dot_other x e f = rw (e, f) refl

without_dot_ours : (p : Bytes) → without_dot (codes "ours/" ++ p) ≡ codes "ours/" ++ p
without_dot_ours p =
    let rest = codes "urs/" ++ p in
    without_dot_other (codes "ours/" ++ p) (starts_with-cons b'o' b'.' rest (b'/' ∷ []))
      (starts_with-cons b'o' b'.' rest (b'\\' ∷ []))

-- A source of our side whose path there does not begin with "base" or "theirs" is named by that path.
pub relative_source-ours :
    (p : Bytes)
    → starts_with p (codes "base") ≡ false
    → starts_with p (codes "theirs") ≡ false
    → relative_source (codes "ours/" ++ p) ≡ some p
unfolding relative_source
relative_source-ours p e f =
    subst
      (λ m.
        (elim m [
          | none ↦ none
          | some x ↦ elim (behind_side (codes "base") x) [
            | none ↦ none
            | some y ↦ behind_side (codes "theirs") y
          ]
        ])
        ≡ some p)
      (sym
        (ap (behind_side (codes "ours")) (without_dot_ours p) ∙ behind_side_same (codes "ours") p))
      (subst (λ m. (elim m [ none ↦ none | some y ↦ behind_side (codes "theirs") y ]) ≡ some p)
        (sym (behind_side_other (codes "base") p e)) (behind_side_other (codes "theirs") p f))
