-- ===== src/StringOps/Macro/Fuel.antt =====
-- The fuel of the replacement loop is enough.
use mergebot.Prelude.{
  ℕ, zero, suc, ◌+◌, ◌-◌, ◌≡◌, ◌≢◌, ◌<◌, refl, false, inl, inr, none, some, Option-cases, Option,
  sym, ◌∙◌, [], ◌∷◌, arith, length, drop,
}
use mergebot.Bytes.{Bytes, find, starts_with}
use mergebot.StringOps.Macro.{replace_from, last_of_text, first_of_text, replace_all}

length-drop : (n : ℕ) (s : Bytes) → length (drop n s) ≡ length s - n
length-drop zero s = omega arith
length-drop (suc n) [] = omega arith
length-drop (suc n) (c ∷ s) = omega (arith, length-drop n s)

length-pos : (m : Bytes) → m ≢ [] → 0 < length m
length-pos [] h = absurd (h refl)
length-pos (c ∷ m) h = omega arith

starts_with_empty : (m : Bytes) → m ≢ [] → starts_with [] m ≡ false
starts_with_empty [] h = absurd (h refl)
starts_with_empty (c ∷ m) h = ground arith

-- A text that is not empty is found in front of some byte only.
find-lt-length : (s m : Bytes) (n : ℕ) → m ≢ [] → find s m ≡ some n → n < length s
unfolding find
find-lt-length [] m n h e = ground (arith, starts_with_empty m h)
find-lt-length (c ∷ s) m n h e = elim (Option-cases (find s m)) [
  | inl q ↦ ground arith
  | inr (k, q) ↦ ground (arith, find-lt-length s m k h q)
]

replace_none :
    (f : ℕ) (macro expansion : Bytes) (prev : Option ℕ) (rest : Bytes)
    → find rest macro ≡ none
    → replace_from f macro expansion prev rest ≡ rest
unfolding replace_from
replace_none zero macro expansion prev rest e = refl
replace_none (suc f) macro expansion prev rest e = rw (e, replace_from)

replace_more :
    (f g n : ℕ) (macro expansion : Bytes) (prev : Option ℕ) (rest : Bytes)
    → find rest macro ≡ some n
    → ((p : Option ℕ) (r : Bytes)
        → length r < length rest
        → replace_from f macro expansion p r ≡ replace_from g macro expansion p r)
    → macro ≢ []
    → replace_from (suc f) macro expansion prev rest
      ≡ replace_from (suc g) macro expansion prev rest
unfolding replace_from
replace_more f g n macro expansion prev rest e ih ne =
    let hit = drop n rest in
    let lt = find-lt-length rest macro n ne e in
    let shorter : length (drop (length macro) hit) < length rest =
      omega (arith, length-drop (length macro) hit, length-drop n rest, length-pos macro ne) in
    let next : length (drop 1 hit) < length rest =
      omega (arith, length-drop 1 hit, length-drop n rest) in
    rw (
      e,
      replace_from,
      ih (last_of_text none expansion) (drop (length macro) hit) shorter,
      ih (first_of_text hit) (drop 1 hit) next,
    )

replace_enough :
    (f g : ℕ) (macro expansion : Bytes) (prev : Option ℕ) (rest : Bytes)
    → macro ≢ []
    → length rest < f
    → length rest < g
    → replace_from f macro expansion prev rest ≡ replace_from g macro expansion prev rest
replace_enough zero g macro expansion prev rest ne hf hg = elim hf [ ]
replace_enough (suc f) zero macro expansion prev rest ne hf hg = elim hg [ ]
replace_enough (suc f) (suc g) macro expansion prev rest ne hf hg =
    elim (Option-cases (find rest macro)) [
      | inl e ↦
          replace_none (suc f) macro expansion prev rest e
          ∙ sym (replace_none (suc g) macro expansion prev rest e)
      | inr (n, e) ↦
          replace_more f g n macro expansion prev rest e
            (λ p r lt. replace_enough f g macro expansion p r ne (omega arith) (omega arith)) ne
    ]

-- The replacement of one macro has run to its end: more rounds would change nothing.
pub replace_all_complete :
    (extra : ℕ) (macro expansion text : Bytes)
    → macro ≢ []
    → replace_from (suc (length text) + extra) macro expansion none text
      ≡ replace_all macro expansion text
unfolding replace_all
replace_all_complete extra macro expansion text ne =
    replace_enough (suc (length text) + extra) (suc (length text)) macro expansion none text ne
      (omega arith) (omega arith)
