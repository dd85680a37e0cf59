-- ===== src/Printer/Spaces.antt =====
-- Printing a node changes only spaces of the text that its parts make.
use mergebot.Prelude.{
  ℕ, zero, suc, ◌≡◌, refl, sym, ap, ◌∙◌, true, false, ◌||◌, List, [], ◌∷◌, ◌++◌, ◌==◌,
  if◌then◌else◌, ltb, map, arith, Bool-cases, inl, inr, append_assoc,
}
use mergebot.Bytes.{Bytes, is_empty}
use mergebot.Bytes.Lines.{newline}
use mergebot.Printer.Indent.{
  first_byte, get_lines, with_newlines, first_char_pos, has_mark_in, as_size, space_count, spaces,
  indent_line, ends_line, pop_back, cut_back, indent_code_lines,
}

-- A text without its spaces.
unfoldable pub without_spaces : Bytes → Bytes
without_spaces [] = []
without_spaces (c ∷ s) = let rest = without_spaces s in if c == b' ' then rest else c ∷ rest

pub without_spaces-append :
    (s t : Bytes) → without_spaces (s ++ t) ≡ without_spaces s ++ without_spaces t
unfolding without_spaces
without_spaces-append [] t = refl
without_spaces-append (c ∷ s) t = ground (arith, without_spaces-append s t)

without_spaces-spaces : (n : ℕ) (s : Bytes) → without_spaces (spaces n ++ s) ≡ without_spaces s
unfolding without_spaces
without_spaces-spaces zero s = refl
without_spaces-spaces (suc n) s = without_spaces-spaces n s

without_spaces-indent_line :
    (i c : ℕ) (l : Bytes) → without_spaces (indent_line i c l) ≡ without_spaces l
unfolding indent_line
without_spaces-indent_line i c l = elim (Bool-cases (has_mark_in l)) [
  | inl e ↦ rw (e, indent_line) refl
  | inr e ↦ elim (Bool-cases (ltb (first_char_pos l) (as_size i))) [
    | inl f ↦ rw (e, f, indent_line) (without_spaces-spaces (space_count i (first_char_pos l) c) l)
    | inr f ↦ rw (e, f, indent_line) refl
  ]
]

without_spaces-line :
    (l t : Bytes)
    → without_spaces (l ++ newline ∷ t) ≡ without_spaces l ++ newline ∷ without_spaces t
unfolding without_spaces
without_spaces-line l t = without_spaces-append l (newline ∷ t)

without_spaces-lines :
    (i c : ℕ) (ls : List Bytes)
    → without_spaces (with_newlines (map (indent_line i c) ls)) ≡ without_spaces (with_newlines ls)
unfolding with_newlines
without_spaces-lines i c [] = refl
without_spaces-lines i c (l ∷ ls) =
    without_spaces-line (indent_line i c l) _
    ∙ (ap (λ x. x ++ newline ∷ without_spaces (with_newlines (map (indent_line i c) ls)))
          (without_spaces-indent_line i c l)
        ∙ (ap (λ x. without_spaces l ++ newline ∷ x) (without_spaces-lines i c ls)
            ∙ sym (without_spaces-line l _)))

first_byte_cons :
    (c : ℕ) (ks : List Bytes) → (l : Bytes) × (ls : List Bytes) × (first_byte c ks ≡ l ∷ ls)
first_byte_cons c [] = (c ∷ [], [], refl)
first_byte_cons c (l ∷ ls) = (c ∷ l, ls, refl)

-- A text with bytes has lines.
pub get_lines_cons :
    (c : ℕ) (s : Bytes) → (l : Bytes) × (ls : List Bytes) × (get_lines (c ∷ s) ≡ l ∷ ls)
unfolding get_lines
get_lines_cons c s = elim (Bool-cases (c == newline)) [
  | inl e ↦ rw e ([], get_lines s, refl)
  | inr e ↦ rw e (first_byte_cons c (get_lines s))
]

with_newlines-cons :
    (c : ℕ) (l : Bytes) (ls : List Bytes)
    → with_newlines (if c == newline then [] ∷ l ∷ ls else first_byte c (l ∷ ls))
      ≡ c ∷ with_newlines (l ∷ ls)
unfolding with_newlines
with_newlines-cons c l ls = ground arith

with_newlines-more :
    (c d : ℕ) (s : Bytes)
    → with_newlines (get_lines (c ∷ d ∷ s)) ≡ c ∷ with_newlines (get_lines (d ∷ s))
unfolding get_lines
with_newlines-more c d s =
    let (l, ls, e) = get_lines_cons d s in
    ap (λ x. with_newlines (if c == newline then [] ∷ x else first_byte c x)) e
    ∙ (with_newlines-cons c l ls ∙ ap (λ x. c ∷ with_newlines x) (sym e))

pub with_newlines-get_lines :
    (s : Bytes)
    → with_newlines (get_lines s) ≡ (if is_empty s || ends_line s then s else s ++ newline ∷ [])
unfolding get_lines with_newlines ends_line
with_newlines-get_lines [] = refl
with_newlines-get_lines (c ∷ []) = ground arith
with_newlines-get_lines (c ∷ d ∷ s) =
    with_newlines-more c d s
    ∙ (ap (λ x. c ∷ x) (with_newlines-get_lines (d ∷ s))
        ∙ (elim (Bool-cases (ends_line (d ∷ s))) [ inl e ↦ rw e refl | inr e ↦ rw e refl ]))

pop_back-snoc : (s : Bytes) (c : ℕ) → pop_back (s ++ c ∷ []) ≡ s
unfolding pop_back
pop_back-snoc [] c = refl
pop_back-snoc (d ∷ []) c = refl
pop_back-snoc (d ∷ e ∷ s) c = ap (λ x. d ∷ x) (pop_back-snoc (e ∷ s) c)

pop_back-lines :
    (l : Bytes) (ls : List Bytes) → (b : Bytes) × (with_newlines (l ∷ ls) ≡ b ++ newline ∷ [])
unfolding with_newlines
pop_back-lines l [] = (l, refl)
pop_back-lines l (m ∷ ls) =
    let (b, e) = pop_back-lines m ls in
    (
      l ++ newline ∷ b,
      ap (λ x. l ++ newline ∷ x) e ∙ sym (append_assoc l (newline ∷ b) (newline ∷ [])),
    )

snoc_injective : (s t : Bytes) (c : ℕ) → s ++ c ∷ [] ≡ t ++ c ∷ [] → s ≡ t
snoc_injective s t c e = sym (pop_back-snoc s c) ∙ (ap pop_back e ∙ pop_back-snoc t c)

without_spaces-newline :
    (s : Bytes) → without_spaces (s ++ newline ∷ []) ≡ without_spaces s ++ newline ∷ []
unfolding without_spaces
without_spaces-newline s = without_spaces-append s (newline ∷ [])

snoc_not_empty : (b : Bytes) (c : ℕ) → is_empty (b ++ c ∷ []) ≡ false
snoc_not_empty [] c = refl
snoc_not_empty (x ∷ b) c = refl

pub cut_back-ended : (t : Bytes) → cut_back true t ≡ t
unfolding cut_back
cut_back-ended [] = refl
cut_back-ended (x ∷ t) = refl

pub cut_back-open : (b : Bytes) → cut_back false (b ++ newline ∷ []) ≡ b
unfolding cut_back
cut_back-open b = rw (snoc_not_empty b newline) (pop_back-snoc b newline)

-- Indentation changes only spaces.
pub without_spaces-indent_code_lines :
    (s : Bytes) (i c : ℕ) → without_spaces (indent_code_lines s i c) ≡ without_spaces s
unfolding indent_code_lines
without_spaces-indent_code_lines [] i c = refl
without_spaces-indent_code_lines (x ∷ s) i c =
    let lines = get_lines (x ∷ s) in
    let made = with_newlines (map (indent_line i c) lines) in
    let (l, ls, e) = get_lines_cons x s in
    let (b, f) = pop_back-lines (indent_line i c l) (map (indent_line i c) ls) in
    let shape : made ≡ b ++ newline ∷ [] =
      ap (λ k. with_newlines (map (indent_line i c) k)) e ∙ f in
    let back =
      without_spaces-lines i c lines ∙ ap without_spaces (with_newlines-get_lines (x ∷ s)) in
    elim (Bool-cases (ends_line (x ∷ s)))
      as (λ _. without_spaces (cut_back (ends_line (x ∷ s)) made) ≡ without_spaces (x ∷ s)) [
        | inl g ↦
            ap (λ k. without_spaces (cut_back k made)) g
            ∙ (ap without_spaces (cut_back-ended made)
                ∙ (back
                    ∙ ap (λ k. without_spaces (if k then x ∷ s else (x ∷ s) ++ newline ∷ [])) g))
        | inr g ↦
            ap (λ k. without_spaces (cut_back k made)) g
            ∙ (ap (λ k. without_spaces (cut_back false k)) shape
                ∙ (ap without_spaces (cut_back-open b)
                    ∙ snoc_injective (without_spaces b) (without_spaces (x ∷ s)) newline (
                        sym (without_spaces-newline b)
                        ∙ (ap without_spaces (sym shape)
                            ∙ (back
                                ∙ (ap
                                      (λ k.
                                        without_spaces
                                          (if k then x ∷ s else (x ∷ s) ++ newline ∷ []))
                                      g
                                    ∙ without_spaces-newline (x ∷ s)))))))
      ]
