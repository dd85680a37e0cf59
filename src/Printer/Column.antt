-- ===== src/Printer/Column.antt =====
-- Where indentation puts the first character of a line.
use mergebot.Prelude.{
  refl, ap, if◌then◌else◌, ℕ, zero, suc, ◌+◌, ◌-◌, ◌^◌, ◌≡◌, ◌<◌, ◌∙◌, ◌++◌, arith, Bool-cases, inl,
  inr, ltb,
}
use mergebot.Bytes.{Bytes}
use mergebot.Printer.Indent.{first_char_pos, has_mark_in, as_size, space_count, spaces, indent_line}

first_char_pos-spaces : (n : ℕ) (s : Bytes) → first_char_pos (spaces n ++ s) ≡ n + first_char_pos s
unfolding first_char_pos
first_char_pos-spaces zero s = omega arith
first_char_pos-spaces (suc n) s = let e = first_char_pos-spaces n s in ground arith

as_size_small : (i : ℕ) → i < 2 ^ 31 → as_size i ≡ i
as_size_small i h = ground arith

space_count_small :
    (i pos c : ℕ) → i < 2 ^ 31 → pos < i → c < 2 ^ 31 → space_count i pos c ≡ i - pos - c
space_count_small i pos c h k l = ground arith

abbrev pub missing : ℕ → ℕ → Bytes → ℕ
missing indent collapse line =
    if has_mark_in line then 0 else indent - first_char_pos line - collapse

indent_line-spaces :
    (indent collapse : ℕ) (line : Bytes)
    → indent < 2 ^ 31
    → collapse < 2 ^ 31
    → indent_line indent collapse line ≡ spaces (missing indent collapse line) ++ line
unfolding indent_line
indent_line-spaces i c line h k = elim (Bool-cases (has_mark_in line)) [
  | inl e ↦ rw (e, indent_line) refl
  | inr e ↦ elim (Bool-cases (ltb (first_char_pos line) i)) [
    | inl f ↦
        rw
          (
            e,
            as_size_small i h,
            f,
            indent_line,
            space_count_small i (first_char_pos line) c h (ground arith) k,
          )
          refl
    | inr f ↦
        let z : i - first_char_pos line - c ≡ 0 = ground arith in
        rw (e, as_size_small i h, f, z, indent_line) refl
  ]
]

-- With a column and a count of collapsed bytes below 2^31: a line without a conflict mark gets spaces
-- in front, as many as its first character lacks to the column less the count, and a line with a
-- conflict mark stays as it is. So the first character moves by that number.
pub indent_line-column :
    (indent collapse : ℕ) (line : Bytes)
    → indent < 2 ^ 31
    → collapse < 2 ^ 31
    → (indent_line indent collapse line ≡ spaces (missing indent collapse line) ++ line)
      × (first_char_pos (indent_line indent collapse line)
          ≡ missing indent collapse line + first_char_pos line)
indent_line-column i c line h k =
    let e = indent_line-spaces i c line h k in
    (e, ap first_char_pos e ∙ first_char_pos-spaces (missing i c line) line)
