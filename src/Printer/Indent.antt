-- ===== src/Printer/Indent.antt =====
-- `indentCodeLines` of src/core/semantic/pretty_printer.cpp.
use mergebot.Prelude.{
  ℕ, zero, suc, ◌+◌, ◌-◌, ◌%◌, ◌^◌, Bool, false, ◌||◌, List, [], ◌∷◌, ◌++◌, ◌==◌, if◌then◌else◌,
  ltb, map,
}
use mergebot.Bytes.{Bytes, contains, find, is_empty}
use mergebot.Bytes.Lines.{newline}
use mergebot.Conflict.{ours, base, theirs, end, enum_name}

-- The lines that `std::getline` reads.
abbrev pub first_byte : ℕ → List Bytes → List Bytes
first_byte c [] = (c ∷ []) ∷ []
first_byte c (l ∷ ls) = (c ∷ l) ∷ ls

unfoldable pub get_lines : Bytes → List Bytes
get_lines [] = []
get_lines (c ∷ s) = let rest = get_lines s in if c == newline then [] ∷ rest else first_byte c rest

-- The lines with a newline behind each.
unfoldable pub with_newlines : List Bytes → Bytes
with_newlines [] = []
with_newlines (l ∷ ls) = l ++ newline ∷ with_newlines ls

-- `find_first_not_of(" \t")`, or the length.
unfoldable pub first_char_pos : Bytes → ℕ
first_char_pos [] = 0
first_char_pos (c ∷ s) =
    let rest = suc (first_char_pos s) in if (c == b' ') || (c == 9) then rest else 0

unfoldable pub has_mark_in : Bytes → Bool
unfolding contains find
has_mark_in line =
    contains line (enum_name ours)
    || (contains line (enum_name base)
        || (contains line (enum_name theirs) || contains line (enum_name end)))

-- An `int` of 32 bits as a `size_t` of 64.
abbrev pub as_size : ℕ → ℕ
as_size i = if ltb (i % 2 ^ 32) (2 ^ 31) then i % 2 ^ 32 else 2 ^ 64 - 2 ^ 32 + i % 2 ^ 32

-- `spaceCnt`: the difference of sizes is taken modulo 2^64 and read as an `int`, of which the lower
-- 32 bits decide.
abbrev pub space_count : ℕ → ℕ → ℕ → ℕ
space_count indent pos collapse =
    let difference =
      (indent % 2 ^ 32 + (2 ^ 32 - pos % 2 ^ 32) + (2 ^ 32 - collapse % 2 ^ 32)) % 2 ^ 32 in
    if ltb difference (2 ^ 31) then difference else 0

abbrev pub spaces : ℕ → Bytes
spaces zero = []
spaces (suc n) = b' ' ∷ spaces n

unfoldable pub indent_line : ℕ → ℕ → Bytes → Bytes
unfolding first_char_pos has_mark_in
indent_line indent collapse line =
    if has_mark_in line
    then line
    else if ltb (first_char_pos line) (as_size indent)
    then spaces (space_count indent (first_char_pos line) collapse) ++ line
    else line

-- Whether a text that is not empty ends in a newline.
unfoldable pub ends_line : Bytes → Bool
ends_line [] = false
ends_line (c ∷ []) = c == newline
ends_line (c ∷ d ∷ s) = ends_line (d ∷ s)

-- `pop_back`.
unfoldable pub pop_back : Bytes → Bytes
pop_back [] = []
pop_back (c ∷ []) = []
pop_back (c ∷ d ∷ s) = c ∷ pop_back (d ∷ s)

-- The newline behind the last line goes if the source did not end in one.
unfoldable pub cut_back : Bool → Bytes → Bytes
unfolding pop_back
cut_back ended text = if is_empty text || ended then text else pop_back text

unfoldable pub indent_code_lines : Bytes → ℕ → ℕ → Bytes
unfolding get_lines with_newlines indent_line ends_line cut_back
indent_code_lines str indent collapse =
    cut_back (ends_line str) (with_newlines (map (indent_line indent collapse) (get_lines str)))
