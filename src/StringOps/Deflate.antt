-- ===== src/StringOps/Deflate.antt =====
-- `removeCommentsAndSpaces`, byte by byte.
use mergebot.Prelude.{
  ℕ, Bool, true, false, ◌&&◌, ◌||◌, not, List, [], ◌∷◌, ◌++◌, leb, ◌==◌, if◌then◌else◌,
}
use mergebot.Bytes.{Bytes}
use mergebot.Bytes.Lines.{newline}
pub mod Comments

abbrev pub slash : ℕ
slash = b'/'

abbrev pub star : ℕ
star = b'*'

abbrev pub backslash : ℕ
backslash = b'\\'

abbrev pub single_quote : ℕ
single_quote = b'\''

abbrev pub double_quote : ℕ
double_quote = b'"'

-- `std::isspace` in the C locale.
abbrev pub is_space : ℕ → Bool
is_space c = (leb 9 c && leb c 13) || (c == 32)

-- The loop's flags. `skip` is set where the loop makes a second `++i`.
pub record Lexer : Type 0 where
  pub in_single_line_comment : Bool
  pub in_multi_line_comment : Bool
  pub in_string : Bool
  pub string_delimiter : ℕ
  pub skip : Bool

abbrev pub start : Lexer
start = record {
  in_single_line_comment = false;
  in_multi_line_comment = false;
  in_string = false;
  string_delimiter = 0;
  skip = false;
}

-- `next` of the loop: the byte behind, or a zero byte.
abbrev pub next_of : Bytes → ℕ
next_of [] = 0
next_of (c ∷ s) = c

abbrev pub is_quote : ℕ → Bool
is_quote c = c == double_quote || c == single_quote

-- One round at the byte `c`, between `prev` and `next`: the new flags, and what is appended.
step : Lexer → ℕ → ℕ → ℕ → Lexer × Bytes
step l prev c next =
    if l.skip
    then (record l { skip = false }, [])
    else if l.in_string
    then (record l { in_string = not (c == l.string_delimiter && not (prev == backslash)) }, c ∷ [])
    else if is_quote c
    then (record l { in_string = true; string_delimiter = c }, c ∷ [])
    else if l.in_multi_line_comment
    then (if c == star && next == slash
        then (record l { in_multi_line_comment = false; skip = true }, [])
        else (l, []))
    else if l.in_single_line_comment
    then (record l { in_single_line_comment = not (c == newline) }, [])
    else if c == slash && next == slash
    then (record l { in_single_line_comment = true; skip = true }, [])
    else if c == slash && next == star
    then (record l { in_multi_line_comment = true; skip = true }, [])
    else (l, if is_space c then [] else c ∷ [])

loop : Lexer → ℕ → Bytes → Bytes
unfolding step
loop l prev [] = []
loop l prev (c ∷ s) = let (l', out) = step l prev c (next_of s) in out ++ loop l' c s

unfoldable pub remove_comments_and_spaces : Bytes → Bytes
unfolding loop
remove_comments_and_spaces code = loop start 0 code
