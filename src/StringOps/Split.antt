-- ===== src/StringOps/Split.antt =====
-- `string_split` and `string_join`.
use mergebot.Prelude.{
  ℕ, suc, Bool, true, false, ◌||◌, Option, none, some, List, [], ◌∷◌, ◌++◌, ◌==◌, if◌then◌else◌,
  take, not, ◌&&◌,
}
use mergebot.Bytes.{Bytes, is_empty}
pub mod Join
pub mod RoundTrip
pub mod Words

abbrev pub is_in : ℕ → Bytes → Bool
is_in c [] = false
is_in c (d ∷ ds) = (c == d) || is_in c ds

abbrev pub emit : Bool → Bytes → List Bytes
emit with_empty piece = if is_empty piece && not with_empty then [] else piece ∷ []

-- `piece` is the text from `first` to the byte in front of the unread ones. The loop also ends where
-- a delimiter is the last byte, so that no empty piece stands behind it.
pub split_from : Bytes → Bool → Bytes → Bytes → List Bytes
split_from delims with_empty piece [] = emit with_empty piece
split_from delims with_empty piece (c ∷ s) = elim (is_in c delims) [
  | true ↦
      emit with_empty piece
      ++ elim (is_empty s) [ true ↦ [] | false ↦ split_from delims with_empty [] s ]
  | false ↦ split_from delims with_empty (piece ++ c ∷ []) s
]

unfoldable pub string_split : Bytes → Bytes → Bool → List Bytes
unfolding split_from
string_split str delims with_empty =
    if is_empty str then [] else split_from delims with_empty [] str

-- `std::copy` to an `ostream_iterator`: the separator follows every element.
pub copy_all : List Bytes → Bytes → Bytes
copy_all [] separator = []
copy_all (x ∷ xs) separator = x ++ (separator ++ copy_all xs separator)

-- The last position of a byte of the set.
pub find_last_of : Bytes → Bytes → Option ℕ
find_last_of [] set = none
find_last_of (c ∷ s) set = elim (find_last_of s set) [
  | some n ↦ some (suc n)
  | none ↦ if is_in c set then some 0 else none
]

-- `concatenated.substr(0, pos)`, where the position was found.
pub cut_at : Bytes → Option ℕ → Bytes
cut_at s none = s
cut_at s (some pos) = take pos s

unfoldable pub string_join : List Bytes → Bytes → Bytes
unfolding copy_all find_last_of cut_at
string_join [] separator = []
string_join (x ∷ xs) separator =
    cut_at (copy_all (x ∷ xs) separator) (find_last_of (copy_all (x ∷ xs) separator) separator)
