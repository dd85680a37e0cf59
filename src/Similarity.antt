-- ===== src/Similarity.antt =====
-- levenshtein_distance of src/utils/similarity.cpp, for texts of fewer than 2 ^ 31 bytes, whose sizes
-- fit `int`.
use mergebot.Prelude.{ℕ, suc, ◌+◌, Bool, List, [], ◌∷◌, leb, ◌==◌, if◌then◌else◌}
pub mod Scripts
pub mod Least
mod Tests
use mergebot.Bytes.{Bytes}

-- `std::min` of three.
abbrev pub min2 : ℕ → ℕ → ℕ
min2 a b = if leb a b then a else b

abbrev pub min3 : ℕ → ℕ → ℕ → ℕ
min3 a b c = min2 a (min2 b c)

-- `s1[i - 1] != s2[j - 1]` as a number.
abbrev pub differ : ℕ → ℕ → ℕ
differ a b = if a == b then 0 else 1

-- The entries of row `i` behind the first: `left` is the entry before, `diagonal` the one above that,
-- and `above` holds the further entries of the row above.
unfoldable pub fill : ℕ → ℕ → ℕ → List ℕ → Bytes → List ℕ
fill a left diagonal above [] = []
fill a left diagonal [] (b ∷ s2) = []
fill a left diagonal (up ∷ above) (b ∷ s2) =
    let entry = min3 (diagonal + differ a b) (up + 1) (left + 1) in entry ∷ fill a entry up above s2

-- The entries of row 0 behind the entry of `j`.
unfoldable pub first_row : ℕ → Bytes → List ℕ
first_row j [] = []
first_row j (b ∷ s2) = suc j ∷ first_row (suc j) s2

-- The last entry of a row.
unfoldable pub last_entry : ℕ → List ℕ → ℕ
last_entry d [] = d
last_entry d (e ∷ es) = last_entry e es

-- The rows behind row `i`, whose first entry is `i`.
unfoldable pub rows : ℕ → List ℕ → Bytes → Bytes → ℕ
unfolding fill last_entry
rows i row [] s2 = last_entry i row
rows i row (a ∷ s1) s2 = rows (suc i) (fill a (suc i) i row s2) s1 s2

unfoldable pub levenshtein_distance : Bytes → Bytes → ℕ
unfolding rows first_row
levenshtein_distance s1 s2 = rows 0 (first_row 0 s2) s1 s2
