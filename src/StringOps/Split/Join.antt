-- ===== src/StringOps/Split/Join.antt =====
-- `string_join` puts its separator between the elements.
use mergebot.Prelude.{
  ℕ, ◌≡◌, refl, none, some, List, [], ◌∷◌, ◌++◌, arith, length, ◌∙◌, ap, append_assoc, append-nil,
  take-append_length,
}
use mergebot.Bytes.{Bytes}
use mergebot.StringOps.Split.{copy_all, find_last_of, string_join, cut_at}

abbrev pub intercalate : Bytes → List Bytes → Bytes
intercalate sep [] = []
intercalate sep (x ∷ []) = x
intercalate sep (x ∷ y ∷ xs) = x ++ (sep ++ intercalate sep (y ∷ xs))

find_last_of-append : (s : Bytes) (c : ℕ) → find_last_of (s ++ c ∷ []) (c ∷ []) ≡ some (length s)
unfolding find_last_of
find_last_of-append [] c = ground arith
find_last_of-append (d ∷ s) c = rw (find_last_of-append s c)

find_last_of-nil : (s : Bytes) → find_last_of s [] ≡ none
unfolding find_last_of
find_last_of-nil [] = refl
find_last_of-nil (c ∷ s) = rw (find_last_of-nil s)

copy_all-intercalate :
    (x : Bytes) (xs : List Bytes) (sep : Bytes)
    → copy_all (x ∷ xs) sep ≡ intercalate sep (x ∷ xs) ++ sep
unfolding copy_all
copy_all-intercalate x [] sep = simp append-nil
copy_all-intercalate x (y ∷ xs) sep =
    ap (λ t. x ++ (sep ++ t)) (copy_all-intercalate y xs sep) ∙ simp append_assoc

string_join-cut :
    (x : Bytes) (xs : List Bytes) (sep : Bytes)
    → string_join (x ∷ xs) sep
      ≡ cut_at
          (intercalate sep (x ∷ xs) ++ sep)
          (find_last_of (intercalate sep (x ∷ xs) ++ sep) sep)
string_join-cut x xs sep =
    unfold string_join in ap (λ t. cut_at t (find_last_of t sep)) (copy_all-intercalate x xs sep)

-- With one byte as separator, the elements with that byte between them; with the empty separator,
-- their concatenation.
pub string_join_lem :
    (xs : List Bytes) (c : ℕ)
    → (string_join xs (c ∷ []) ≡ intercalate (c ∷ []) xs) × (string_join xs [] ≡ intercalate [] xs)
unfolding cut_at
string_join_lem [] c = unfold string_join in (refl, refl)
string_join_lem (x ∷ xs) c =
    let all = intercalate (c ∷ []) (x ∷ xs) in
    (
      string_join-cut x xs (c ∷ [])
          ∙ rw (find_last_of-append all c) (take-append_length all (c ∷ [])),
      string_join-cut x xs []
          ∙ rw (find_last_of-nil (intercalate [] (x ∷ xs) ++ []))
              (append-nil (intercalate [] (x ∷ xs))),
    )
