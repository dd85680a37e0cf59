-- ===== src/StringOps/Macro.antt =====
-- `doMacroExpansion`.
use mergebot.Prelude.{
  ℕ, zero, suc, Bool, true, false, ◌&&◌, ◌||◌, not, Option, none, some, List, [], ◌∷◌, ◌++◌, leb,
  ◌==◌, if◌then◌else◌, length, take, drop, ◌≡◌, ◌<◌, ◌≤◌, arith, refl,
}
use mergebot.Bytes.{Bytes, codes, find}
pub mod Fuel

abbrev is_alnum : ℕ → Bool
is_alnum c =
    (leb b'0' c && leb c b'9') || ((leb b'A' c && leb c b'Z') || (leb b'a' c && leb c b'z'))

-- No letter or digit on this side of the match.
abbrev pub is_border : Option ℕ → Bool
is_border none = true
is_border (some c) = not (is_alnum c)

abbrev pub first_of_text : Bytes → Option ℕ
first_of_text [] = none
first_of_text (c ∷ s) = some c

abbrev pub last_of_text : Option ℕ → Bytes → Option ℕ
last_of_text prev [] = prev
last_of_text prev (c ∷ s) = last_of_text (some c) s

-- What the loop makes of the text from `pos` on, `prev` being the byte in front of it.
pub replace_from : ℕ → Bytes → Bytes → Option ℕ → Bytes → Bytes
replace_from zero macro expansion prev rest = rest
replace_from (suc fuel) macro expansion prev rest = elim (find rest macro) [
  | none ↦ rest
  | some n ↦
      let before = take n rest in
      let hit = drop n rest in
      let after = drop (length macro) hit in
      let replaced =
        expansion ++ replace_from fuel macro expansion (last_of_text none expansion) after in
      let kept = take 1 hit ++ replace_from fuel macro expansion (first_of_text hit) (drop 1 hit) in
      before
      ++ (if is_border (last_of_text prev before) && is_border (first_of_text after)
          then replaced
          else kept)
]

-- Each round moves `pos` on by one byte at least.
pub replace_all : Bytes → Bytes → Bytes → Bytes
replace_all macro expansion text = replace_from (suc (length text)) macro expansion none text

abbrev pub macro_replacements : List (Bytes × Bytes)
macro_replacements =
    (codes "AT_LEAST_V_OR_202404", codes "API_LEVEL_AT_LEAST(__ANDROID_API_V__, 202404)")
    ∷ (codes "AT_LEAST_U_OR_202304", codes "API_LEVEL_AT_LEAST(__ANDROID_API_U__, 202304)")
    ∷ (codes "AT_LEAST_T_OR_202204", codes "API_LEVEL_AT_LEAST(__ANDROID_API_T__, 202204)")
    ∷ (codes "AT_LEAST_S_OR_202104", codes "API_LEVEL_AT_LEAST(__ANDROID_API_S__, 202104)")
    ∷ (codes "AT_LEAST_R_OR_202004", codes "API_LEVEL_AT_LEAST(__ANDROID_API_R__, 202004)")
    ∷ (codes "AT_LEAST_Q_OR_201904", codes "API_LEVEL_AT_LEAST(__ANDROID_API_Q__, 201904)")
    ∷ (codes "ANDROID_VERSION_V", codes "__ANDROID_API_V__")
    ∷ (codes "ANDROID_VERSION_U", codes "__ANDROID_API_U__")
    ∷ (codes "ANDROID_VERSION_T", codes "__ANDROID_API_T__")
    ∷ (codes "ANDROID_VERSION_S", codes "__ANDROID_API_S__")
    ∷ (codes "ANDROID_VERSION_R", codes "__ANDROID_API_R__")
    ∷ (codes "ANDROID_VERSION_Q", codes "__ANDROID_API_Q__")
    ∷ (codes "API_CHECK_V", codes "(__ANDROID_API__ >= __ANDROID_API_V__)")
    ∷ (codes "API_CHECK_U", codes "(__ANDROID_API__ >= __ANDROID_API_U__)")
    ∷ (codes "API_CHECK_T", codes "(__ANDROID_API__ >= __ANDROID_API_T__)")
    ∷ (codes "API_CHECK_S", codes "(__ANDROID_API__ >= __ANDROID_API_S__)")
    ∷ (codes "API_CHECK_R", codes "(__ANDROID_API__ >= __ANDROID_API_R__)")
    ∷ (codes "API_CHECK_Q", codes "(__ANDROID_API__ >= __ANDROID_API_Q__)")
    ∷ []

expand_each : List (Bytes × Bytes) → Bytes → Bytes
expand_each [] text = text
expand_each ((macro, expansion) ∷ table) text = expand_each table (replace_all macro expansion text)

unfoldable pub do_macro_expansion : Bytes → Bytes
unfolding expand_each replace_all replace_from
do_macro_expansion code = expand_each macro_replacements code
