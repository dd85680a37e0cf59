-- ===== src/Semantic/Lists.antt =====
-- `mergeListTextually` where one side changed nothing.
use mergebot.Prelude.{◌≡◌, refl, false, List, [], ◌∷◌, ◌∙◌, ap, sym, All, Bool-cases, inl, inr, map}
use mergebot.Bytes.{Bytes, bytes_eq, bytes_eq_sound, bytes_eq_refl, contains}
use mergebot.Bytes.Lines.{newline}
use mergebot.Conflict.{ConflictMark, ours, base, theirs, end, enum_name}
use mergebot.StringOps.Split.{string_split, string_join}
use mergebot.StringOps.Split.Words.{IsWord, split-join_words}
use mergebot.Semantic.{merge_text, set_apart, merge_list_textually}

-- A line without a mark.
abbrev pub IsPlain : Bytes → Type 0
IsPlain x = (m : ConflictMark) → contains x (enum_name m) ≡ false

set_apart-plain : (xs : List Bytes) → All IsPlain xs → map set_apart xs ≡ xs
unfolding set_apart
set_apart-plain [] h = refl
set_apart-plain (x ∷ xs) (p, h) =
    rw (p ours, p base, p theirs, p end, set_apart) (ap (λ l. x ∷ l) (set_apart-plain xs h))

pub merge_text-ours : (git : Bytes → Bytes → Bytes → Bytes) (a b : Bytes) → merge_text git a a b ≡ b
unfolding merge_text
merge_text-ours git a b = rw (bytes_eq_refl a, merge_text) refl

pub merge_text-theirs :
    (git : Bytes → Bytes → Bytes → Bytes) (a b : Bytes) → merge_text git a b b ≡ a
unfolding merge_text
merge_text-theirs git a b = elim (Bool-cases (bytes_eq a b)) [
  | inl e ↦ rw (e, merge_text) (sym (bytes_eq_sound a b e))
  | inr e ↦ rw (e, bytes_eq_refl b, merge_text) refl
]

-- Where our list or their list is the one of the base, the textual merge gives back the other list,
-- whatever the merge of git does: the elements of that list, none of them empty, with a newline or
-- with a conflict mark in it.
pub merge_list_textually-one_side :
    (git : Bytes → Bytes → Bytes → Bytes) (old changed : List Bytes)
    → All (IsWord newline) changed
    → All IsPlain changed
    → (merge_list_textually git old old changed ≡ changed)
      × (merge_list_textually git changed old old ≡ changed)
unfolding merge_list_textually
merge_list_textually-one_side git old changed w p =
    let o = string_join old (newline ∷ []) in
    let n = string_join changed (newline ∷ []) in
    let done : map set_apart (string_split n (newline ∷ []) false) ≡ changed =
      ap (map set_apart) (split-join_words newline changed w) ∙ set_apart-plain changed p in
    let back : Bytes → List Bytes = λ s. map set_apart (string_split s (newline ∷ []) false) in
    (ap back (merge_text-ours git o n) ∙ done, ap back (merge_text-theirs git n o) ∙ done)
