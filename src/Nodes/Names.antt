-- ===== src/Nodes/Names.antt =====
-- `getUnqualifiedName` and `getFullQualifiedName` of src/core/sa_utility.cpp.
use mergebot.Prelude.{
  ℕ, suc, ◌+◌, Bool, ◌||◌, Option, none, some, [], ◌∷◌, ◌++◌, ◌==◌, if◌then◌else◌, drop,
}
use mergebot.Bytes.{Bytes, codes, is_empty, starts_with, ends_with}
use mergebot.Nodes.Defs.{
  NodeKind, translation_unit, linkage_spec_list, orphan_comment, textual, value,
}

-- `rfind`: the last position at which the text occurs.
unfoldable pub rfind : Bytes → Bytes → Option ℕ
rfind [] t = if starts_with [] t then some 0 else none
rfind (c ∷ s) t = elim (rfind s t) [
  | some n ↦ some (suc n)
  | none ↦ if starts_with (c ∷ s) t then some 0 else none
]

unfoldable pub get_unqualified_name : Bytes → Bytes
unfolding rfind
get_unqualified_name name = elim (rfind name (codes "::")) [
  | none ↦ name
  | some pos ↦ drop (pos + 2) name
]

abbrev is_kind : NodeKind → NodeKind → Bool
is_kind a b = value a == value b

unfoldable pub get_full_qualified_name : Bytes → Bytes → NodeKind → Bytes
unfolding get_unqualified_name
get_full_qualified_name qualified_name display_name kind =
    if is_kind kind translation_unit || is_kind kind linkage_spec_list
    then qualified_name ++ display_name
    else if is_kind kind orphan_comment || is_kind kind textual
    then qualified_name
    else if is_empty qualified_name
    then display_name
    else if ends_with qualified_name (codes "::")
    then qualified_name ++ get_unqualified_name display_name
    else qualified_name ++ (codes "::" ++ get_unqualified_name display_name)
