-- ===== src/Printer.antt =====
-- The text of a merged node: src/core/semantic/pretty_printer.cpp. Writing the text to its file and
-- clang-format are left out.
use mergebot.Prelude.{
  ℕ, zero, suc, ◌+◌, ◌-◌, ◌%◌, ◌^◌, Bool, true, false, ◌&&◌, ◌||◌, not, Option, none, some, List,
  [], ◌∷◌, ◌++◌, ◌==◌, if◌then◌else◌, ltb, leb, length, map,
}
pub mod Indent
pub mod Spaces
pub mod Parts
pub mod PartTexts
pub mod Plain
pub mod Column
mod Tests
use mergebot.Bytes.{Bytes, codes, is_empty}
use mergebot.Bytes.Lines.{newline}
use mergebot.Nodes.Defs.{
  SemanticNode, Heap, Class, TranslationUnit, FuncDef, FuncOperatorCast, FuncSpecialMember,
  DefinitionType, AccessSpecifierKind, no_access, default_access, public_access, protected_access,
  private_access, defaulted, deleted, plain, translation_unit_node, linkage_spec_node,
  namespace_node, type_decl_node, enum_node, field_declaration_node, func_def_node,
  func_operator_cast_node, func_special_member_node, orphan_comment_node, textual_node,
  access_specifier_node, get_kind, is_terminal, value, namespace,
}
use mergebot.Printer.Indent.{ends_line, with_newlines, indent_code_lines}

-- `fmt::join` with ", ".
abbrev pub comma_separated : List Bytes → Bytes
comma_separated [] = []
comma_separated (x ∷ []) = x
comma_separated (x ∷ y ∷ xs) = x ++ (codes ", " ++ comma_separated (y ∷ xs))

abbrev pub in_parentheses : List Bytes → Bytes
in_parentheses ps = b'(' ∷ comma_separated ps ++ b')' ∷ []

-- A template parameter list of ten bytes stands on a line of its own.
abbrev pub template_text : Bytes → Bytes
template_text t =
    if leb 10 (length t) then t ++ newline ∷ [] else if is_empty t then [] else t ++ b' ' ∷ []

-- `name` is the `DisplayName`.
unfoldable pub print_func_def_node_signature : Bytes → FuncDef → Bytes
print_func_def_node_signature name f =
    template_text f.template_parameter_list
    ++ (f.attrs
        ++ (f.before_func_name
            ++ (name ++ (in_parentheses f.parameter_list ++ f.after_parameter_list))))

unfoldable pub print_func_operator_cast_signature : Bytes → FuncOperatorCast → Bytes
print_func_operator_cast_signature name f =
    template_text f.template_parameter_list
    ++ (f.attrs
        ++ (f.before_func_name
            ++ (name ++ (in_parentheses f.parameter_list ++ f.after_parameter_list))))

abbrev pub init_text : List Bytes → Bytes
init_text [] = []
init_text (x ∷ xs) = codes ": " ++ (comma_separated (x ∷ xs) ++ b' ' ∷ [])

abbrev pub definition_type_text : DefinitionType → Bytes
definition_type_text plain = []
definition_type_text defaulted = codes " = default;"
definition_type_text deleted = codes " = delete;"

unfoldable pub print_func_special_member_signature : Bytes → FuncSpecialMember → Bytes
print_func_special_member_signature name f =
    template_text f.template_parameter_list
    ++ (f.attrs
        ++ (f.before_func_name
            ++ (name
                ++ (in_parentheses f.parameter_list
                    ++ (init_text f.init_list ++ definition_type_text f.def_type)))))

-- What a function's text has in front of its body.
unfoldable pub signature_text : SemanticNode → Class → Bytes
unfolding print_func_def_node_signature print_func_operator_cast_signature
    print_func_special_member_signature
signature_text n (func_def_node f) =
    if n.sig_unchanged then n.original_signature else print_func_def_node_signature n.display_name f
signature_text n (func_operator_cast_node f) =
    if n.sig_unchanged
    then n.original_signature
    else print_func_operator_cast_signature n.display_name f
signature_text n (func_special_member_node f) =
    if n.sig_unchanged
    then n.original_signature
    else print_func_special_member_signature n.display_name f
signature_text n c = []

abbrev pub eols : ℕ → Bytes
eols zero = []
eols (suc n) = newline ∷ eols n

unfoldable pub terminal_text : SemanticNode → Bytes
unfolding signature_text
terminal_text n = n.comment ++ (signature_text n n.class ++ (n.body ++ eols n.following_eol))

-- `magic_enum::enum_name`, as customised for the access specifiers.
abbrev pub access_name : AccessSpecifierKind → Bytes
access_name no_access = codes "None"
access_name default_access = codes "Default"
access_name public_access = codes "public:"
access_name protected_access = codes "protected:"
access_name private_access = codes "private:"

abbrev pub access_value : AccessSpecifierKind → ℕ
access_value no_access = 0
access_value default_access = 1
access_value public_access = 2
access_value protected_access = 3
access_value private_access = 4

-- Whether the access specifier of a child is printed, behind a child with the specifier `prev`.
abbrev pub starts_section : AccessSpecifierKind → AccessSpecifierKind → Bool
starts_section prev a =
    not (access_value a == access_value prev)
    && (not (access_value a == access_value no_access)
        && not (access_value a == access_value default_access))

-- What stands behind the brace.
abbrev pub behind_brace : Class → Bytes
behind_brace (namespace_node n) = b' ' ∷ n.ns_comment
behind_brace (type_decl_node _) = b';' ∷ []
behind_brace (enum_node _) = b';' ∷ []
behind_brace c = []

abbrev pub is_unit : Class → Bool
is_unit (translation_unit_node _) = true
is_unit c = false

abbrev pub column_of : SemanticNode → ℕ
column_of n = elim n.start_point [ none ↦ 0 | some p ↦ p.column ]

-- `nodeStr.size()` of a text that does not end its last line.
abbrev pub collapse_count : Bytes → ℕ
collapse_count s = if ends_line s then 0 else length s

-- What the children of a node print, where `print` prints a node; the specifiers of a class or a
-- namespace are printed in front of the first child of each section.
module _ (print : ℕ → Option Bytes) (heap : Heap) where
  unfoldable pub children_text : List ℕ → Option Bytes
  children_text [] = some []
  children_text (p ∷ ps) = elim (print p) [
    | none ↦ none
    | some text ↦ elim (children_text ps) [ none ↦ none | some rest ↦ some (text ++ rest) ]
  ]

  unfoldable pub members_text : AccessSpecifierKind → List ℕ → Option Bytes
  members_text prev [] = some []
  members_text prev (p ∷ ps) =
      let access = (heap p).access_specifier in
      let starts = starts_section prev access in
      elim (print p) [
        | none ↦ none
        | some text ↦ elim (members_text (if starts then access else prev) ps) [
          | none ↦ none
          | some rest ↦
              some ((if starts then access_name access ++ newline ∷ [] else []) ++ (text ++ rest))
        ]
      ]

  unfoldable pub composite_text : SemanticNode → Option Bytes
  unfolding children_text members_text
  composite_text n =
      if is_unit n.class
      then elim (children_text n.children) [
        | none ↦ none
        | some text ↦ some (eols n.before_first_child_eol ++ text)
      ]
      else elim (members_text no_access n.children) [
        | none ↦ none
        | some text ↦ some (
            n.comment
            ++ (n.original_signature
                ++ (b'{' ∷ eols n.before_first_child_eol
                    ++ (text
                        ++ (b'}' ∷ behind_brace n.class
                            ++ (eols n.following_eol ++ newline ∷ newline ∷ []))))))
      ]

-- `prettyPrintNode`, on fuel: `none` is a lack of it.
unfoldable pub pretty_print_node : Heap → ℕ → ℕ → Option Bytes
unfolding terminal_text composite_text indent_code_lines
pretty_print_node heap zero p = none
pretty_print_node heap (suc fuel) p =
    let n = heap p in
    elim (is_terminal (get_kind n)) [
      | true ↦
          some
            (indent_code_lines (terminal_text n) (column_of n) (collapse_count (terminal_text n)))
      | false ↦ elim (composite_text (pretty_print_node heap fuel) heap n) [
        | none ↦ none
        | some text ↦ some (indent_code_lines text (column_of n) 0)
      ]
    ]

-- What `PrettyPrintTU` comes to: it may be asked for a node of another class, and the guard of a
-- header may have too few lines.
pub data TuText : Type 0 where
  written : Bytes → TuText
  not_a_unit : TuText
  no_guard : TuText
  no_fuel : TuText

-- The lines in front of a unit and behind it. A traditional guard has three lines at least, which an
-- assertion demands; of another the first line is taken, newline included.
unfoldable pub guard_text : TranslationUnit → Option (Bytes × Bytes)
guard_text u =
    if u.is_header
    then elim u.header_guard [
      | [] ↦ none
      | g ∷ gs ↦
          if u.tradition_guard
          then elim gs [
            | [] ↦ none
            | h ∷ hs ↦ elim hs [ [] ↦ none | e ∷ _ ↦ some (g ++ newline ∷ h ++ newline ∷ [], e) ]
          ]
          else some (g, [])
    ]
    else some ([], [])

unfoldable pub print_tu : Heap → ℕ → ℕ → SemanticNode → Class → TuText
unfolding guard_text with_newlines pretty_print_node
print_tu heap fuel p n (translation_unit_node u) = elim (guard_text u) [
  | none ↦ no_guard
  | some (front, behind) ↦ elim (pretty_print_node heap fuel p) [
    | none ↦ no_fuel
    | some text ↦
        written (n.comment ++ newline ∷ front ++ (with_newlines u.front_decls ++ (text ++ behind)))
  ]
]
print_tu heap fuel p n c = not_a_unit

-- The text that `PrettyPrintTU` writes.
unfoldable pub pretty_print_tu : Heap → ℕ → ℕ → TuText
unfolding print_tu
pretty_print_tu heap fuel p = print_tu heap fuel p (heap p) (heap p).class
