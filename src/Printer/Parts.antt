-- ===== src/Printer/Parts.antt =====
-- The parts of which the text of a node is made, spelled out one by one.
use mergebot.Prelude.{
  ℕ, zero, suc, ◌≡◌, ◌≢◌, ◌⊎◌, Bool, true, false, Option, none, some, List, [], ◌∷◌, ◌++◌,
  if◌then◌else◌, leb, length,
}
use mergebot.Bytes.{Bytes, codes, is_empty}
use mergebot.Nodes.Defs.{
  SemanticNode, Heap, Class, DefinitionType, AccessSpecifierKind, no_access, default_access,
  public_access, protected_access, private_access, defaulted, deleted, plain, namespace_node,
  type_decl_node, enum_node, func_def_node, func_operator_cast_node, func_special_member_node,
  get_kind, is_terminal,
}
use mergebot.Printer.{comma_separated, is_unit}

abbrev pub concat : List Bytes → Bytes
concat [] = []
concat (x ∷ xs) = x ++ concat xs

abbrev pub newlines : ℕ → Bytes
newlines zero = []
newlines (suc n) = codes "\n" ++ newlines n

-- The list of template parameters, on a line of its own if it is long.
abbrev pub template_parts : Bytes → List Bytes
template_parts t =
    if leb 10 (length t) then t ∷ codes "\n" ∷ [] else if is_empty t then [] else t ∷ codes " " ∷ []

abbrev pub init_parts : List Bytes → List Bytes
init_parts [] = []
init_parts (x ∷ xs) = codes ": " ∷ comma_separated (x ∷ xs) ∷ codes " " ∷ []

abbrev pub definition_part : DefinitionType → Bytes
definition_part plain = []
definition_part defaulted = codes " = default;"
definition_part deleted = codes " = delete;"

-- A function up to its parameters, and the rest.
abbrev pub function_parts : Bytes → Bytes → Bytes → Bytes → List Bytes → List Bytes → List Bytes
function_parts template attrs before name parameters rest =
    template_parts template
    ++ attrs ∷ before ∷ name ∷ codes "(" ∷ comma_separated parameters ∷ codes ")" ∷ rest

-- A signature that the merge built anew.
abbrev pub new_signature : Bytes → Class → List Bytes
new_signature name (func_def_node f) =
    function_parts f.template_parameter_list f.attrs f.before_func_name name f.parameter_list
      (f.after_parameter_list ∷ [])
new_signature name (func_operator_cast_node f) =
    function_parts f.template_parameter_list f.attrs f.before_func_name name f.parameter_list
      (f.after_parameter_list ∷ [])
new_signature name (func_special_member_node f) =
    function_parts f.template_parameter_list f.attrs f.before_func_name name f.parameter_list
      (init_parts f.init_list ++ definition_part f.def_type ∷ [])
new_signature name c = []

abbrev pub is_function : Class → Bool
is_function (func_def_node _) = true
is_function (func_operator_cast_node _) = true
is_function (func_special_member_node _) = true
is_function c = false

-- The signature of a terminal node: only functions have one in front of their body.
abbrev pub signature_parts : SemanticNode → Class → List Bytes
signature_parts n c =
    if is_function c
    then (if n.sig_unchanged then n.original_signature ∷ [] else new_signature n.display_name c)
    else []

abbrev pub suffix : Class → Bytes
suffix (namespace_node n) = codes " " ++ n.ns_comment
suffix (type_decl_node _) = codes ";"
suffix (enum_node _) = codes ";"
suffix c = []

-- The line in front of the members with an access specifier.
abbrev pub section_title : AccessSpecifierKind → Option Bytes
section_title no_access = none
section_title default_access = none
section_title public_access = some (codes "public:")
section_title protected_access = some (codes "protected:")
section_title private_access = some (codes "private:")

-- What is printed: a node, the children of a unit, or the members of another node, behind one with
-- the access specifier.
pub data Subject : Type 0 where
  node : ℕ → Subject
  children_of : List ℕ → Subject
  members_of : AccessSpecifierKind → List ℕ → Subject

-- The text of a subject, part by part.
pub data Spells (heap : Heap) : Subject → Bytes → Type 0 where
  terminal :
      (p : ℕ)
      → is_terminal (get_kind (heap p)) ≡ true
      → Spells heap (node p) (
          concat (
            (heap p).comment
            ∷ concat (signature_parts (heap p) (heap p).class)
            ∷ (heap p).body
            ∷ newlines (heap p).following_eol
            ∷ []))
  unit :
      (p : ℕ) {inner : Bytes}
      → is_terminal (get_kind (heap p)) ≡ false
      → is_unit (heap p).class ≡ true
      → Spells heap (children_of (heap p).children) inner
      → Spells heap (node p) (newlines (heap p).before_first_child_eol ++ inner)
  composite :
      (p : ℕ) {inner : Bytes}
      → is_terminal (get_kind (heap p)) ≡ false
      → is_unit (heap p).class ≡ false
      → Spells heap (members_of no_access (heap p).children) inner
      → Spells heap (node p) (
          concat (
            (heap p).comment
            ∷ (heap p).original_signature
            ∷ codes "{"
            ∷ newlines (heap p).before_first_child_eol
            ∷ inner
            ∷ codes "}"
            ∷ suffix (heap p).class
            ∷ newlines (heap p).following_eol
            ∷ codes "\n\n"
            ∷ []))
  no_child : Spells heap (children_of []) []
  child :
      {p : ℕ} {ps : List ℕ} {x y : Bytes}
      → Spells heap (node p) x
      → Spells heap (children_of ps) y
      → Spells heap (children_of (p ∷ ps)) (x ++ y)
  no_member : {prev : AccessSpecifierKind} → Spells heap (members_of prev []) []
  member :
      {prev : AccessSpecifierKind} {p : ℕ} {ps : List ℕ} {x y : Bytes}
      → (section_title (heap p).access_specifier ≡ none) ⊎ ((heap p).access_specifier ≡ prev)
      → Spells heap (node p) x
      → Spells heap (members_of prev ps) y
      → Spells heap (members_of prev (p ∷ ps)) (x ++ y)
  first_member :
      {prev : AccessSpecifierKind} {p : ℕ} {ps : List ℕ} {x y : Bytes} (title : Bytes)
      → section_title (heap p).access_specifier ≡ some title
      → (heap p).access_specifier ≢ prev
      → Spells heap (node p) x
      → Spells heap (members_of (heap p).access_specifier ps) y
      → Spells heap (members_of prev (p ∷ ps)) ((title ++ codes "\n") ++ (x ++ y))
