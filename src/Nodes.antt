-- ===== src/Nodes.antt =====
-- The nodes of a semantic graph: include/mergebot/core/model/SemanticNode.h, its subclasses in
-- include/mergebot/core/model/node, and the names and hashes of src/core/sa_utility.cpp and
-- include/mergebot/core/sa_utility.h that they use.
use mergebot.Prelude.{
  ℕ, suc, ◌+◌, ◌-◌, ◌*◌, ◌/◌, ◌%◌, ◌^◌, Bool, true, false, ◌&&◌, ◌||◌, not, Option, none, some,
  List, [], ◌∷◌, ◌++◌, leb, ◌==◌, if◌then◌else◌, length, drop,
}
use Prim.Native.Nat.{bit_xor}
pub mod Defs
pub mod Names
pub mod Samples
mod Tests
use mergebot.Bytes.{Bytes, codes, is_empty, starts_with, ends_with}
use mergebot.StringOps.Deflate.{is_space}
use mergebot.Nodes.Defs.{
  NodeKind, translation_unit, linkage_spec_list, orphan_comment, textual, value, DefinitionType,
  defaulted, deleted, plain, Class, FuncDef, FuncOperatorCast, FuncSpecialMember, FieldDeclaration,
  Namespace, translation_unit_node, linkage_spec_node, namespace_node, field_declaration_node,
  func_def_node, func_operator_cast_node, func_special_member_node, textual_node, type_decl_node,
  enum_node, orphan_comment_node, access_specifier_node, SemanticNode, get_kind, Heap,
}

-- `std::hash` of a text and of a number or enumerator.
pub record Hashers : Type 0 where
  pub text : Bytes → ℕ
  pub number : ℕ → ℕ

-- `hash_combine`, after the call of the hasher, over `size_t` of 64 bits.
pub hash_combine : ℕ → ℕ → ℕ
hash_combine seed v =
    bit_xor seed ((v + 0x9e3779b9 + seed * 2 ^ 6 % 2 ^ 64 + seed / 2 ^ 2) % 2 ^ 64)

abbrev definition_type_value : DefinitionType → ℕ
definition_type_value defaulted = 0
definition_type_value deleted = 1
definition_type_value plain = 2

-- `remove_if` by `::isspace`.
pub erase_spaces : Bytes → Bytes
erase_spaces [] = []
erase_spaces (c ∷ s) = if is_space c then erase_spaces s else c ∷ erase_spaces s

module _ (hash : Hashers) where
  -- `VectorHash<std::string>`.
  pub vector_hash : ℕ → List Bytes → ℕ
  unfolding hash_combine
  vector_hash seed [] = seed
  vector_hash seed (x ∷ xs) = vector_hash (hash_combine seed (hash.text x)) xs

  abbrev pub with_kind : SemanticNode → ℕ
  with_kind n = hash_combine 1 (hash.number (value (get_kind n)))

  abbrev pub with_text : ℕ → Bytes → ℕ
  with_text h s = hash_combine h (hash.text s)

  -- `CompositeNode::hashSignature`.
  pub composite_signature : SemanticNode → ℕ
  unfolding hash_combine
  composite_signature n =
      if is_empty n.usr
      then with_text (with_kind n) n.qualified_name
      else with_text (with_kind n) n.usr

  -- `TerminalNode::hashSignature`.
  pub terminal_signature : SemanticNode → ℕ
  unfolding hash_combine
  terminal_signature n = with_text (with_kind n) n.body

  pub translation_unit_signature : SemanticNode → ℕ
  unfolding hash_combine
  translation_unit_signature n = with_text (with_kind n) n.qualified_name

  pub linkage_spec_signature : ℕ → SemanticNode → ℕ
  unfolding hash_combine
  linkage_spec_signature parent_hash n =
      with_text (hash_combine (with_kind n) (hash.number parent_hash)) n.qualified_name

  pub namespace_signature : Namespace → SemanticNode → ℕ
  unfolding hash_combine
  namespace_signature m n =
      let named = with_text (with_text (with_kind n) m.tu_path) n.qualified_name in
      if m.anonymous then hash_combine named (hash.number n.id) else named

  pub field_declaration_signature : FieldDeclaration → SemanticNode → ℕ
  unfolding hash_combine
  field_declaration_signature f n =
      if not (is_empty n.usr)
      then with_text (with_kind n) n.usr
      else if f.is_field_decl && not (is_empty n.qualified_name)
      then with_text (with_kind n) n.qualified_name
      else with_text (with_kind n) n.body

  pub func_def_signature : FuncDef → SemanticNode → ℕ
  unfolding hash_combine vector_hash erase_spaces
  func_def_signature f n =
      if not (is_empty n.usr)
      then with_text (with_kind n) n.usr
      else with_text
          (hash_combine (with_text (with_kind n) n.qualified_name)
            (hash.number (vector_hash 0 f.parameter_types)))
          (erase_spaces f.after_parameter_list)

  pub func_operator_cast_signature : FuncOperatorCast → SemanticNode → ℕ
  unfolding hash_combine erase_spaces
  func_operator_cast_signature f n =
      if not (is_empty n.usr)
      then with_text (with_kind n) n.usr
      else with_text (with_text (with_kind n) n.qualified_name)
          (erase_spaces f.after_parameter_list)

  pub func_special_member_signature : FuncSpecialMember → SemanticNode → ℕ
  unfolding hash_combine vector_hash
  func_special_member_signature f n =
      if not (is_empty n.usr)
      then with_text (with_kind n) n.usr
      else hash_combine
          (hash_combine (with_text (with_kind n) n.qualified_name)
            (hash.number (vector_hash 0 f.parameter_types)))
          (hash.number (definition_type_value f.def_type))

  pub textual_signature : SemanticNode → ℕ
  unfolding hash_combine
  textual_signature n = with_text 1 n.body

  -- The virtual function.
  unfoldable pub hash_signature : SemanticNode → ℕ
  unfolding composite_signature terminal_signature translation_unit_signature linkage_spec_signature
      namespace_signature field_declaration_signature func_def_signature
      func_operator_cast_signature func_special_member_signature textual_signature
  hash_signature n = elim n.class [
    | translation_unit_node _ ↦ translation_unit_signature n
    | linkage_spec_node parent_hash ↦ linkage_spec_signature parent_hash n
    | namespace_node m ↦ namespace_signature m n
    | type_decl_node _ ↦ composite_signature n
    | enum_node _ ↦ composite_signature n
    | field_declaration_node f ↦ field_declaration_signature f n
    | func_def_node f ↦ func_def_signature f n
    | func_operator_cast_node f ↦ func_operator_cast_signature f n
    | func_special_member_node f ↦ func_special_member_signature f n
    | orphan_comment_node ↦ terminal_signature n
    | textual_node _ ↦ textual_signature n
    | access_specifier_node _ ↦ terminal_signature n
  ]

  -- `operator==` on nodes.
  abbrev pub same_signature : SemanticNode → SemanticNode → Bool
  same_signature a b = hash_signature a == hash_signature b

  -- The loop of `getNearestNeighborNames`: the name of the sibling before, if there is one, and what
  -- was found so far.
  unfoldable pub nearest_names : Heap → ℕ → Bytes → Bool → Bytes → List ℕ → List Bytes
  unfolding hash_signature
  nearest_names heap own before found prev [] = prev ∷ [] ∷ []
  nearest_names heap own before true prev (c ∷ cs) = prev ∷ (heap c).qualified_name ∷ []
  nearest_names heap own before false prev (c ∷ cs) =
      if hash_signature (heap c) == own
      then nearest_names heap own (heap c).qualified_name true before cs
      else nearest_names heap own (heap c).qualified_name false prev cs

  unfoldable pub get_nearest_neighbor_names : Heap → SemanticNode → List Bytes
  unfolding nearest_names
  get_nearest_neighbor_names heap n = elim n.parent [
    | none ↦ [] ∷ [] ∷ []
    | some p ↦ nearest_names heap (hash_signature n) [] false [] (heap p).children
  ]
