-- ===== src/Nodes/Defs.antt =====
-- The data of include/mergebot/core/model: NodeKind, AccessSpecifierKind, SemanticNode and the
-- classes of include/mergebot/core/model/node. A `std::shared_ptr` to a node is a number, its place
-- on the heap. What a class adds to the base classes is the node's `class`.
use mergebot.Prelude.{ℕ, Bool, ◌&&◌, Option, List, leb}
use mergebot.Bytes.{Bytes}

-- `composite_node`, `last_composite_node`, `terminal_node` and `last_terminal_node` bound the kinds that
-- `classof` accepts.
pub data NodeKind : Type 0 where
  node : NodeKind
  composite_node : NodeKind
  translation_unit : NodeKind
  linkage_spec_list : NodeKind
  namespace : NodeKind
  type : NodeKind
  enum : NodeKind
  last_composite_node : NodeKind
  terminal_node : NodeKind
  field_declaration : NodeKind
  func_def : NodeKind
  func_operator_cast : NodeKind
  func_special_member : NodeKind
  orphan_comment : NodeKind
  textual : NodeKind
  access_specifier : NodeKind
  last_terminal_node : NodeKind
  count : NodeKind

-- The value of an enumerator.
abbrev pub value : NodeKind → ℕ
value node = 0
value composite_node = 1
value translation_unit = 2
value linkage_spec_list = 3
value namespace = 4
value type = 5
value enum = 6
value last_composite_node = 7
value terminal_node = 8
value field_declaration = 9
value func_def = 10
value func_operator_cast = 11
value func_special_member = 12
value orphan_comment = 13
value textual = 14
value access_specifier = 15
value last_terminal_node = 16
value count = 17

-- `CompositeNode::classof` and `TerminalNode::classof`.
abbrev pub is_composite : NodeKind → Bool
is_composite k = leb (value composite_node) (value k) && leb (value k) (value last_composite_node)

abbrev pub is_terminal : NodeKind → Bool
is_terminal k = leb (value terminal_node) (value k) && leb (value k) (value last_terminal_node)

pub data AccessSpecifierKind : Type 0 where
  no_access : AccessSpecifierKind
  default_access : AccessSpecifierKind
  public_access : AccessSpecifierKind
  protected_access : AccessSpecifierKind
  private_access : AccessSpecifierKind

-- `FuncSpecialMemberNode::DefinitionType`.
pub data DefinitionType : Type 0 where
  defaulted : DefinitionType
  deleted : DefinitionType
  plain : DefinitionType

pub record FuncDef : Type 0 where
  pub template_parameter_list : Bytes
  pub attrs : Bytes
  pub before_func_name : Bytes
  pub parameter_list : List Bytes
  pub after_parameter_list : Bytes
  pub references : List Bytes
  pub parameter_types : List Bytes

pub record FuncSpecialMember : Type 0 where
  pub def_type : DefinitionType
  pub template_parameter_list : Bytes
  pub attrs : Bytes
  pub before_func_name : Bytes
  pub parameter_list : List Bytes
  pub init_list : List Bytes
  pub parameter_types : List Bytes
  pub references : List Bytes

pub record FuncOperatorCast : Type 0 where
  pub template_parameter_list : Bytes
  pub attrs : Bytes
  pub before_func_name : Bytes
  pub parameter_list : List Bytes
  pub after_parameter_list : Bytes
  pub references : List Bytes

pub record TranslationUnit : Type 0 where
  pub is_header : Bool
  pub tradition_guard : Bool
  pub header_guard : List Bytes
  pub front_decls : List Bytes

pub record Namespace : Type 0 where
  pub is_inline : Bool
  pub ns_comment : Bytes
  pub anonymous : Bool
  pub tu_path : Bytes

pub data TypeDeclKind : Type 0 where
  class_kind : TypeDeclKind
  struct_kind : TypeDeclKind
  union_kind : TypeDeclKind

pub record TypeDecl : Type 0 where
  pub type_kind : TypeDeclKind
  pub attrs : Bytes
  pub is_final : Bool
  pub base_clause : Bytes
  pub template_parameter_list : Bytes
  pub references : List Bytes

pub record Enum : Type 0 where
  pub enum_key : Bytes
  pub attrs : Bytes
  pub enum_base : Bytes
  pub enum_body : Bytes

pub record FieldDeclaration : Type 0 where
  pub declarator : Bytes
  pub is_field_decl : Bool
  pub references : List Bytes

-- The subclasses. A linkage specification has the hash of its parent, a textual node its path.
pub data Class : Type 0 where
  translation_unit_node : TranslationUnit → Class
  linkage_spec_node : ℕ → Class
  namespace_node : Namespace → Class
  type_decl_node : TypeDecl → Class
  enum_node : Enum → Class
  field_declaration_node : FieldDeclaration → Class
  func_def_node : FuncDef → Class
  func_operator_cast_node : FuncOperatorCast → Class
  func_special_member_node : FuncSpecialMember → Class
  orphan_comment_node : Class
  textual_node : Bytes → Class
  access_specifier_node : AccessSpecifierKind → Class

-- The kind that each class is built with.
abbrev pub class_kind_of : Class → NodeKind
class_kind_of (translation_unit_node _) = translation_unit
class_kind_of (linkage_spec_node _) = linkage_spec_list
class_kind_of (namespace_node _) = namespace
class_kind_of (type_decl_node _) = type
class_kind_of (enum_node _) = enum
class_kind_of (field_declaration_node _) = field_declaration
class_kind_of (func_def_node _) = func_def
class_kind_of (func_operator_cast_node _) = func_operator_cast
class_kind_of (func_special_member_node _) = func_special_member
class_kind_of orphan_comment_node = orphan_comment
class_kind_of (textual_node _) = textual
class_kind_of (access_specifier_node _) = access_specifier

-- `ts::Point`, two numbers of 32 bits.
pub record Point : Type 0 where
  pub row : ℕ
  pub column : ℕ

-- `before_first_child_eol` is a field of composite nodes, `body`, `parent_signature_hash` and
-- `sig_unchanged` are fields of terminal ones.
pub record SemanticNode : Type 0 where
  pub id : ℕ
  pub need_to_merge : Bool
  pub display_name : Bytes
  pub qualified_name : Bytes
  pub original_signature : Bytes
  pub comment : Bytes
  pub start_point : Option Point
  pub usr : Bytes
  pub following_eol : ℕ
  pub access_specifier : AccessSpecifierKind
  pub is_synthetic : Bool
  pub parent : Option ℕ
  pub children : List ℕ
  pub before_first_child_eol : ℕ
  pub body : Bytes
  pub parent_signature_hash : ℕ
  pub sig_unchanged : Bool
  pub class : Class

abbrev pub get_kind : SemanticNode → NodeKind
get_kind n = class_kind_of n.class

-- Every pointer that the code follows points to a node.
abbrev pub Heap : Type 0
Heap = ℕ → SemanticNode
