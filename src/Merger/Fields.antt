-- ===== src/Merger/Fields.antt =====
-- What `mergeSemanticNode` does with the fields of a base node that both sides have.
use mergebot.Prelude.{Bool, true, false, ◌||◌, none, some, List, [], if◌then◌else◌}
use mergebot.Bytes.{Bytes, bytes_eq, is_empty}
use mergebot.Nodes.Defs.{
  SemanticNode, DefinitionType, defaulted, deleted, plain, FuncDef, FuncSpecialMember,
  FuncOperatorCast, Class, translation_unit_node, func_def_node, func_operator_cast_node,
  func_special_member_node, get_kind, is_terminal,
}
use mergebot.Semantic.{merge_text, merge_str_vec_by_union}
use mergebot.Merger.{Run, done, bad_cast, ◌>>=◌}

-- `mergeStrVecByUnion`, whose insertions are all in range.
abbrev pub union_of : List Bytes → List Bytes → List Bytes → List Bytes
union_of a b c = elim (merge_str_vec_by_union a b c) [ none ↦ [] | some r ↦ r ]

abbrev pub same_definition_type : DefinitionType → DefinitionType → Bool
same_definition_type defaulted defaulted = true
same_definition_type deleted deleted = true
same_definition_type plain plain = true
same_definition_type _ _ = false

-- The definition type, given the merged body.
unfoldable pub merge_definition_type :
    Bytes → DefinitionType → DefinitionType → DefinitionType → DefinitionType
merge_definition_type body our base their =
    if is_empty body
    then (if same_definition_type our base
        then their
        else if same_definition_type their base
        then our
        else plain)
    else plain

module _ (git : Bytes → Bytes → Bytes → Bytes) where
  unfoldable pub merge_func_def : FuncDef → FuncDef → FuncDef → FuncDef
  unfolding merge_text merge_str_vec_by_union
  merge_func_def our base their = record base {
    template_parameter_list =
        merge_text git our.template_parameter_list base.template_parameter_list
          their.template_parameter_list;
    attrs = merge_text git our.attrs base.attrs their.attrs;
    before_func_name =
        merge_text git our.before_func_name base.before_func_name their.before_func_name;
    parameter_list = union_of our.parameter_list base.parameter_list their.parameter_list;
    after_parameter_list =
        merge_text git our.after_parameter_list base.after_parameter_list
          their.after_parameter_list;
  }

  unfoldable pub merge_func_special_member :
      Bytes → FuncSpecialMember → FuncSpecialMember → FuncSpecialMember → FuncSpecialMember
  unfolding merge_text merge_str_vec_by_union merge_definition_type
  merge_func_special_member body our base their = record base {
    template_parameter_list =
        merge_text git our.template_parameter_list base.template_parameter_list
          their.template_parameter_list;
    def_type = merge_definition_type body our.def_type base.def_type their.def_type;
    attrs = merge_text git our.attrs base.attrs their.attrs;
    before_func_name =
        merge_text git our.before_func_name base.before_func_name their.before_func_name;
    parameter_list = union_of our.parameter_list base.parameter_list their.parameter_list;
    init_list = union_of our.init_list base.init_list their.init_list;
  }

  unfoldable pub merge_func_operator_cast :
      FuncOperatorCast → FuncOperatorCast → FuncOperatorCast → FuncOperatorCast
  unfolding merge_text merge_str_vec_by_union
  merge_func_operator_cast our base their = record base {
    template_parameter_list =
        merge_text git our.template_parameter_list base.template_parameter_list
          their.template_parameter_list;
    attrs = merge_text git our.attrs base.attrs their.attrs;
    before_func_name =
        merge_text git our.before_func_name base.before_func_name their.before_func_name;
    parameter_list = union_of our.parameter_list base.parameter_list their.parameter_list;
    after_parameter_list =
        merge_text git our.after_parameter_list base.after_parameter_list
          their.after_parameter_list;
  }

  -- The parts of a signature, by the class of the base node; the casts of the partners fail where
  -- their class is another.
  unfoldable pub merge_signature_parts : Bytes → Class → Class → Class → Run Class
  unfolding merge_func_def merge_func_special_member merge_func_operator_cast
  merge_signature_parts body (func_def_node o) (func_def_node b) (func_def_node t) =
      done (func_def_node (merge_func_def o b t))
  merge_signature_parts body (func_special_member_node o) (func_special_member_node b)
        (func_special_member_node t) =
      done (func_special_member_node (merge_func_special_member body o b t))
  merge_signature_parts body (func_operator_cast_node o) (func_operator_cast_node b)
        (func_operator_cast_node t) =
      done (func_operator_cast_node (merge_func_operator_cast o b t))
  merge_signature_parts body our (func_def_node b) their = bad_cast
  merge_signature_parts body our (func_special_member_node b) their = bad_cast
  merge_signature_parts body our (func_operator_cast_node b) their = bad_cast
  merge_signature_parts body our base their = done base

  abbrev pub is_function : Class → Bool
  is_function (func_def_node _) = true
  is_function (func_special_member_node _) = true
  is_function (func_operator_cast_node _) = true
  is_function _ = false

  -- Whether the base signature is the one of a side.
  abbrev pub skips_signature : SemanticNode → SemanticNode → SemanticNode → Bool
  skips_signature our base their =
      bytes_eq base.original_signature our.original_signature
      || bytes_eq base.original_signature their.original_signature

  -- The fields that every terminal node has.
  unfoldable pub merge_texts : SemanticNode → SemanticNode → SemanticNode → SemanticNode
  unfolding merge_text
  merge_texts our base their = record base {
    body = merge_text git our.body base.body their.body;
    following_eol = our.following_eol;
    comment = merge_text git our.comment base.comment their.comment;
    qualified_name = merge_text git our.qualified_name base.qualified_name their.qualified_name;
    access_specifier = our.access_specifier;
  }

  abbrev pub with_signature : SemanticNode → SemanticNode → SemanticNode → SemanticNode
  with_signature our base their = record base {
    original_signature =
        merge_text git our.original_signature base.original_signature their.original_signature;
  }

  -- A terminal base node, with the nodes of the two sides.
  unfoldable pub merge_terminal : SemanticNode → SemanticNode → SemanticNode → Run SemanticNode
  unfolding merge_texts merge_signature_parts merge_text
  merge_terminal our base their =
      if is_terminal (get_kind our)
      then (if is_terminal (get_kind their)
          then (let merged = merge_texts our base their in
              if is_function base.class
              then (if skips_signature our base their
                  then done (with_signature our (record merged { sig_unchanged = true }) their)
                  else merge_signature_parts merged.body our.class base.class their.class >>= λ c.
                      done (with_signature our (record merged { class = c }) their))
              else done (with_signature our merged their))
          else bad_cast)
      else bad_cast

  -- The guards and declarations of a translation unit; other classes stay.
  unfoldable pub merge_unit : Class → Class → Class → Class
  unfolding merge_str_vec_by_union
  merge_unit (translation_unit_node o) (translation_unit_node b) (translation_unit_node t) =
      translation_unit_node (record b {
        tradition_guard = o.tradition_guard;
        header_guard = o.header_guard;
        front_decls = union_of o.front_decls b.front_decls t.front_decls;
      })
  merge_unit our base their = base

  -- A composite base node, but for its children.
  unfoldable pub merge_composite : SemanticNode → SemanticNode → SemanticNode → SemanticNode
  unfolding merge_unit merge_text
  merge_composite our base their = record base {
    following_eol = our.following_eol;
    access_specifier = our.access_specifier;
    class = merge_unit our.class base.class their.class;
    comment = merge_text git our.comment base.comment their.comment;
    original_signature =
        merge_text git our.original_signature base.original_signature their.original_signature;
    qualified_name = merge_text git our.qualified_name base.qualified_name their.qualified_name;
    before_first_child_eol = their.before_first_child_eol;
  }
