-- ===== src/Nodes/Samples.antt =====
-- Nodes for tests.
use mergebot.Prelude.{ℕ, ◌+◌, ◌*◌, ◌%◌, ◌^◌, true, false, none, [], ◌∷◌}
use mergebot.Bytes.{Bytes, codes}
use mergebot.Nodes.{Hashers}
use mergebot.Nodes.Defs.{
  SemanticNode, Class, no_access, func_def_node, namespace_node, translation_unit_node,
}

abbrev pub digits : Bytes → ℕ
digits [] = 1
digits (c ∷ s) = (digits s * 31 + c) % 2 ^ 64

abbrev pub sample_hash : Hashers
sample_hash = record { text = digits; number = λ n. n }

abbrev pub sample_node : ℕ → Bytes → Class → SemanticNode
sample_node id name class = record {
  id = id;
  need_to_merge = true;
  display_name = name;
  qualified_name = name;
  original_signature = name;
  comment = [];
  start_point = none;
  usr = [];
  following_eol = 1;
  access_specifier = no_access;
  is_synthetic = false;
  parent = none;
  children = [];
  before_first_child_eol = 1;
  body = name;
  parent_signature_hash = 0;
  sig_unchanged = false;
  class = class;
}

abbrev pub sample_func : Class
sample_func = func_def_node (record {
  template_parameter_list = [];
  attrs = [];
  before_func_name = codes "void";
  parameter_list = [];
  after_parameter_list = [];
  references = [];
  parameter_types = [];
})

abbrev pub sample_namespace : Class
sample_namespace =
    namespace_node
      (record { is_inline = false; ns_comment = []; anonymous = false; tu_path = codes "a.cc" })

abbrev pub sample_unit : Class
sample_unit =
    translation_unit_node
      (record { is_header = false; tradition_guard = false; header_guard = []; front_decls = [] })
