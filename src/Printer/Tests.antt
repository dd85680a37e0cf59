-- ===== src/Printer/Tests.antt =====
-- A namespace with two functions, printed.
use mergebot.Prelude.{
  ℕ, ◌+◌, ◌≡◌, ◌<◌, refl, some, List, [], ◌∷◌, ◌++◌, ◌==◌, if◌then◌else◌, Bool-cases, inl, inr,
  arith, All, true,
}
use mergebot.Bytes.{Bytes, codes}
use mergebot.Nodes.Defs.{
  SemanticNode, Heap, public_access, func_special_member_node, defaulted, translation_unit_node,
}
use mergebot.Nodes.Samples.{sample_node, sample_func, sample_namespace}
use mergebot.Printer.{pretty_print_node, pretty_print_tu, written, no_guard}
use mergebot.Printer.Indent.{indent_code_lines, indent_line, first_char_pos, spaces}
use mergebot.Printer.Parts.{node}
use mergebot.Printer.Plain.{Printed, Graded, pretty_print_node-Printed}
use mergebot.Printer.Column.{missing, indent_line-column}

-- Lines that are not long enough are moved to the column; the last has no newline.
indents : indent_code_lines (codes "a\n  b\n      c") 4 0 ≡ codes "    a\n    b\n      c"
unfolding indent_code_lines
indents = refl

-- A line with a conflict mark stays where it is.
keeps_marks : indent_code_lines (codes "a\n=======\n") 2 0 ≡ codes "  a\n=======\n"
unfolding indent_code_lines
keeps_marks = refl

-- The bytes in front of the column are taken off, and a count that is larger moves nothing.
collapses : indent_code_lines (codes "int x;") 4 6 ≡ codes "int x;"
unfolding indent_code_lines
collapses = refl

abbrev printed_function : Bytes → SemanticNode
printed_function name = record (sample_node 1 name sample_func) {
  start_point = some (record { row = 1; column = 2 });
  access_specifier = public_access;
  body = codes " {\n}";
}

abbrev printed_heap : Heap
printed_heap p =
    if p == 0
    then record (sample_node 0 (codes "namespace ns ") sample_namespace) { children = 1 ∷ 2 ∷ [] }
    else if p == 1
    then printed_function (codes " f")
    else printed_function (codes " g")

-- One access specifier for both; both bodies are indented.
prints :
    pretty_print_node printed_heap 2 0
    ≡ some (codes "namespace ns {\npublic:\n  void f() {\n  }\n  void g() {\n  }\n} \n\n\n")
unfolding pretty_print_node
prints = refl

abbrev special : SemanticNode
special = sample_node 3 (codes "S") (
    func_special_member_node (record {
      def_type = defaulted;
      template_parameter_list = [];
      attrs = [];
      before_func_name = [];
      parameter_list = codes "int a" ∷ codes "int b" ∷ [];
      init_list = [];
      parameter_types = [];
      references = [];
    }))

prints_special :
    pretty_print_node (λ p. record special { body = [] }) 1 0
    ≡ some (codes "S(int a, int b) = default;\n")
unfolding pretty_print_node
prints_special = refl

abbrev unit_heap : List Bytes → Heap
unit_heap guard p =
    if p == 0
    then record (sample_node 0 (codes "a.h") (
        translation_unit_node (record {
          is_header = true;
          tradition_guard = true;
          header_guard = guard;
          front_decls = codes "#include <b>" ∷ [];
        }))) { children = 1 ∷ [] }
    else printed_function (codes " f")

prints_unit :
    pretty_print_tu (unit_heap (codes "#ifndef A" ∷ codes "#define A" ∷ codes "#endif" ∷ [])) 2 0
    ≡ written (codes "\n#ifndef A\n#define A\n#include <b>\n\n  void f() {\n  }\n#endif")
unfolding pretty_print_tu
prints_unit = refl

short_guard : pretty_print_tu (unit_heap (codes "#ifndef A" ∷ [])) 2 0 ≡ no_guard
unfolding pretty_print_tu
short_guard = refl

abbrev printed_rank : ℕ → ℕ
printed_rank p = if p == 0 then 1 else 0

Graded-sample : Graded printed_heap printed_rank
Graded-sample p =
    elim (Bool-cases (p == 0))
      as (λ _. All (λ c. printed_rank c < printed_rank p) (printed_heap p).children) [
        | inl e ↦ rw e (ground arith, (ground arith, tt))
        | inr e ↦ elim (Bool-cases (p == 1)) [ inl f ↦ rw (e, f) tt | inr f ↦ rw (e, f) tt ]
      ]

pretty_print_node-Printed_example :
    Printed printed_heap (node 0) (pretty_print_node printed_heap 2 0)
pretty_print_node-Printed_example =
    pretty_print_node-Printed printed_heap printed_rank 2 0 Graded-sample (ground arith)

abbrev short_line : Bytes
short_line = codes "  b"

indent_line-column_example :
    (indent_line 4 1 short_line ≡ spaces (missing 4 1 short_line) ++ short_line)
    × (first_char_pos (indent_line 4 1 short_line)
        ≡ missing 4 1 short_line + first_char_pos short_line)
indent_line-column_example = indent_line-column 4 1 short_line (ground arith) (ground arith)
