-- ===== src/Printer/PartTexts.antt =====
-- The parts of a signature and of a composite node against the code's texts of them.
use mergebot.Prelude.{
  ℕ, zero, suc, ◌≡◌, ◌≢◌, ◌⊎◌, inl, inr, refl, ap, ◌∙◌, sym, true, false, none, some, List, [], ◌∷◌,
  ◌++◌, leb, length, append_assoc, append-nil, Bool-cases,
}
use mergebot.Bytes.{Bytes, codes, is_empty}
use mergebot.Nodes.Defs.{
  SemanticNode, Class, FuncSpecialMember, DefinitionType, AccessSpecifierKind, no_access,
  default_access, public_access, protected_access, private_access, defaulted, deleted, plain,
  translation_unit_node, linkage_spec_node, namespace_node, type_decl_node, enum_node,
  field_declaration_node, func_def_node, func_operator_cast_node, func_special_member_node,
  orphan_comment_node, textual_node, access_specifier_node,
}
use mergebot.Printer.{
  signature_text, template_text, init_text, definition_type_text, in_parentheses, comma_separated,
  eols, print_func_def_node_signature, print_func_operator_cast_signature,
  print_func_special_member_signature, starts_section, access_name, behind_brace,
}
use mergebot.Printer.Parts.{
  concat, newlines, template_parts, init_parts, definition_part, function_parts, signature_parts,
  suffix, section_title,
}

pub newlines-eols : (n : ℕ) → newlines n ≡ eols n
newlines-eols zero = refl
newlines-eols (suc n) = ap (λ l. codes "\n" ++ l) (newlines-eols n)

pub suffix-behind_brace : (c : Class) → suffix c ≡ behind_brace c
suffix-behind_brace (translation_unit_node x) = refl
suffix-behind_brace (linkage_spec_node x) = refl
suffix-behind_brace (namespace_node x) = refl
suffix-behind_brace (type_decl_node x) = refl
suffix-behind_brace (enum_node x) = refl
suffix-behind_brace (field_declaration_node x) = refl
suffix-behind_brace (func_def_node x) = refl
suffix-behind_brace (func_operator_cast_node x) = refl
suffix-behind_brace (func_special_member_node x) = refl
suffix-behind_brace orphan_comment_node = refl
suffix-behind_brace (textual_node x) = refl
suffix-behind_brace (access_specifier_node x) = refl

concat-append : (xs ys : List Bytes) → concat (xs ++ ys) ≡ concat xs ++ concat ys
concat-append [] ys = refl
concat-append (x ∷ xs) ys =
    ap (λ l. x ++ l) (concat-append xs ys) ∙ sym (append_assoc x (concat xs) (concat ys))

concat-template_parts : (t : Bytes) → concat (template_parts t) ≡ template_text t
concat-template_parts t = elim (Bool-cases (leb 10 (length t))) [
  | inl e ↦ rw e refl
  | inr e ↦ elim (Bool-cases (is_empty t)) [ inl g ↦ rw (e, g) refl | inr g ↦ rw (e, g) refl ]
]

concat-init_parts : (xs : List Bytes) → concat (init_parts xs) ≡ init_text xs
concat-init_parts [] = refl
concat-init_parts (x ∷ xs) = refl

definition_part_lem : (d : DefinitionType) → definition_part d ≡ definition_type_text d
definition_part_lem plain = refl
definition_part_lem defaulted = refl
definition_part_lem deleted = refl

concat-function_parts :
    (t a b n : Bytes) (ps rest : List Bytes)
    → concat (function_parts t a b n ps rest)
      ≡ template_text t ++ (a ++ (b ++ (n ++ (in_parentheses ps ++ concat rest))))
concat-function_parts t a b n ps rest =
    concat-append (template_parts t) _
    ∙ (ap (λ l. l ++ (a ++ (b ++ (n ++ (b'(' ∷ comma_separated ps ++ b')' ∷ concat rest)))))
          (concat-template_parts t)
        ∙ ap (λ l. template_text t ++ (a ++ (b ++ (n ++ b'(' ∷ l))))
            (sym (append_assoc (comma_separated ps) (b')' ∷ []) (concat rest))))

concat-special :
    (f : FuncSpecialMember)
    → concat (init_parts f.init_list ++ definition_part f.def_type ∷ [])
      ≡ init_text f.init_list ++ definition_type_text f.def_type
concat-special f =
    concat-append (init_parts f.init_list) (definition_part f.def_type ∷ [])
    ∙ (ap (λ l. l ++ (definition_part f.def_type ++ [])) (concat-init_parts f.init_list)
        ∙ ap (λ l. init_text f.init_list ++ l)
            (append-nil (definition_part f.def_type) ∙ definition_part_lem f.def_type))

pub concat-signature_parts :
    (n : SemanticNode) (c : Class) → concat (signature_parts n c) ≡ signature_text n c
unfolding signature_text print_func_def_node_signature print_func_operator_cast_signature
    print_func_special_member_signature
concat-signature_parts n (translation_unit_node x) = refl
concat-signature_parts n (linkage_spec_node x) = refl
concat-signature_parts n (namespace_node x) = refl
concat-signature_parts n (type_decl_node x) = refl
concat-signature_parts n (enum_node x) = refl
concat-signature_parts n (field_declaration_node x) = refl
concat-signature_parts n (func_def_node f) = elim (Bool-cases n.sig_unchanged) [
  | inl e ↦ rw (e, signature_text) (append-nil n.original_signature)
  | inr e ↦
      rw (e, signature_text)
        (concat-function_parts f.template_parameter_list f.attrs f.before_func_name n.display_name
            f.parameter_list _
          ∙ ap
              (λ l.
                template_text f.template_parameter_list
                ++ (f.attrs
                    ++ (f.before_func_name
                        ++ (n.display_name ++ (in_parentheses f.parameter_list ++ l)))))
              (append-nil f.after_parameter_list))
]
concat-signature_parts n (func_operator_cast_node f) = elim (Bool-cases n.sig_unchanged) [
  | inl e ↦ rw (e, signature_text) (append-nil n.original_signature)
  | inr e ↦
      rw (e, signature_text)
        (concat-function_parts f.template_parameter_list f.attrs f.before_func_name n.display_name
            f.parameter_list _
          ∙ ap
              (λ l.
                template_text f.template_parameter_list
                ++ (f.attrs
                    ++ (f.before_func_name
                        ++ (n.display_name ++ (in_parentheses f.parameter_list ++ l)))))
              (append-nil f.after_parameter_list))
]
concat-signature_parts n (func_special_member_node f) = elim (Bool-cases n.sig_unchanged) [
  | inl e ↦ rw (e, signature_text) (append-nil n.original_signature)
  | inr e ↦
      rw (e, signature_text)
        (concat-function_parts f.template_parameter_list f.attrs f.before_func_name n.display_name
            f.parameter_list _
          ∙ ap
              (λ l.
                template_text f.template_parameter_list
                ++ (f.attrs
                    ++ (f.before_func_name
                        ++ (n.display_name ++ (in_parentheses f.parameter_list ++ l)))))
              (concat-special f))
]
concat-signature_parts n orphan_comment_node = refl
concat-signature_parts n (textual_node x) = refl
concat-signature_parts n (access_specifier_node x) = refl

-- Whether a member starts a section, by the titles.
pub section_cases :
    (prev a : AccessSpecifierKind)
    → (((section_title a ≡ none) ⊎ (a ≡ prev)) × (starts_section prev a ≡ false))
      ⊎ ((title : Bytes) × (section_title a ≡ some title)
          × (a ≢ prev)
          × (starts_section prev a ≡ true)
          × (access_name a ≡ title))
section_cases no_access no_access = inl (inl refl, refl)
section_cases no_access default_access = inl (inl refl, refl)
section_cases no_access public_access = inr (codes "public:", refl, (λ q. cc), refl, refl)
section_cases no_access protected_access = inr (codes "protected:", refl, (λ q. cc), refl, refl)
section_cases no_access private_access = inr (codes "private:", refl, (λ q. cc), refl, refl)
section_cases default_access no_access = inl (inl refl, refl)
section_cases default_access default_access = inl (inl refl, refl)
section_cases default_access public_access = inr (codes "public:", refl, (λ q. cc), refl, refl)
section_cases default_access protected_access =
    inr (codes "protected:", refl, (λ q. cc), refl, refl)
section_cases default_access private_access = inr (codes "private:", refl, (λ q. cc), refl, refl)
section_cases public_access no_access = inl (inl refl, refl)
section_cases public_access default_access = inl (inl refl, refl)
section_cases public_access public_access = inl (inr refl, refl)
section_cases public_access protected_access = inr (codes "protected:", refl, (λ q. cc), refl, refl)
section_cases public_access private_access = inr (codes "private:", refl, (λ q. cc), refl, refl)
section_cases protected_access no_access = inl (inl refl, refl)
section_cases protected_access default_access = inl (inl refl, refl)
section_cases protected_access public_access = inr (codes "public:", refl, (λ q. cc), refl, refl)
section_cases protected_access protected_access = inl (inr refl, refl)
section_cases protected_access private_access = inr (codes "private:", refl, (λ q. cc), refl, refl)
section_cases private_access no_access = inl (inl refl, refl)
section_cases private_access default_access = inl (inl refl, refl)
section_cases private_access public_access = inr (codes "public:", refl, (λ q. cc), refl, refl)
section_cases private_access protected_access =
    inr (codes "protected:", refl, (λ q. cc), refl, refl)
section_cases private_access private_access = inl (inr refl, refl)
