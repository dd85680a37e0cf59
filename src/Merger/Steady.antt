-- ===== src/Merger/Steady.antt =====
-- The hash of a composite base node, which a merge keeps where no side renamed the node.
use mergebot.Prelude.{ℕ, ◌≡◌, refl, ◌∙◌, ap, List}
use mergebot.Bytes.{Bytes}
use mergebot.Nodes.{Hashers, hash_signature}
use mergebot.Nodes.Defs.{
  SemanticNode, Class, translation_unit_node, get_kind, is_terminal, class_kind_of,
}
use mergebot.Semantic.{merge_text}
use mergebot.Semantic.Lists.{merge_text-ours}
use mergebot.Merger.Fields.{merge_unit, merge_composite}

module _ (hash : Hashers) where
  pub signature-eol :
      (n : SemanticNode) (e : ℕ)
      → hash_signature hash (record n { following_eol = e }) ≡ hash_signature hash n
  unfolding hash_signature
  signature-eol n e = refl

  pub signature-children :
      (n : SemanticNode) (cs : List ℕ)
      → hash_signature hash (record n { children = cs }) ≡ hash_signature hash n
  unfolding hash_signature
  signature-children n cs = refl

  with_both : Bytes → Class → SemanticNode → ℕ
  with_both name c n = hash_signature hash (record n { qualified_name = name; class = c })

  signature-merge_unit :
      (git : Bytes → Bytes → Bytes → Bytes) (n : SemanticNode) (name : Bytes) (o b t : Class)
      → with_both name (merge_unit git o b t) n ≡ with_both name b n
  unfolding with_both hash_signature merge_unit
  signature-merge_unit git n name (translation_unit_node o) (translation_unit_node b)
        (translation_unit_node t) =
      refl
  signature-merge_unit git n name o b t = refl

  signature-fields :
      (git : Bytes → Bytes → Bytes → Bytes) (o b t : SemanticNode)
      → hash_signature hash (merge_composite git o b t)
        ≡ with_both
            (merge_text git o.qualified_name b.qualified_name t.qualified_name)
            (merge_unit git o.class b.class t.class)
            b
  unfolding merge_composite hash_signature with_both
  signature-fields git o b t = refl

  signature_self : (b : SemanticNode) → with_both b.qualified_name b.class b ≡ hash_signature hash b
  unfolding with_both
  signature_self b = refl

same_name :
    (git : Bytes → Bytes → Bytes → Bytes) (o b t : Bytes) → o ≡ b → t ≡ b → merge_text git o b t ≡ b
same_name git o b t e f = ap (λ x. merge_text git x b t) e ∙ (merge_text-ours git b t ∙ f)

pub signature-merge_composite :
    (hash : Hashers) (git : Bytes → Bytes → Bytes → Bytes) (o b t : SemanticNode)
    → o.qualified_name ≡ b.qualified_name
    → t.qualified_name ≡ b.qualified_name
    → hash_signature hash (merge_composite git o b t) ≡ hash_signature hash b
signature-merge_composite hash git o b t e f =
    signature-fields hash git o b t
    ∙ (signature-merge_unit hash git b _ o.class b.class t.class
        ∙ (ap (λ x. with_both hash x b.class b)
              (same_name git o.qualified_name b.qualified_name t.qualified_name e f)
            ∙ signature_self hash b))

pub name-merge_composite :
    (git : Bytes → Bytes → Bytes → Bytes) (o b t : SemanticNode)
    → o.qualified_name ≡ b.qualified_name
    → t.qualified_name ≡ b.qualified_name
    → (merge_composite git o b t).qualified_name ≡ b.qualified_name
unfolding merge_composite
name-merge_composite git o b t e f =
    same_name git o.qualified_name b.qualified_name t.qualified_name e f

kind-merge_unit :
    (git : Bytes → Bytes → Bytes → Bytes) (o b t : Class)
    → is_terminal (class_kind_of (merge_unit git o b t)) ≡ is_terminal (class_kind_of b)
unfolding merge_unit
kind-merge_unit git (translation_unit_node o) (translation_unit_node b) (translation_unit_node t) =
    refl
kind-merge_unit git o b t = refl

pub kind-merge_composite :
    (git : Bytes → Bytes → Bytes → Bytes) (o b t : SemanticNode)
    → is_terminal (get_kind (merge_composite git o b t)) ≡ is_terminal (get_kind b)
unfolding merge_composite
kind-merge_composite git o b t = kind-merge_unit git o.class b.class t.class
