-- ===== src/ThreeWay/OneSide.antt =====
-- A terminal node that one side left as it was, merged and printed.
use mergebot.Prelude.{
  ℕ, ◌≡◌, refl, ◌∙◌, ap, sym, subst, true, false, ◌||◌, [], ◌++◌, if◌then◌else◌, arith, Bool-cases,
  inl, inr, ◌⊎◌,
}
use mergebot.Bytes.{Bytes, bytes_eq, bytes_eq_refl}
use mergebot.Nodes.Defs.{
  SemanticNode, Class, func_def_node, func_operator_cast_node, func_special_member_node,
}
use mergebot.Semantic.{merge_text}
use mergebot.Semantic.Lists.{merge_text-ours, merge_text-theirs}
use mergebot.Merger.{done}
use mergebot.Merger.Fields.{
  merge_terminal, merge_texts, is_function, skips_signature, with_signature,
}
use mergebot.Merger.Ends.{terminal}
use mergebot.Printer.{signature_text, terminal_text, eols}

parts :
    (c c' s s' b b' e : Bytes)
    → c ≡ c'
    → s ≡ s'
    → b ≡ b'
    → c ++ (s ++ (b ++ e)) ≡ c' ++ (s' ++ (b' ++ e))
parts c c' s s' b b' e p q r = cc

-- A node with the texts of the base.
abbrev pub Unchanged : SemanticNode → SemanticNode → Type 0
Unchanged n b =
    (n.comment ≡ b.comment) × ((n.original_signature ≡ b.original_signature) × (n.body ≡ b.body))

module _ (git : Bytes → Bytes → Bytes → Bytes) where
  -- The text of a node of the class `c`, as it stands in its source, but for the newlines behind it.
  abbrev pub source_text : Class → SemanticNode → ℕ → Bytes
  source_text c n eol =
      n.comment
      ++ ((if is_function git c then n.original_signature else []) ++ (n.body ++ eols eol))

  signature_unchanged :
      (n : SemanticNode) (c : Class)
      → n.sig_unchanged ≡ true
      → is_function git c ≡ true
      → signature_text n c ≡ n.original_signature
  unfolding signature_text
  signature_unchanged n (func_def_node f) e h = rw (e, signature_text) refl
  signature_unchanged n (func_operator_cast_node f) e h = rw (e, signature_text) refl
  signature_unchanged n (func_special_member_node f) e h = rw (e, signature_text) refl
  signature_unchanged n c e h = ground arith

  no_signature :
      (n : SemanticNode) (c : Class) → is_function git c ≡ false → signature_text n c ≡ []
  unfolding signature_text
  no_signature n (func_def_node f) h = ground arith
  no_signature n (func_operator_cast_node f) h = ground arith
  no_signature n (func_special_member_node f) h = ground arith
  no_signature n c h = refl

  -- Where the merged texts are those of `r`, and a side has the base's signature.
  merged_text :
      (o b t r : SemanticNode)
      → terminal o ≡ true
      → terminal t ≡ true
      → skips_signature git o b t ≡ true
      → merge_text git o.comment b.comment t.comment ≡ r.comment
      → merge_text git o.original_signature b.original_signature t.original_signature
        ≡ r.original_signature
      → merge_text git o.body b.body t.body ≡ r.body
      → (n : SemanticNode) × ((merge_terminal git o b t ≡ done n)
          × (terminal_text n ≡ source_text b.class r o.following_eol))
  unfolding merge_terminal merge_texts terminal_text
  merged_text o b t r zo zt k ec es eb = elim (Bool-cases (is_function git b.class)) [
    | inl f ↦
        let n : SemanticNode =
          with_signature git o (record (merge_texts git o b t) { sig_unchanged = true }) t in
        (
          n,
          (
            rw (zo, zt, f, k, merge_terminal) refl,
            parts _ r.comment _ _ _ r.body (eols o.following_eol) ec
                (signature_unchanged n b.class refl f
                  ∙ (es ∙ ap (λ x. if x then r.original_signature else []) (sym f)))
                eb,
          ),
        )
    | inr f ↦
        let n : SemanticNode = with_signature git o (merge_texts git o b t) t in
        (
          n,
          (
            rw (zo, zt, f, merge_terminal) refl,
            parts _ r.comment _ _ _ r.body (eols o.following_eol) ec
                (no_signature n b.class f
                  ∙ ap (λ x. if x then r.original_signature else []) (sym f))
                eb,
          ),
        )
  ]

  same_ours : (o b t : Bytes) → o ≡ b → merge_text git o b t ≡ t
  same_ours o b t e = ap (λ x. merge_text git x b t) e ∙ merge_text-ours git b t

  same_theirs : (o b t : Bytes) → t ≡ b → merge_text git o b t ≡ o
  same_theirs o b t e = ap (merge_text git o b) e ∙ merge_text-theirs git o b

  signature_same : (x y : Bytes) → x ≡ y → bytes_eq y x ≡ true
  signature_same x y e = subst (λ z. bytes_eq y z ≡ true) (sym e) (bytes_eq_refl y)

  -- Where one side left the comment, the signature and the body of a terminal node as they are in the
  -- base, and the nodes of both sides are terminal, the merge of the node ends, and the text that is
  -- printed of it is that of the node `r` of the other side, whatever the merge of git does and into
  -- whatever parts the signature is split; behind it stand the newlines that our side has there.
  pub merge_terminal-one_side :
      (o b t r : SemanticNode)
      → terminal o ≡ true
      → terminal t ≡ true
      → (Unchanged o b × (r ≡ t)) ⊎ (Unchanged t b × (r ≡ o))
      → (n : SemanticNode) × ((merge_terminal git o b t ≡ done n)
          × (terminal_text n ≡ source_text b.class r o.following_eol))
  merge_terminal-one_side o b t r zo zt (inl ((c, (s, d)), e)) =
      merged_text o b t r zo zt
        (ap (λ x. x || bytes_eq b.original_signature t.original_signature)
          (signature_same o.original_signature b.original_signature s))
        (same_ours o.comment b.comment t.comment c ∙ ap (λ n. n.comment) (sym e))
        (same_ours o.original_signature b.original_signature t.original_signature s
          ∙ ap (λ n. n.original_signature) (sym e))
        (same_ours o.body b.body t.body d ∙ ap (λ n. n.body) (sym e))
  merge_terminal-one_side o b t r zo zt (inr ((c, (s, d)), e)) =
      let k = signature_same t.original_signature b.original_signature s in
      merged_text o b t r zo zt (ground arith)
        (same_theirs o.comment b.comment t.comment c ∙ ap (λ n. n.comment) (sym e))
        (same_theirs o.original_signature b.original_signature t.original_signature s
          ∙ ap (λ n. n.original_signature) (sym e))
        (same_theirs o.body b.body t.body d ∙ ap (λ n. n.body) (sym e))
