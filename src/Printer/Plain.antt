-- ===== src/Printer/Plain.antt =====
-- Printing a node, against its text part by part.
use mergebot.Prelude.{
  ℕ, zero, suc, ◌≡◌, ◌<◌, refl, sym, ap, ◌∙◌, false, Option, some, List, [], ◌∷◌, ◌++◌, Bool-cases,
  inl, inr, All, arith, append-nil,
}
use mergebot.Bytes.{Bytes, codes}
use mergebot.Bytes.Lines.{newline}
use mergebot.Nodes.Defs.{SemanticNode, Heap, AccessSpecifierKind, no_access, get_kind, is_terminal}
use mergebot.Printer.{
  children_text, members_text, composite_text, terminal_text, pretty_print_node, is_unit, eols,
  column_of, collapse_count, signature_text, behind_brace,
}
use mergebot.Printer.Indent.{indent_code_lines}
use mergebot.Printer.Spaces.{
  without_spaces, without_spaces-append, without_spaces-indent_code_lines,
}
use mergebot.Printer.Parts.{
  concat, newlines, signature_parts, suffix, Subject, node, children_of, members_of, Spells,
  terminal, unit, composite, no_child, child, no_member, member, first_member,
}
use mergebot.Printer.PartTexts.{
  newlines-eols, suffix-behind_brace, concat-signature_parts, section_cases,
}

-- Printing gave a text, which is that of the subject but for spaces.
abbrev pub Printed : Heap → Subject → Option Bytes → Type 0
Printed heap w r =
    (text spec : Bytes) × (r ≡ some text)
    × Spells heap w spec
    × (without_spaces text ≡ without_spaces spec)

-- The children of every node have a lower rank.
abbrev pub Graded : Heap → (ℕ → ℕ) → Type 0
Graded heap rank = (p : ℕ) → All (λ c. rank c < rank p) (heap p).children

-- Texts that are the same but for spaces stay so between others.
around :
    (front a b behind : Bytes)
    → without_spaces a ≡ without_spaces b
    → without_spaces (front ++ (a ++ behind)) ≡ without_spaces (front ++ (b ++ behind))
around front a b behind e =
    without_spaces-append front (a ++ behind)
    ∙ (ap (λ x. without_spaces front ++ x)
          (without_spaces-append a behind
            ∙ (ap (λ x. x ++ without_spaces behind) e ∙ sym (without_spaces-append b behind)))
        ∙ sym (without_spaces-append front (b ++ behind)))

both_parts :
    (a b c d : Bytes)
    → without_spaces a ≡ without_spaces b
    → without_spaces c ≡ without_spaces d
    → without_spaces (a ++ c) ≡ without_spaces (b ++ d)
both_parts a b c d e f =
    without_spaces-append a c
    ∙ (ap (λ x. x ++ without_spaces c) e
        ∙ (ap (λ x. without_spaces b ++ x) f ∙ sym (without_spaces-append b d)))

module _ (print : ℕ → Option Bytes) (heap : Heap) where
  children_text-Printed :
      (ps : List ℕ)
      → All (λ c. Printed heap (node c) (print c)) ps
      → Printed heap (children_of ps) (children_text print heap ps)
  unfolding children_text
  children_text-Printed [] w = ([], [], refl, no_child, refl)
  children_text-Printed (p ∷ ps) ((t, x, e, s, q), w) =
      let (t', x', e', s', q') = children_text-Printed ps w in
      (t ++ t', x ++ x', rw (e, e', children_text) refl, child s s', both_parts t x t' x' q q')

  members_text-Printed :
      (prev : AccessSpecifierKind) (ps : List ℕ)
      → All (λ c. Printed heap (node c) (print c)) ps
      → Printed heap (members_of prev ps) (members_text print heap prev ps)
  unfolding members_text
  members_text-Printed prev [] w = ([], [], refl, no_member, refl)
  members_text-Printed prev (p ∷ ps) ((t, x, e, s, q), w) =
      let access = (heap p).access_specifier in
      elim (section_cases prev access) [
        | inl (why, same) ↦
            let (t', x', e', s', q') = members_text-Printed prev ps w in
            (
              t ++ t',
              x ++ x',
              rw (e, same, e', same, members_text) refl,
              member why s s',
              both_parts t x t' x' q q',
            )
        | inr (title, named, other, starts, name) ↦
            let (t', x', e', s', q') = members_text-Printed access ps w in
            (
              (title ++ newline ∷ []) ++ (t ++ t'),
              (title ++ newline ∷ []) ++ (x ++ x'),
              rw (e, starts, e', starts, name, members_text) refl,
              first_member title named other s s',
              both_parts (title ++ newline ∷ []) (title ++ newline ∷ []) (t ++ t') (x ++ x') refl
                  (both_parts t x t' x' q q'),
            )
      ]

  composite_text-Printed :
      (p : ℕ)
      → is_terminal (get_kind (heap p)) ≡ false
      → All (λ c. Printed heap (node c) (print c)) (heap p).children
      → Printed heap (node p) (composite_text print heap (heap p))
  unfolding composite_text
  composite_text-Printed p k w =
      let n = heap p in
      elim (Bool-cases (is_unit n.class)) [
        | inl u ↦
            let (t, x, e, s, q) = children_text-Printed n.children w in
            (
              eols n.before_first_child_eol ++ t,
              newlines n.before_first_child_eol ++ x,
              rw (u, e, composite_text) refl,
              unit p k u s,
              rw (newlines-eols n.before_first_child_eol)
                  (both_parts (eols n.before_first_child_eol) _ t x refl q),
            )
        | inr u ↦
            let (t, x, e, s, q) = members_text-Printed no_access n.children w in
            let tail : Bytes → Bytes =
              λ b. b'}' ∷ b ++ (eols n.following_eol ++ newline ∷ newline ∷ []) in
            let front : Bytes → Bytes = λ b. n.comment ++ (n.original_signature ++ b) in
            (
              front (b'{' ∷ eols n.before_first_child_eol ++ (t ++ tail (behind_brace n.class))),
              concat (
                  n.comment
                  ∷ n.original_signature
                  ∷ codes "{"
                  ∷ newlines n.before_first_child_eol
                  ∷ x
                  ∷ codes "}"
                  ∷ suffix n.class
                  ∷ newlines n.following_eol
                  ∷ codes "\n\n"
                  ∷ []),
              rw (u, e, composite_text) refl,
              composite p k u s,
              rw
                  (
                    newlines-eols n.before_first_child_eol,
                    newlines-eols n.following_eol,
                    suffix-behind_brace n.class,
                  )
                  (both_parts n.comment n.comment _ _ refl (
                    both_parts n.original_signature n.original_signature _ _ refl
                      (around (b'{' ∷ eols n.before_first_child_eol) t x _ q))),
            )
      ]

terminal-same :
    (n : SemanticNode)
    → concat
        (n.comment ∷ concat (signature_parts n n.class) ∷ n.body ∷ newlines n.following_eol ∷ [])
      ≡ terminal_text n
unfolding terminal_text
terminal-same n =
    ap (λ l. n.comment ++ (l ++ (n.body ++ (newlines n.following_eol ++ []))))
      (concat-signature_parts n n.class)
    ∙ ap (λ l. n.comment ++ (signature_text n n.class ++ (n.body ++ l)))
        (append-nil (newlines n.following_eol) ∙ newlines-eols n.following_eol)

children-Printed :
    (print : ℕ → Option Bytes) (heap : Heap) (rank : ℕ → ℕ) (fuel bound : ℕ) (ps : List ℕ)
    → ((c : ℕ) → rank c < fuel → Printed heap (node c) (print c))
    → bound < suc fuel
    → All (λ c. rank c < bound) ps
    → All (λ c. Printed heap (node c) (print c)) ps
children-Printed print heap rank fuel bound [] k h w = tt
children-Printed print heap rank fuel bound (p ∷ ps) k h (l, w) =
    (k p (omega arith), children-Printed print heap rank fuel bound ps k h w)

-- More fuel than the rank of a node prints it, when the children of every node have a lower rank, and
-- what is printed is, but for spaces, the text of its parts: for a terminal node the comment, the
-- signature, the body and the line ends behind it; for a unit the line ends before its first child
-- and the texts of its children; for any other node the comment, the signature, an opening brace,
-- the line ends before its first child, the texts of its members with the access specifier in front
-- of each section, a closing brace with what belongs to it, the line ends behind it and two more.
pub pretty_print_node-Printed :
    (heap : Heap) (rank : ℕ → ℕ) (fuel p : ℕ)
    → Graded heap rank
    → rank p < fuel
    → Printed heap (node p) (pretty_print_node heap fuel p)
unfolding pretty_print_node
pretty_print_node-Printed heap rank zero p graded h = absurd (ground arith)
pretty_print_node-Printed heap rank (suc fuel) p graded h =
    let n = heap p in
    elim (Bool-cases (is_terminal (get_kind n))) [
      | inl k ↦ (
        _,
        _,
        rw (k, pretty_print_node) refl,
        terminal p k,
        without_spaces-indent_code_lines (terminal_text n) (column_of n)
              (collapse_count (terminal_text n))
            ∙ ap without_spaces (sym (terminal-same n)),
      )
      | inr k ↦
          let (t, x, e, s, q) = composite_text-Printed (pretty_print_node heap fuel) heap p k (
            children-Printed (pretty_print_node heap fuel) heap rank fuel (rank p) n.children
              (λ c l. pretty_print_node-Printed heap rank fuel c graded l) h (graded p)) in
          (
            indent_code_lines t (column_of n) 0,
            x,
            rw (k, e, pretty_print_node) refl,
            s,
            without_spaces-indent_code_lines t (column_of n) 0 ∙ q,
          )
    ]
