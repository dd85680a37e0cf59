-- ===== src/Merger/Ends.antt =====
-- What a merge of nodes keeps on the heap, whatever it is asked for.
use mergebot.Prelude.{
  ℕ, ◌≡◌, refl, Bool, true, false, ◌==◌, arith, Bool-cases, inl, inr, ◌∙◌, subst, sym, ==_iff,
}
use mergebot.Bytes.{Bytes}
use mergebot.Nodes.{hash_signature}
use mergebot.Nodes.Defs.{
  SemanticNode, Heap, Class, func_def_node, func_operator_cast_node, func_special_member_node,
  get_kind, is_terminal, class_kind_of,
}
use mergebot.Merger.{Run, done, bad_cast, out_of_fuel, ◌>>=◌, Setting, write}
use mergebot.Merger.Fields.{
  merge_terminal, merge_texts, merge_signature_parts, is_function, skips_signature, with_signature,
}
use mergebot.Merger.Children.{sig_in}
use mergebot.Merger.Frame.{Agrees}

-- A run ends, and what it leaves fulfils `P`, if it does not meet a node of the wrong class.
abbrev pub Ends {ℓ} : {A : Type ℓ} → (A → Type 0) → Run A → Type 0
Ends P (done a) = P a
Ends P bad_cast = Unit
Ends P out_of_fuel = ⊥

pub Ends-bind {ℓ κ} :
    {A : Type ℓ} {B : Type κ} (P : A → Type 0) (Q : B → Type 0) (m : Run A) (f : A → Run B)
    → Ends P m
    → ((a : A) → P a → Ends Q (f a))
    → Ends Q (m >>= f)
Ends-bind P Q (done a) f e k = k a e
Ends-bind P Q bad_cast f e k = tt
Ends-bind P Q out_of_fuel f e k = e

abbrev pub terminal : SemanticNode → Bool
terminal n = is_terminal (get_kind n)

parts_terminal :
    (git : Bytes → Bytes → Bytes → Bytes) (body : Bytes) (o b t : Class)
    → is_function git b ≡ true
    → Ends (λ c. is_terminal (class_kind_of c) ≡ true) (merge_signature_parts git body o b t)
unfolding merge_signature_parts
parts_terminal git body (func_def_node o) (func_def_node b) (func_def_node t) h = refl
parts_terminal git body (func_special_member_node o) (func_special_member_node b)
      (func_special_member_node t) h =
    refl
parts_terminal git body (func_operator_cast_node o) (func_operator_cast_node b)
      (func_operator_cast_node t) h =
    refl
parts_terminal git body o b t h = ground arith

pub merge_terminal-Ends :
    (git : Bytes → Bytes → Bytes → Bytes) (o b t : SemanticNode)
    → terminal b ≡ true
    → Ends (λ n. terminal n ≡ true) (merge_terminal git o b t)
unfolding merge_terminal merge_texts
merge_terminal-Ends git o b t h = elim (Bool-cases (terminal o)) [
  | inr e ↦ rw (e, merge_terminal) tt
  | inl e ↦ elim (Bool-cases (terminal t)) [
    | inr f ↦ rw (e, f, merge_terminal) tt
    | inl f ↦ elim (Bool-cases (is_function git b.class)) [
      | inr g ↦ rw (e, f, g, merge_terminal) h
      | inl g ↦ elim (Bool-cases (skips_signature git o b t)) [
        | inl k ↦ rw (e, f, g, k, merge_terminal) h
        | inr k ↦
            let merged = merge_texts git o b t in
            rw (e, f, g, k, merge_terminal)
              (Ends-bind (λ c. is_terminal (class_kind_of c) ≡ true) (λ n. terminal n ≡ true)
                (merge_signature_parts git merged.body o.class b.class t.class)
                (λ c. done (with_signature git o (record merged { class = c }) t))
                (parts_terminal git merged.body o.class b.class t.class g) (λ c w. w))
      ]
    ]
  ]
]

-- What holds on the heap during a merge that began on `start`: nodes of other graphs are as they were;
-- a base node is terminal if it was, and if it is not, it has its name and its hash.
pub record Steady (owned : ℕ → Bool) (s : Setting) (start h : Heap) : Type 0 where
  pub others : Agrees owned start h
  pub kinds : (b : ℕ) → owned b ≡ true → terminal (h b) ≡ terminal (start b)
  pub kept_names :
      (b : ℕ)
      → owned b ≡ true
      → terminal (start b) ≡ false
      → (h b).qualified_name ≡ (start b).qualified_name
  pub hashes :
      (b : ℕ) → owned b ≡ true → terminal (start b) ≡ false → sig_in s h b ≡ sig_in s start b

-- A base node replaced by one that keeps these.
pub write-Steady :
    (owned : ℕ → Bool) (s : Setting) (start h : Heap) (b : ℕ) (n : SemanticNode)
    → owned b ≡ true
    → terminal n ≡ terminal (h b)
    → (terminal (start b) ≡ false → n.qualified_name ≡ (h b).qualified_name)
    → (terminal (start b) ≡ false → hash_signature s.hash n ≡ sig_in s h b)
    → Steady owned s start h
    → Steady owned s start (write b n h)
write-Steady owned s start h b n o k q g w = record {
  others = λ c f.
      let a = w.others c f in
      elim (Bool-cases (b == c)) [ inl e ↦ absurd (ground arith) | inr e ↦ rw e a ];
  kinds = λ c f. elim (Bool-cases (b == c)) [
    | inl e ↦
        rw e (subst (λ d. terminal n ≡ terminal (start d)) ((==_iff b c).0 e) (k ∙ w.kinds b o))
    | inr e ↦ rw e (w.kinds c f)
  ];
  kept_names = λ c f z. elim (Bool-cases (b == c)) [
    | inl e ↦
        let same = (==_iff b c).0 e in
        let z' = subst (λ d. terminal (start d) ≡ false) (sym same) z in
        rw e (
          subst (λ d. n.qualified_name ≡ (start d).qualified_name) same
            (q z' ∙ w.kept_names b o z'))
    | inr e ↦ rw e (w.kept_names c f z)
  ];
  hashes = λ c f z. elim (Bool-cases (b == c)) [
    | inl e ↦
        let same = (==_iff b c).0 e in
        let z' = subst (λ d. terminal (start d) ≡ false) (sym same) z in
        rw e (subst (λ d. hash_signature s.hash n ≡ sig_in s start d) same (g z' ∙ w.hashes b o z'))
    | inr e ↦ rw e (w.hashes c f z)
  ];
}
