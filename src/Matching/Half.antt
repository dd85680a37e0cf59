-- ===== src/Matching/Half.antt =====
-- How many pairs a matcher over a graph can record.
use mergebot.Prelude.{
  ℕ, suc, ◌+◌, ◌*◌, ◌≤◌, ◌≡◌, refl, true, false, ◌&&◌, ◌||◌, not, List, [], ◌∷◌, ◌==◌, ltb, arith,
  length, Bool-cases, Option-cases, inl, inr, ◌⊎◌, ◌-◌, sym, subst, ap, ltb→lt,
}
use mergebot.Nodes.{Hashers}
use mergebot.Nodes.Defs.{Heap}
use mergebot.Matching.{Pair, insert_pair, signature}
use mergebot.Matching.Bimap.{in_nodes}
use mergebot.Matching.Matchers.{
  Work, Rules, Mates, erase_signature, record_pair, visit, adopt_mates, graph_match, element,
  parents_agree,
}

length-insert_pair : (p : Pair) (ps : List Pair) → length (insert_pair p ps) ≤ length ps + 1
unfolding insert_pair
length-insert_pair p ps = ground arith

module _ (hash : Hashers) (heap : Heap) where
  abbrev pub sig : ℕ → ℕ
  sig = signature hash heap

  -- No two nodes have one hash.
  abbrev pub DistinctSignatures : List ℕ → Type 0
  DistinctSignatures [] = Unit
  DistinctSignatures (p ∷ ps) = (in_nodes sig (sig p) ps ≡ false) × DistinctSignatures ps

  -- Every node of the first list is in the second.
  abbrev Waiting : List ℕ → List ℕ → Type 0
  Waiting [] bs = Unit
  Waiting (p ∷ ps) bs = (in_nodes sig (sig p) bs ≡ true) × Waiting ps bs

  length-erase_signature-le :
      (h : ℕ) (bs : List ℕ) → length (erase_signature hash heap h bs) ≤ length bs
  unfolding erase_signature
  length-erase_signature-le h [] = omega arith
  length-erase_signature-le h (b ∷ bs) = ground (arith, length-erase_signature-le h bs)

  length-erase_signature :
      (h : ℕ) (bs : List ℕ)
      → in_nodes sig h bs ≡ true
      → length (erase_signature hash heap h bs) + 1 ≤ length bs
  unfolding erase_signature
  length-erase_signature h [] e = ground arith
  length-erase_signature h (b ∷ bs) e =
      ground (arith, length-erase_signature h bs, length-erase_signature-le h bs)

  in_nodes-erase_signature :
      (k h : ℕ) (bs : List ℕ)
      → in_nodes sig k bs ≡ true
      → (k == h) ≡ false
      → in_nodes sig k (erase_signature hash heap h bs) ≡ true
  unfolding erase_signature
  in_nodes-erase_signature k h [] e d = e
  in_nodes-erase_signature k h (b ∷ bs) e d = ground (arith, in_nodes-erase_signature k h bs)

  erase-Waiting :
      (p : ℕ) (ps bs : List ℕ)
      → in_nodes sig (sig p) ps ≡ false
      → Waiting ps bs
      → Waiting ps (erase_signature hash heap (sig p) bs)
  erase-Waiting p [] bs e w = tt
  erase-Waiting p (q ∷ ps) bs e (here, w) = (
    in_nodes-erase_signature (sig q) (sig p) bs here (ground arith),
    erase-Waiting p ps bs (ground arith) w,
  )

  abbrev pub pairs : Work → ℕ
  pairs w = length w.matching.one_one_matching

  -- A round leaves the work alone, or it records one pair at most and takes the node out.
  record Round (p : ℕ) (w w' : Work) : Type 0 where
    nodes : w'.base_nodes ≡ erase_signature hash heap (sig p) w.base_nodes
    few : pairs w' ≤ pairs w + 1

  record_pair-Round :
      (rules : Rules) (p q : ℕ) (w : Work) → Round p w (record_pair hash heap rules p q w)
  unfolding record_pair
  record_pair-Round rules p q w = record {
    nodes = refl;
    few =
        length-insert_pair
          (record { base_hash = sig p; base_node = p; revision_hash = sig q; revision_node = q })
          w.matching.one_one_matching;
  }

  visit_cases :
      (rules : Rules) (mates : Mates) (revision : List ℕ) (i p : ℕ) (w : Work)
      → (visit hash heap rules mates revision i p w ≡ w)
        ⊎ Round p w (visit hash heap rules mates revision i p w)
  unfolding visit
  visit_cases rules mates revision i p w = elim (Option-cases (mates.mate i)) [
    | inl e ↦ inl (rw (e, visit) refl)
    | inr (j, e) ↦ elim (Option-cases (element revision j)) [
      | inl f ↦ inl (rw (e, f, visit) refl)
      | inr (q, f) ↦
          elim (Bool-cases (
            mates.similar p q
            && (not rules.checks_parents || parents_agree hash heap w.refactored_types p q))) [
              | inl g ↦ inr (rw (e, f, g, visit) (record_pair-Round rules p q w))
              | inr g ↦ inl (rw (e, f, g, visit) refl)
            ]
    ]
  ]

  adopt_mates_le :
      (rules : Rules) (mates : Mates) (revision : List ℕ) (i : ℕ) (ps : List ℕ) (w : Work)
      → DistinctSignatures ps
      → Waiting ps w.base_nodes
      → 2 * pairs (adopt_mates hash heap rules mates revision i ps w)
        ≤ 2 * pairs w + (suc (length w.base_nodes) - i)
  unfolding adopt_mates
  adopt_mates_le rules mates revision i [] w d h = omega arith
  adopt_mates_le rules mates revision i (p ∷ ps) w (e, d) (here, h) =
      let w' = visit hash heap rules mates revision i p w in
      elim (Bool-cases (ltb i (length w.base_nodes))) [
        | inr stop ↦ rw (stop, adopt_mates) (omega arith)
        | inl more ↦
            rw (more, adopt_mates)
              (elim (visit_cases rules mates revision i p w) [
                | inl same ↦
                    subst
                      (λ v.
                        2 * pairs (adopt_mates hash heap rules mates revision (suc i) ps v)
                        ≤ 2 * pairs w + (suc (length w.base_nodes) - i))
                      (sym same)
                      (omega (arith, adopt_mates_le rules mates revision (suc i) ps w d h))
                | inr r ↦
                    let h' : Waiting ps w'.base_nodes =
                      subst (λ bs. Waiting ps bs) (sym r.nodes)
                        (erase-Waiting p ps w.base_nodes e h) in
                    let rest = adopt_mates_le rules mates revision (suc i) ps w' d h' in
                    let shorter = length-erase_signature (sig p) w.base_nodes here in
                    let l = ap length r.nodes in
                    let few = r.few in let below = ltb→lt _ _ more in omega arith
              ])
      ]

  Waiting-cons : (q : ℕ) (ps bs : List ℕ) → Waiting ps bs → Waiting ps (q ∷ bs)
  Waiting-cons q [] bs w = tt
  Waiting-cons q (p ∷ ps) bs (here, w) = (ground arith, Waiting-cons q ps bs w)

  Waiting-self : (ps : List ℕ) → Waiting ps ps
  Waiting-self [] = tt
  Waiting-self (p ∷ ps) = (ground arith, Waiting-cons p ps ps (Waiting-self ps))

  -- Of base nodes with different hashes, a matcher over a graph pairs one half at most, rounded up,
  -- whatever mates the graph gives: its loop is bounded by the size of the vector out of which it
  -- takes the paired nodes.
  pub graph_match-half :
      (rules : Rules) (mates : Mates) (w : Work)
      → DistinctSignatures w.base_nodes
      → 2 * pairs (graph_match hash heap rules mates w) ≤ 2 * pairs w + (length w.base_nodes + 1)
  unfolding graph_match
  graph_match-half rules mates w d = omega (
    arith,
    adopt_mates_le rules mates w.revision_nodes 0 w.base_nodes w d (Waiting-self w.base_nodes),
  )
