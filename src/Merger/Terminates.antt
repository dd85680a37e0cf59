-- ===== src/Merger/Terminates.antt =====
-- Enough fuel for the merge of a node.
use mergebot.Prelude.{
  ℕ, zero, suc, ◌≡◌, ◌≢◌, ◌<◌, refl, Bool, true, some, arith, Bool-cases, Option-cases, inl, inr,
  subst, List, [], ◌∷◌,
}
use mergebot.Nodes.Defs.{Heap}
use mergebot.Matching.{TwoWayMatching, Pair, left_at}
use mergebot.Semantic.{OrderInfavour, in_ours, in_theirs}
use mergebot.Merger.{out_of_fuel, Setting}
use mergebot.Merger.Children.{merge_semantic_node, sig_in}
use mergebot.Merger.Frame.{OwnsAll}
use mergebot.Merger.Merged.{choose, own_matching}
use mergebot.Merger.Ends.{Ends, terminal, Steady}
use mergebot.Merger.Termination.{Unrenamed, Ranked, Left, Low, composite-Ends, terminal-Ends}

chosen :
    (f : OrderInfavour) (k o t : ℕ) (our their : TwoWayMatching)
    → left_at k our.one_one_matching ≡ some o
    → left_at k their.one_one_matching ≡ some t
    → left_at k (choose f our their).one_one_matching ≡ some (choose f o t)
chosen in_ours k o t our their e g = e
chosen in_theirs k o t our their e g = g

pub start-Steady : (owned : ℕ → Bool) (s : Setting) (start : Heap) → Steady owned s start start
start-Steady owned s start = record {
  others = λ c f. refl;
  kinds = λ b o. refl;
  kept_names = λ b o z. refl;
  hashes = λ b o z. refl;
}

Low-weaken :
    (owned : ℕ → Bool) (s : Setting) (start : Heap) (rank : ℕ → ℕ) (n f : ℕ) (ps : List Pair)
    (cs : List ℕ)
    → n < suc f
    → Low owned s start rank n ps cs
    → Low owned s start rank f ps cs
Low-weaken owned s start rank n f ps [] h w = tt
Low-weaken owned s start rank n f ps (c ∷ cs) h ((k, low), w) =
    ((k, λ d e. let below = low d e in omega arith), Low-weaken owned s start rank n f ps cs h w)

module _ (owned : ℕ → Bool) (s : Setting) (owns : OwnsAll owned s) (start : Heap) (rank : ℕ → ℕ)
    (our : Unrenamed owned s start s.our_matching.one_one_matching)
    (their : Unrenamed owned s start s.their_matching.one_one_matching)
    (ranked : Ranked owned s start rank (own_matching s).one_one_matching) where
  pub merge_semantic_node-Ends :
      (fuel : ℕ) (h : Heap) (b : ℕ)
      → Steady owned s start h
      → owned b ≡ true
      → rank b < fuel
      → Ends (Left owned s owns start b) (merge_semantic_node s fuel h b)
  unfolding merge_semantic_node
  merge_semantic_node-Ends zero h b g k r = absurd (ground arith)
  merge_semantic_node-Ends (suc f) h b g k r =
      elim (Option-cases (left_at (sig_in s h b) s.our_matching.one_one_matching)) [
        | inl e ↦ rw (e, merge_semantic_node) (g, inl refl)
        | inr (o, e) ↦
            elim (Option-cases (left_at (sig_in s h b) s.their_matching.one_one_matching)) [
              | inl e' ↦ rw (e, e', merge_semantic_node) (g, inl refl)
              | inr (t, e') ↦
                  rw (e, e', merge_semantic_node)
                    (elim (Bool-cases (terminal (start b))) [
                      | inl z ↦
                          terminal-Ends owned s owns start (merge_semantic_node s f) f rank
                            (λ h' d g' k' r'. merge_semantic_node-Ends f h' d g' k' r') h o b t g k
                            z
                      | inr z ↦
                          let there = λ (ps : List Pair) (n : ℕ).
                            subst (λ x. left_at x ps ≡ some n) (g.hashes b k z) in
                          let own =
                            chosen s.order_in_favour _ o t s.our_matching s.their_matching e e' in
                          composite-Ends owned s owns start (merge_semantic_node s f) f rank
                            (λ h' d g' k' r'. merge_semantic_node-Ends f h' d g' k' r') h o b t g k
                            z (our b o k z (there _ o e)) (their b t k z (there _ t e'))
                            (Low-weaken owned s start rank (rank b) f _ _ (r)
                              (ranked b _ k z (there _ _ own)))
                    ])
            ]
      ]

  -- The merge of a base node with more fuel than its rank does not run out of fuel, if only base
  -- nodes are the left of the matchings, no partner of a composite base node is a base node or has
  -- another name, and the children of its partner on the side that gives the order are no base nodes
  -- and are matched, if at all, to base nodes of a lower rank.
  pub merge_semantic_node-ends :
      (fuel b : ℕ)
      → owned b ≡ true
      → rank b < fuel
      → merge_semantic_node s fuel start b ≢ out_of_fuel
  merge_semantic_node-ends fuel b k r e =
      subst (Ends (Left owned s owns start b)) e
        (merge_semantic_node-Ends fuel start b (start-Steady owned s start) k r)
