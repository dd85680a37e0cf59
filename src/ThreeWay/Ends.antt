-- ===== src/ThreeWay/Ends.antt =====
-- The merge of all translation units ends, and leaves the graphs of both sides as they are.
use mergebot.Prelude.{
  ℕ, ◌≡◌, ◌<◌, ◌≤◌, Bool, true, Option, none, some, List, [], ◌∷◌, arith, All, length,
  length-append,
}
use mergebot.Nodes.Defs.{Heap}
use mergebot.Printer.{TuText}
use mergebot.Merger.{Run, done, bad_cast, out_of_fuel, Setting}
use mergebot.Merger.Children.{merge_semantic_node}
use mergebot.Merger.Frame.{OwnsAll, Agrees}
use mergebot.Merger.Merged.{own_matching}
use mergebot.Merger.Ends.{Ends, Ends-bind, Steady}
use mergebot.Merger.Termination.{Unrenamed, Ranked}
use mergebot.Merger.Terminates.{merge_semantic_node-Ends, start-Steady}
use mergebot.ThreeWay.{ThreeWayMapping, three_way_merge, text_of_kept}

text_of_kept_le : (d : ℕ) (h : Heap) (p : Option ℕ) → length (text_of_kept d h p) ≤ 1
text_of_kept_le d h none = omega arith
text_of_kept_le d h (some p) = omega arith

Ends-weaken :
    {A : Type 0} (P Q : A → Type 0) (m : Run A) → ((a : A) → P a → Q a) → Ends P m → Ends Q m
Ends-weaken P Q (done a) k e = k a e
Ends-weaken P Q bad_cast k e = tt
Ends-weaken P Q out_of_fuel k e = e

-- What a merge that is done leaves.
abbrev pub Left : (ℕ → Bool) → Setting → Heap → List ThreeWayMapping → Heap × List TuText → Type 0
Left owned s start ms r = Steady owned s start r.0 × (length r.1 ≤ length ms)

module _ (owned : ℕ → Bool) (s : Setting) (owns : OwnsAll owned s) (start : Heap) (rank : ℕ → ℕ)
    (our : Unrenamed owned s start s.our_matching.one_one_matching)
    (their : Unrenamed owned s start s.their_matching.one_one_matching)
    (ranked : Ranked owned s start rank (own_matching s).one_one_matching) where
  three_way_merge-Ends' :
      (fuel depth : ℕ) (h : Heap) (ms : List ThreeWayMapping)
      → Steady owned s start h
      → All (λ m. (owned m.base_node ≡ true) × (rank m.base_node < fuel)) ms
      → Ends (Left owned s start ms) (three_way_merge s fuel depth h ms)
  unfolding three_way_merge
  three_way_merge-Ends' fuel depth h [] g w = (g, omega arith)
  three_way_merge-Ends' fuel depth h (m ∷ ms) g ((o, l), w) =
      Ends-bind _ (Left owned s start (m ∷ ms)) (merge_semantic_node s fuel h m.base_node) _
        (merge_semantic_node-Ends owned s owns start rank our their ranked fuel h m.base_node g o l)
        (λ r k.
          Ends-bind (Left owned s start ms) (Left owned s start (m ∷ ms))
            (three_way_merge s fuel depth r.0 ms) _ (three_way_merge-Ends' fuel depth r.0 ms k.0 w)
            (λ q v. (
              v.0,
              omega (
                arith,
                length-append (text_of_kept depth r.0 r.1) q.1,
                text_of_kept_le depth r.0 r.1,
                v.1,
              ),
            )))

  -- The merge of translation units, each with more fuel than the rank of its node, does not run out of
  -- fuel, and if no cast fails, it leaves every node that is no base node as it was, and there is at
  -- most one text for each unit. The conditions are those of the merge of a node: only base nodes are
  -- the left of the matchings, no partner of a composite base node is a base node or has another
  -- name, and the children of its partner on the side that gives the order are no base nodes and are
  -- matched, if at all, to base nodes of a lower rank.
  pub three_way_merge-Ends :
      (fuel depth : ℕ) (ms : List ThreeWayMapping)
      → All (λ m. (owned m.base_node ≡ true) × (rank m.base_node < fuel)) ms
      → Ends
          (λ r. Agrees owned start r.0 × (length r.1 ≤ length ms))
          (three_way_merge s fuel depth start ms)
  three_way_merge-Ends fuel depth ms w =
      Ends-weaken (Left owned s start ms) _ (three_way_merge s fuel depth start ms)
        (λ r k. (k.0.others, k.1))
        (three_way_merge-Ends' fuel depth start ms (start-Steady owned s start) w)
