-- ===== src/ThreeWay/Tests.antt =====
-- The match and the merge of the sample graphs.
use mergebot.Prelude.{
  ◌≡◌, ◌≤◌, refl, true, false, Option, none, some, List, [], ◌∷◌, arith, length, inl,
}
use mergebot.Bytes.{Bytes, codes}
use mergebot.Nodes.{hash_signature}
use mergebot.Nodes.Defs.{SemanticNode, Heap}
use mergebot.Nodes.Samples.{sample_hash}
use mergebot.Matching.{TwoWayMatching, top_down_match}
use mergebot.Matching.BottomUp.{Oracle}
use mergebot.Semantic.{in_ours}
use mergebot.Merger.{Run, done, bad_cast, out_of_fuel}
use mergebot.Merger.Ends.{Ends}
use mergebot.Merger.Fields.{merge_terminal}
use mergebot.Merger.Frame.{Agrees}
use mergebot.Merger.Merged.{own_matching}
use mergebot.Merger.Samples.{
  same_names, base_graph, sides, base_ids, owns_sample, ranks, ours_there, theirs_there,
  at_namespace, Named, Lowered, lowered,
}
use mergebot.Printer.{TuText, written}
use mergebot.ThreeWay.{ThreeWayMapping, three_way_match, three_way_merge}
use mergebot.Printer.{terminal_text}
use mergebot.ThreeWay.OneSide.{source_text, merge_terminal-one_side}
use mergebot.ThreeWay.Ends.{three_way_merge-Ends}

abbrev no_mates : Oracle
no_mates = record {
  mates = λ k ps qs. record { mate = λ i. none; similar = λ p q. false };
  enum_is_matched = λ a b. true;
}

abbrev one_mapping : List ThreeWayMapping
one_mapping = record { our_node = some 10; base_node = 0; their_node = some 20 } ∷ []

abbrev texts_of : Run (Heap × List TuText) → List TuText
texts_of (done (h, texts)) = texts
texts_of bad_cast = []
texts_of out_of_fuel = []

abbrev mappings_in :
    Option (TwoWayMatching × TwoWayMatching × List ThreeWayMapping) → List ThreeWayMapping
mappings_in none = []
mappings_in (some (our, their, ms)) = ms

-- Of the three base nodes the unit is mapped, to its partners.
maps_the_unit :
    mappings_in (
      three_way_match sample_hash same_names
        (λ ps. ps)
        no_mates
        no_mates
        (10 ∷ 11 ∷ 13 ∷ [])
        base_graph
        (20 ∷ 21 ∷ 22 ∷ 23 ∷ []))
    ≡ one_mapping
unfolding three_way_match hash_signature top_down_match
maps_the_unit = refl

-- The merged unit has f, our x and their y.
merged_text :
    texts_of (three_way_merge (sides in_ours) 2 2 same_names one_mapping)
    ≡ written (codes "\n\nff\nvoidx()x\nvoidy()y\n") ∷ []
unfolding three_way_merge top_down_match hash_signature
merged_text = refl

three_way_merge-Ends_example :
    Ends
      (λ r. Agrees base_ids same_names r.0 × (length r.1 ≤ length one_mapping))
      (three_way_merge (sides in_ours) 2 2 same_names one_mapping)
three_way_merge-Ends_example =
    three_way_merge-Ends base_ids (sides in_ours) owns_sample same_names ranks
      (at_namespace Named 10 (sides in_ours).our_matching.one_one_matching ours_there (refl, refl))
      (at_namespace Named 20 (sides in_ours).their_matching.one_one_matching theirs_there
        (refl, refl))
      (at_namespace Lowered 10 (own_matching (sides in_ours)).one_one_matching ours_there lowered) 2
      2 one_mapping ((refl, ground arith), tt)

abbrev conflicting : Bytes → Bytes → Bytes → Bytes
conflicting our_text base_text their_text = codes "conflict"

-- Their side changed the body of f.
abbrev changed_there : SemanticNode
changed_there = record (same_names 21) { body = codes " { return; }" }

merge_terminal-one_side_example :
    (n : SemanticNode) × ((merge_terminal conflicting (same_names 11) (same_names 1) changed_there
        ≡ done n)
      × (terminal_text n ≡ source_text conflicting (same_names 1).class changed_there 1))
merge_terminal-one_side_example =
    merge_terminal-one_side conflicting (same_names 11) (same_names 1) changed_there changed_there
      refl refl (inl ((refl, (refl, refl)), refl))
