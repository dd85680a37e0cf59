-- ===== src/Merger/Tests.antt =====
-- Merges of the sample graphs.
use mergebot.Prelude.{ℕ, ◌≡◌, ◌≢◌, arith, refl, List, [], ◌∷◌}
use mergebot.Bytes.{codes}
use mergebot.Nodes.{hash_signature}
use mergebot.Nodes.Defs.{Heap}
use mergebot.Nodes.Samples.{sample_hash, sample_namespace}
use mergebot.Matching.{top_down_match}
use mergebot.Semantic.{in_ours, in_theirs}
use mergebot.Merger.{Run, done, bad_cast, out_of_fuel, Setting}
use mergebot.Merger.Children.{direct_merge_children, merge_semantic_node}
use mergebot.Merger.Terminates.{merge_semantic_node-ends}
use mergebot.Merger.Merged.{own_matching, Merged}
use mergebot.Merger.Samples.{
  three_graphs, same_names, base_graph, sides, base_ids, owns_sample, ranks, ours_there,
  theirs_there, at_namespace, Named, Lowered, lowered,
}

abbrev heap_of {ℓ} : {A : Type ℓ} → Run (Heap × A) → Heap
heap_of (done (h, a)) = h
heap_of bad_cast = same_names
heap_of out_of_fuel = same_names

abbrev children_of : ℕ → Heap → List ℕ
children_of p h = (h p).children

-- Our order: f, our x, and their y behind; g is deleted.
merged_in_our_order :
    children_of 0 (heap_of (merge_semantic_node (sides in_ours) 2 same_names 0)) ≡ 1 ∷ 13 ∷ 23 ∷ []
unfolding merge_semantic_node top_down_match hash_signature
merged_in_our_order = refl

-- Their order: our x stands behind f.
merged_in_their_order :
    children_of 0 (heap_of (merge_semantic_node (sides in_theirs) 2 same_names 0))
    ≡ 1 ∷ 13 ∷ 23 ∷ []
unfolding merge_semantic_node top_down_match hash_signature
merged_in_their_order = refl

-- Our side renames the namespace, and the matchings pair it by similarity: the base node gets the
-- new name first, under which their matching has no partner, so their y is lost.
abbrev renamed : Heap
renamed = three_graphs sample_namespace (codes "nt")

abbrev with_renamed : Setting
with_renamed = record (sides in_ours) {
  our_matching = record (sides in_ours).our_matching {
    one_one_matching =
        record {
          base_hash = hash_signature sample_hash (renamed 0);
          base_node = 0;
          revision_hash = hash_signature sample_hash (renamed 10);
          revision_node = 10;
        }
        ∷ record {
          base_hash = hash_signature sample_hash (renamed 1);
          base_node = 1;
          revision_hash = hash_signature sample_hash (renamed 11);
          revision_node = 11;
        }
        ∷ [];
  };
  their_matching = top_down_match sample_hash renamed base_graph (20 ∷ 21 ∷ 22 ∷ 23 ∷ []);
}

rename_loses : children_of 0 (heap_of (merge_semantic_node with_renamed 2 renamed 0)) ≡ 1 ∷ 13 ∷ []
unfolding merge_semantic_node top_down_match hash_signature
rename_loses = refl

abbrev merged_heap : Heap
merged_heap = heap_of (
    direct_merge_children (sides in_ours) (merge_semantic_node (sides in_ours) 1) same_names 10 0
      20)

merge_semantic_node-ends_example : merge_semantic_node (sides in_ours) 2 same_names 0 ≢ out_of_fuel
merge_semantic_node-ends_example =
    merge_semantic_node-ends base_ids (sides in_ours) owns_sample same_names ranks
      (at_namespace Named 10 (sides in_ours).our_matching.one_one_matching ours_there (refl, refl))
      (at_namespace Named 20 (sides in_ours).their_matching.one_one_matching theirs_there
        (refl, refl))
      (at_namespace Lowered 10 (own_matching (sides in_ours)).one_one_matching ours_there lowered) 2
      0 refl (ground arith)
