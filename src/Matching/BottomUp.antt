-- ===== src/Matching/BottomUp.antt =====
-- `bottomUpMatch` and `match` of src/core/semantic/GraphMatcher.cpp, with the three matchers that
-- take nodes out of the vectors over which their loops run: EnumMatcher, LinkageSpecListMatcher and
-- TranslationUnitMatcher.
use mergebot.Prelude.{ℕ, Bool, true, false, ◌||◌, List, [], ◌∷◌, ◌==◌, if◌then◌else◌}
use mergebot.Bytes.{bytes_eq, is_empty}
use mergebot.Nodes.{Hashers}
use mergebot.Nodes.Defs.{
  NodeKind, translation_unit, linkage_spec_list, namespace, type, enum, field_declaration, func_def,
  func_special_member, Heap, Class, linkage_spec_node, SemanticNode,
}
use mergebot.Matching.{TwoWayMatching, top_down_match}
use mergebot.Matching.Matchers.{nodes_of, set_nodes, Refactored, Rules, Mates, graph_match}

-- `invalidated`: a loop goes on with iterators behind an erasure, which has no meaning.
pub data MatchOutcome : Type 0 where
  matched : TwoWayMatching → Refactored → MatchOutcome
  invalidated : MatchOutcome

infixl 5 ◌>>=◌
abbrev pub ◌>>=◌ : MatchOutcome → (TwoWayMatching → Refactored → MatchOutcome) → MatchOutcome
matched m r >>= f = f m r
invalidated >>= f = invalidated

-- What the matchers are given: the mates and weights of each graph, and `EnumMatcher::isMatched`.
pub record Oracle : Type 0 where
  pub mates : NodeKind → List ℕ → List ℕ → Mates
  pub enum_is_matched : SemanticNode → SemanticNode → Bool

-- `LinkageSpecListMatcher::isMatched`.
abbrev pub same_parent_hash : Class → Class → Bool
same_parent_hash (linkage_spec_node a) (linkage_spec_node b) = a == b
same_parent_hash _ _ = false

abbrev pub any : (ℕ → Bool) → List ℕ → Bool
any f [] = false
any f (x ∷ xs) = f x || any f xs

module _ (hash : Hashers) (heap : Heap) (oracle : Oracle) where
  -- The nested loops of the three matchers: the first pair that agrees is recorded and taken out of
  -- both vectors, and either loop goes on.
  unfoldable pub scan_match :
      (SemanticNode → SemanticNode → Bool) → NodeKind → TwoWayMatching → Refactored → MatchOutcome
  unfolding nodes_of
  scan_match agree kind m r =
      if any (λ p. any (λ q. agree (heap p) (heap q)) (nodes_of kind m.possibly_added))
        (nodes_of kind m.possibly_deleted)
      then invalidated
      else matched m r

  -- A matcher with a graph, where both sides have nodes of the kind.
  unfoldable pub match_kind : Rules → NodeKind → TwoWayMatching → Refactored → MatchOutcome
  unfolding nodes_of set_nodes graph_match
  match_kind rules kind m r =
      let bases = nodes_of kind m.possibly_deleted in
      let revisions = nodes_of kind m.possibly_added in
      let w = graph_match hash heap rules (oracle.mates kind bases revisions) (record {
        matching = m;
        base_nodes = bases;
        revision_nodes = revisions;
        refactored_types = r;
      }) in
      if is_empty bases || is_empty revisions
      then matched m r
      else matched
          (record {
            one_one_matching = w.matching.one_one_matching;
            possibly_deleted = set_nodes kind w.base_nodes m.possibly_deleted;
            possibly_added = set_nodes kind w.revision_nodes m.possibly_added;
          })
          w.refactored_types

  abbrev plain_rules : Rules
  plain_rules = record { checks_parents = false; records_types = false }

  abbrev type_rules : Rules
  type_rules = record { checks_parents = false; records_types = true }

  abbrev member_rules : Rules
  member_rules = record { checks_parents = true; records_types = false }

  unfoldable pub bottom_up_match : TwoWayMatching → MatchOutcome
  unfolding scan_match match_kind
  bottom_up_match m =
      scan_match (λ a b. bytes_eq a.qualified_name b.qualified_name) translation_unit m []
      >>= scan_match (λ a b. same_parent_hash a.class b.class) linkage_spec_list
      >>= match_kind plain_rules namespace
      >>= match_kind type_rules type
      >>= scan_match oracle.enum_is_matched enum
      >>= match_kind member_rules field_declaration
      >>= match_kind member_rules func_def
      >>= match_kind plain_rules func_special_member

  -- `GraphMatcher::match`.
  unfoldable pub match_graphs : List ℕ → List ℕ → MatchOutcome
  unfolding bottom_up_match
  match_graphs base_graph revision_graph =
      bottom_up_match (top_down_match hash heap base_graph revision_graph)
