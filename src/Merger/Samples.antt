-- ===== src/Merger/Samples.antt =====
-- Small graphs to merge: a container 0 with the functions f (1) and g (2) in the base; our side, 10,
-- deletes g and adds x (13); their side, 20, keeps both and adds y (23).
use mergebot.Prelude.{
  ℕ, ◌≡◌, ◌<◌, true, false, some-injective, subst, sym, ◌∙◌, arith, refl, Bool, some, List, [], ◌∷◌,
  ◌++◌, ◌==◌, if◌then◌else◌, ltb,
}
use mergebot.Bytes.{Bytes, codes}
use mergebot.Nodes.{hash_signature}
use mergebot.Nodes.Defs.{SemanticNode, Heap, Class}
use mergebot.Nodes.Samples.{sample_hash, sample_node, sample_func, sample_unit}
use mergebot.Matching.{Pair, left_at, top_down_match}
use mergebot.Semantic.{OrderInfavour, in_ours}
use mergebot.Merger.{Setting}
use mergebot.Merger.Children.{sig_in}
use mergebot.Merger.Frame.{OwnsAll}
use mergebot.Merger.Ends.{terminal}
use mergebot.Merger.Termination.{Low}
use mergebot.Merger.Merged.{own_matching}

abbrev pub function_named : ℕ → Bytes → ℕ → SemanticNode
function_named id name parent = record (sample_node id name sample_func) { parent = some parent }

abbrev pub container_named : Class → ℕ → Bytes → List ℕ → SemanticNode
container_named class id name children = record (sample_node id name class) { children = children }

-- `our_name` is the name that our side gives the container.
abbrev pub three_graphs : Class → Bytes → Heap
three_graphs class our_name p =
    if p == 0
    then container_named class 0 (codes "ns") (1 ∷ 2 ∷ [])
    else if p == 1
    then function_named 1 (codes "f") 0
    else if p == 2
    then function_named 2 (codes "g") 0
    else if p == 10
    then container_named class 0 our_name (11 ∷ 13 ∷ [])
    else if p == 11
    then function_named 1 (codes "f") 10
    else if p == 13
    then function_named 2 (codes "x") 10
    else if p == 20
    then container_named class 0 (codes "ns") (21 ∷ 22 ∷ 23 ∷ [])
    else if p == 21
    then function_named 1 (codes "f") 20
    else if p == 22
    then function_named 2 (codes "g") 20
    else function_named 3 (codes "y") 20

abbrev pub same_names : Heap
same_names = three_graphs sample_unit (codes "ns")

abbrev pub base_graph : List ℕ
base_graph = 0 ∷ 1 ∷ 2 ∷ []

abbrev pub sides : OrderInfavour → Setting
sides order = record {
  hash = sample_hash;
  git = λ our_text base_text their_text. our_text ++ their_text;
  our_matching = top_down_match sample_hash same_names base_graph (10 ∷ 11 ∷ 13 ∷ []);
  their_matching = top_down_match sample_hash same_names base_graph (20 ∷ 21 ∷ 22 ∷ 23 ∷ []);
  order_in_favour = order;
}

abbrev pub base_ids : ℕ → Bool
base_ids p = ltb p 10

pub owns_sample : OwnsAll base_ids (sides in_ours)
unfolding top_down_match hash_signature
owns_sample = ((refl, (refl, tt)), (refl, (refl, (refl, tt))))

pub only_container : (b : ℕ) → base_ids b ≡ true → terminal (same_names b) ≡ false → b ≡ 0
only_container b k z = ground arith

abbrev pub ranks : ℕ → ℕ
ranks b = if b == 0 then 1 else 0

pub ours_there :
    left_at (sig_in (sides in_ours) same_names 0) (sides in_ours).our_matching.one_one_matching
    ≡ some 10
unfolding top_down_match hash_signature left_at
ours_there = refl

pub theirs_there :
    left_at (sig_in (sides in_ours) same_names 0) (sides in_ours).their_matching.one_one_matching
    ≡ some 20
unfolding top_down_match hash_signature left_at
theirs_there = refl

pub at_namespace :
    (P : ℕ → ℕ → Type 0) (o : ℕ) (ps : List Pair)
    → left_at (sig_in (sides in_ours) same_names 0) ps ≡ some o
    → P 0 o
    → (b p : ℕ) → base_ids b ≡ true
    → terminal (same_names b) ≡ false
    → left_at (sig_in (sides in_ours) same_names b) ps ≡ some p
    → P b p
at_namespace P o ps e w b p k z f =
    let zero_b = only_container b k z in
    let at_zero = subst (λ n. left_at (sig_in (sides in_ours) same_names n) ps ≡ some p) zero_b f in
    subst (λ n. P n p) (sym zero_b) (subst (P 0) (some-injective _ _ (sym e ∙ at_zero)) w)

abbrev pub Named : ℕ → ℕ → Type 0
Named b o = (base_ids o ≡ false) × ((same_names o).qualified_name ≡ (same_names b).qualified_name)

abbrev pub Lowered : ℕ → ℕ → Type 0
Lowered b o =
    Low base_ids (sides in_ours) same_names ranks (ranks b)
      (own_matching (sides in_ours)).one_one_matching (same_names o).children

pub lowered : Lowered 0 10
unfolding top_down_match hash_signature
lowered = (
  (refl, λ d e. subst (λ q. ranks q < 1) (some-injective 1 d e) (ground arith)),
  ((refl, λ d e. absurd cc), tt),
)
