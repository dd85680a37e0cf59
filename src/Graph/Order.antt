-- ===== src/Graph/Order.antt =====
-- The order of a merge.
use mergebot.Prelude.{
  ◌≡◌, refl, Bool, true, false, ◌&&◌, ◌||◌, none, some, List, [], ◌∷◌, ◌++◌, arith, All, Bool-cases,
  inl, inr, ◌⊎◌, if◌then◌else◌, ap, sym, subst, ◌∙◌, some-injective, Option-cases,
}
use mergebot.Bytes.{Bytes, is_empty}
use mergebot.Graph.{
  Graph, member, add_nodes, add_chain, neighbours_of, names, topological_sort, unique,
  merge_vectors,
}
use mergebot.Graph.Queue.{Distinct}
use mergebot.Graph.Sort.{Respects, other_name}
use mergebot.Graph.Build.{
  Edgeless, IsSound, add_chain-IsSound, add_nodes-Edgeless, Edgeless-IsSound,
}
use mergebot.Graph.Merge.{sort-Respects, chain_kept, chain_edge, Respects-at}

abbrev bare : List Bytes → List Bytes → Graph
bare vec1 vec2 = add_nodes (unique [] vec2) (add_nodes (unique [] vec1) [])

-- The graphs behind a merge that succeeds.
record Merged (vec1 vec2 r : List Bytes) : Type 0 where
  first : Graph
  second : Graph
  chain1 : add_chain (unique [] vec1) (bare vec1 vec2) ≡ some first
  chain2 : add_chain (unique [] vec2) first ≡ some second
  sorted : topological_sort second ≡ (true, r)

module _ (vec1 vec2 : List Bytes) (full : (is_empty vec1 && is_empty vec2) ≡ false) where
  stop_first : add_chain (unique [] vec1) (bare vec1 vec2) ≡ none → merge_vectors vec1 vec2 ≡ none
  unfolding merge_vectors
  stop_first e = rw (merge_vectors, full, e) refl

  stop_second :
      (g1 : Graph)
      → add_chain (unique [] vec1) (bare vec1 vec2) ≡ some g1
      → add_chain (unique [] vec2) g1 ≡ none
      → merge_vectors vec1 vec2 ≡ none
  unfolding merge_vectors
  stop_second g1 e h = rw (merge_vectors, full, e, h) refl

  merge_sort :
      (g1 g2 : Graph)
      → add_chain (unique [] vec1) (bare vec1 vec2) ≡ some g1
      → add_chain (unique [] vec2) g1 ≡ some g2
      → merge_vectors vec1 vec2
        ≡ (if (topological_sort g2).0 then some (topological_sort g2).1 else none)
  unfolding merge_vectors
  merge_sort g1 g2 e h = rw (merge_vectors, full, e, h) refl

  sort_result :
      (p : Bool × List Bytes) (r : List Bytes)
      → (if p.0 then some p.1 else none) ≡ some r
      → p ≡ (true, r)
  sort_result (true, l) r e = ap (λ q. (true, q)) (some-injective _ _ e)
  sort_result (false, l) r e = absurd cc

  merge-Merged : (r : List Bytes) → merge_vectors vec1 vec2 ≡ some r → Merged vec1 vec2 r
  merge-Merged r e = elim (Option-cases (add_chain (unique [] vec1) (bare vec1 vec2))) [
    | inl n ↦ let stop = stop_first n in absurd cc
    | inr (g1, c1) ↦ elim (Option-cases (add_chain (unique [] vec2) g1)) [
      | inl n ↦ let stop = stop_second g1 c1 n in absurd cc
      | inr (g2, c2) ↦ record {
        first = g1;
        second = g2;
        chain1 = c1;
        chain2 = c2;
        sorted = sort_result (topological_sort g2) r (sym (merge_sort g1 g2 c1 c2) ∙ e);
      }
    ]
  ]

no_nodes : Edgeless []
unfolding names
no_nodes = (tt, tt)

Merged-IsSound : (vec1 vec2 r : List Bytes) (m : Merged vec1 vec2 r) → IsSound m.second
Merged-IsSound vec1 vec2 r m =
    let flat =
      add_nodes-Edgeless (unique [] vec2) (add_nodes (unique [] vec1) [])
        (add_nodes-Edgeless (unique [] vec1) [] no_nodes) in
    add_chain-IsSound (unique [] vec2) m.first m.second
      (add_chain-IsSound (unique [] vec1) (bare vec1 vec2) m.first
        (Edgeless-IsSound (bare vec1 vec2) flat) m.chain1)
      m.chain2

-- A pair of neighbours in a list of the merge is an edge.
Merged-edge :
    (vec1 vec2 r : List Bytes) (m : Merged vec1 vec2 r) (pre : List Bytes) (x y : Bytes)
    (post : List Bytes)
    → (unique [] vec1 ≡ pre ++ x ∷ y ∷ post) ⊎ (unique [] vec2 ≡ pre ++ x ∷ y ∷ post)
    → member y (neighbours_of x m.second) ≡ true
Merged-edge vec1 vec2 r m pre x y post (inl q) =
    chain_kept (unique [] vec2) x y m.first m.second m.chain2 (
      chain_edge pre x y post (bare vec1 vec2) m.first
        (subst (λ l. add_chain l (bare vec1 vec2) ≡ some m.first) q m.chain1))
Merged-edge vec1 vec2 r m pre x y post (inr q) =
    chain_edge pre x y post m.first m.second
      (subst (λ l. add_chain l m.first ≡ some m.second) q m.chain2)

or_false : (a b : Bool) → b ≡ false → (a || b) ≡ true → a ≡ true
or_false a b e h = ground arith

not_member : (x : Bytes) → member x [] ≡ false
unfolding member
not_member x = refl

nothing : (pre : List Bytes) (x : Bytes) (post : List Bytes) → [] ≡ pre ++ x ∷ post → ⊥
nothing [] x post e = absurd cc
nothing (p ∷ pre) x post e = absurd cc

not_both :
    (vec1 vec2 : List Bytes) (pre : List Bytes) (x y : Bytes) (post : List Bytes)
    → (unique [] vec1 ≡ pre ++ x ∷ y ∷ post) ⊎ (unique [] vec2 ≡ pre ++ x ∷ y ∷ post)
    → (is_empty vec1 && is_empty vec2) ≡ false
unfolding unique
not_both (a ∷ vec1) vec2 pre x y post h = refl
not_both [] (b ∷ vec2) pre x y post h = refl
not_both [] [] pre x y post (inl q) = absurd (nothing pre x (y ∷ post) q)
not_both [] [] pre x y post (inr q) = absurd (nothing pre x (y ∷ post) q)

-- When a merge succeeds, whatever stands next to each other in one of the lists without their
-- repetitions keeps its order: before the place of the second element in the result stands the
-- first one.
pub merge_vectors-order :
    (vec1 vec2 r pre : List Bytes) (x y : Bytes) (post a b : List Bytes)
    → merge_vectors vec1 vec2 ≡ some r
    → (unique [] vec1 ≡ pre ++ x ∷ y ∷ post) ⊎ (unique [] vec2 ≡ pre ++ x ∷ y ∷ post)
    → r ≡ a ++ y ∷ b
    → member x a ≡ true
merge_vectors-order vec1 vec2 r pre x y post a b e h q =
    let m = merge-Merged vec1 vec2 (not_both vec1 vec2 pre x y post h) r e in
    let keeps = sort-Respects m.second r (Merged-IsSound vec1 vec2 r m) m.sorted in
    or_false (member x a) (member x []) (not_member x) (
      Respects-at m.second [] a x y b (subst (λ l. Respects m.second [] l) q keeps)
        (Merged-edge vec1 vec2 r m pre x y post h))

older :
    (x : Bytes) (done r : List Bytes)
    → All (λ q. member q (x ∷ done) ≡ false) r
    → All (λ q. member q done ≡ false) r
unfolding member
older x done [] h = tt
older x done (q ∷ r) (h, w) = (ground arith, older x done r w)

fresh :
    (x : Bytes) (done r : List Bytes)
    → All (λ q. member q (x ∷ done) ≡ false) r
    → member x r ≡ false
unfolding member
fresh x done [] h = refl
fresh x done (q ∷ r) (h, w) = ground (arith, fresh x done r w, other_name x q, other_name q x)

merge_nothing :
    (vec1 vec2 : List Bytes)
    → (is_empty vec1 && is_empty vec2) ≡ true
    → merge_vectors vec1 vec2 ≡ some []
unfolding merge_vectors
merge_nothing vec1 vec2 e = rw (merge_vectors, e) refl

-- Behind `done`, a list that respects a graph repeats no element.
Respects-Distinct :
    (g : Graph) (done r : List Bytes)
    → Respects g done r
    → Distinct r × All (λ x. member x done ≡ false) r
Respects-Distinct g done [] w = (tt, tt)
Respects-Distinct g done (x ∷ r) (out, before, w) =
    let (d, apart) = Respects-Distinct g (x ∷ done) r w in
    ((fresh x done r apart, d), (out, older x done r apart))

-- When a merge succeeds, no element stands in the result twice.
pub merge_vectors-Distinct :
    (vec1 vec2 r : List Bytes) → merge_vectors vec1 vec2 ≡ some r → Distinct r
merge_vectors-Distinct vec1 vec2 r e = elim (Bool-cases (is_empty vec1 && is_empty vec2)) [
  | inl z ↦
      let none_there = merge_nothing vec1 vec2 z in
      subst (λ l. Distinct l) (some-injective _ _ (sym none_there ∙ e)) tt
  | inr z ↦
      let m = merge-Merged vec1 vec2 z r e in
      (Respects-Distinct m.second [] r
        (sort-Respects m.second r (Merged-IsSound vec1 vec2 r m) m.sorted)).0
]
