-- ===== src/Graph/Build.antt =====
-- The graphs that `mergeVectors` builds: all nodes first, edges then.
use mergebot.Prelude.{
  ◌+◌, ◌≡◌, ◌≤◌, refl, true, false, ◌||◌, not, none, some, List, [], ◌∷◌, ◌++◌, arith, All,
  Bool-cases, inl, inr, if◌then◌else◌, ap, sym, subst, ◌∙◌, some-injective, Option-cases,
  All-append,
}
use mergebot.Bytes.{Bytes, bytes_eq, bytes_eq_sound}
use mergebot.Graph.{
  Node, Graph, member, names, has_node, add_node, add_nodes, insert_edge, count_edge, add_edge,
  add_chain, degrees,
}
use mergebot.Graph.Degrees.{has_counter, counter, same_name}
use mergebot.Graph.Queue.{Distinct, Owes}
use mergebot.Graph.Sort.{open_preds, other_name}

-- Every node once, every edge once, and an in-degree of at least the number of predecessors.
pub record IsSound (g : Graph) : Type 0 where
  pub nodes : Distinct (names g)
  pub edges : All (λ n. Distinct n.neighbours) g
  pub degree : Owes (λ y. open_preds [] y g) (degrees g)

find_name : (t y w : Bytes) → bytes_eq y t ≡ true → bytes_eq y w ≡ true → bytes_eq t w ≡ true
find_name t y w e h = subst (λ z. bytes_eq z w ≡ true) (bytes_eq_sound y t e) h

trans_name : (t y w : Bytes) → bytes_eq y t ≡ true → bytes_eq t w ≡ true → bytes_eq y w ≡ true
trans_name t y w e h = subst (λ z. bytes_eq z w ≡ true) (sym (bytes_eq_sound y t e)) h

pub member-snoc :
    (y t : Bytes) (ns : List Bytes) → member y (ns ++ t ∷ []) ≡ (member y ns || bytes_eq y t)
unfolding member
member-snoc y t [] = ground arith
member-snoc y t (n ∷ ns) = ground (arith, member-snoc y t ns)

Distinct-snoc :
    (t : Bytes) (ns : List Bytes) → member t ns ≡ false → Distinct ns → Distinct (ns ++ t ∷ [])
unfolding member
Distinct-snoc t [] e d = (refl, tt)
Distinct-snoc t (n ∷ ns) e (dn, d) = elim (Bool-cases (bytes_eq t n)) [
  | inl q ↦ let bad : true ≡ false = rw q at e in absurd cc
  | inr q ↦
      let rest : member t ns ≡ false = rw q at e in
      (member-snoc n t ns ∙ rw (dn, other_name t n q) refl, Distinct-snoc t ns rest d)
]

insert-names : (f t : Bytes) (g : Graph) → names (insert_edge f t g) ≡ names g
unfolding names insert_edge
insert-names f t [] = refl
insert-names f t (n ∷ g) = ground (arith, insert-names f t g)

insert-degrees : (f t : Bytes) (g : Graph) → degrees (insert_edge f t g) ≡ degrees g
unfolding degrees insert_edge
insert-degrees f t [] = refl
insert-degrees f t (n ∷ g) = ground (arith, insert-degrees f t g)

insert-preds :
    (f t y : Bytes) (g : Graph)
    → open_preds [] y (insert_edge f t g) ≤ open_preds [] y g + (if bytes_eq y t then 1 else 0)
unfolding open_preds insert_edge member
insert-preds f t y [] = omega arith
insert-preds f t y (n ∷ g) =
    let ih = insert-preds f t y g in
    let snoc = member-snoc y t n.neighbours in ground (arith, ih, snoc)

insert-edges :
    (f t : Bytes) (g : Graph)
    → All (λ n. Distinct n.neighbours) g
    → All (λ n. Distinct n.neighbours) (insert_edge f t g)
unfolding insert_edge
insert-edges f t [] h = tt
insert-edges f t (n ∷ g) (h, w) = elim (Bool-cases (bytes_eq f n.name)) [
  | inr e ↦ rw e (h, insert-edges f t g w)
  | inl e ↦ elim (Bool-cases (member t n.neighbours)) [
    | inl m ↦ rw (e, m) (h, w)
    | inr m ↦ rw (e, m) (Distinct-snoc t n.neighbours m h, w)
  ]
]

count-names : (t : Bytes) (g : Graph) → names (count_edge t g) ≡ names g
unfolding names count_edge
count-names t [] = refl
count-names t (n ∷ g) = ground (arith, count-names t g)

count-preds : (t y : Bytes) (g : Graph) → open_preds [] y (count_edge t g) ≡ open_preds [] y g
unfolding open_preds count_edge member
count-preds t y [] = refl
count-preds t y (n ∷ g) = ground (arith, count-preds t y g)

count-edges :
    (t : Bytes) (g : Graph)
    → All (λ n. Distinct n.neighbours) g
    → All (λ n. Distinct n.neighbours) (count_edge t g)
unfolding count_edge
count-edges t [] h = tt
count-edges t (n ∷ g) (h, w) = elim (Bool-cases (bytes_eq t n.name)) [
  | inl e ↦ rw e (h, w)
  | inr e ↦ rw e (h, count-edges t g w)
]

count-has :
    (t y : Bytes) (g : Graph) → has_counter y (degrees (count_edge t g)) ≡ has_counter y (degrees g)
unfolding degrees count_edge has_counter
count-has t y [] = refl
count-has t y (n ∷ g) = ground (arith, count-has t y g)

count-counter :
    (t y : Bytes) (g : Graph)
    → has_counter y (degrees g) ≡ true
    → counter y (degrees (count_edge t g)) ≡ counter y (degrees g) + (if bytes_eq y t then 1 else 0)
unfolding degrees count_edge has_counter counter
count-counter t y [] h = absurd cc
count-counter t y (n ∷ g) h =
    ground (
      arith,
      count-counter t y g,
      same_name t y n.name,
      find_name t y n.name,
      trans_name t y n.name,
    )

edge-IsSound : (f t : Bytes) (g : Graph) → IsSound g → IsSound (count_edge t (insert_edge f t g))
edge-IsSound f t g w =
    let h = insert_edge f t g in
    let same : degrees h ≡ degrees g = insert-degrees f t g in
    record {
      nodes = subst (λ l. Distinct l) (sym (count-names t h ∙ insert-names f t g)) w.nodes;
      edges = count-edges t h (insert-edges f t g w.edges);
      degree = λ y e.
          let there : has_counter y (degrees h) ≡ true = sym (count-has t y h) ∙ e in
          let before : has_counter y (degrees g) ≡ true =
            ap (λ d. has_counter y d) (sym same) ∙ there in
          let le = w.degree y before in
          let more = insert-preds f t y g in
          let keep = count-preds t y h in
          let up = count-counter t y h there in
          let even : counter y (degrees h) ≡ counter y (degrees g) = ap (λ d. counter y d) same in
          omega (arith, le, more, keep, up, even);
    }

-- An edge keeps a graph sound.
pub add_edge-IsSound :
    (f t : Bytes) (g g' : Graph) → IsSound g → add_edge f t g ≡ some g' → IsSound g'
unfolding add_edge
add_edge-IsSound f t g g' w e = elim (Bool-cases (not (has_node f g) || not (has_node t g))) [
  | inl b ↦ let bad : none ≡ some g' = rw b at e in absurd cc
  | inr b ↦
      let made : some (count_edge t (insert_edge f t g)) ≡ some g' = rw b at e in
      subst (λ h. IsSound h) (some-injective _ _ made) (edge-IsSound f t g w)
]

pub chain_nil : (g : Graph) → add_chain [] g ≡ some g
unfolding add_chain
chain_nil g = refl

pub chain_one : (x : Bytes) (g : Graph) → add_chain (x ∷ []) g ≡ some g
unfolding add_chain
chain_one x g = refl

pub chain_next :
    (x y : Bytes) (xs : List Bytes) (g h : Graph)
    → add_edge x y g ≡ some h
    → add_chain (x ∷ y ∷ xs) g ≡ add_chain (y ∷ xs) h
unfolding add_chain
chain_next x y xs g h e = rw (add_chain, e) refl

pub chain_stop :
    (x y : Bytes) (xs : List Bytes) (g : Graph)
    → add_edge x y g ≡ none
    → add_chain (x ∷ y ∷ xs) g ≡ none
unfolding add_chain
chain_stop x y xs g e = rw (add_chain, e) refl

-- A chain of edges too.
pub add_chain-IsSound :
    (xs : List Bytes) (g g' : Graph) → IsSound g → add_chain xs g ≡ some g' → IsSound g'
unfolding add_chain
add_chain-IsSound [] g g' w e = subst (λ h. IsSound h) (some-injective _ _ e) w
add_chain-IsSound (x ∷ []) g g' w e = subst (λ h. IsSound h) (some-injective _ _ e) w
add_chain-IsSound (x ∷ y ∷ xs) g g' w e = elim (Option-cases (add_edge x y g)) [
  | inl n ↦ let stop = chain_stop x y xs g n in absurd cc
  | inr (h, q) ↦
      let rest : add_chain (y ∷ xs) h ≡ some g' = sym (chain_next x y xs g h q) ∙ e in
      add_chain-IsSound (y ∷ xs) h g' (add_edge-IsSound x y g h w q) rest
]

-- Nodes without edges.
abbrev pub Edgeless : Graph → Type 0
Edgeless g = Distinct (names g) × All (λ n. n.neighbours ≡ []) g

names-has_node : (x : Bytes) (g : Graph) → member x (names g) ≡ has_node x g
unfolding names has_node member
names-has_node x [] = refl
names-has_node x (n ∷ g) = ground (arith, names-has_node x g)

names-snoc : (g : Graph) (n : Node) → names (g ++ n ∷ []) ≡ names g ++ n.name ∷ []
unfolding names
names-snoc [] n = refl
names-snoc (m ∷ g) n = ap (λ l. m.name ∷ l) (names-snoc g n)

add_node-Edgeless : (x : Bytes) (g : Graph) → Edgeless g → Edgeless (add_node x g)
unfolding add_node
add_node-Edgeless x g (d, e) = elim (Bool-cases (has_node x g)) [
  | inl h ↦ rw h (d, e)
  | inr h ↦
      let new : Node = record { name = x; neighbours = []; in_degree = 0 } in
      rw h (
        subst (λ l. Distinct l) (sym (names-snoc g new))
            (Distinct-snoc x (names g) (names-has_node x g ∙ h) d),
        All-append (λ n. n.neighbours ≡ []) g (new ∷ []) e (refl, tt),
      )
]

pub add_nodes-Edgeless : (xs : List Bytes) (g : Graph) → Edgeless g → Edgeless (add_nodes xs g)
unfolding add_nodes
add_nodes-Edgeless [] g e = e
add_nodes-Edgeless (x ∷ xs) g e = add_nodes-Edgeless xs (add_node x g) (add_node-Edgeless x g e)

no_preds : (y : Bytes) (g : Graph) → All (λ n. n.neighbours ≡ []) g → open_preds [] y g ≡ 0
unfolding open_preds member
no_preds y [] h = refl
no_preds y (n ∷ g) (h, w) = rw h (omega (arith, no_preds y g w))

no_edges : (g : Graph) → All (λ n. n.neighbours ≡ []) g → All (λ n. Distinct n.neighbours) g
no_edges [] h = tt
no_edges (n ∷ g) (h, w) = (subst (λ l. Distinct l) (sym h) tt, no_edges g w)

pub Edgeless-IsSound : (g : Graph) → Edgeless g → IsSound g
Edgeless-IsSound g (d, e) = record {
  nodes = d;
  edges = no_edges g e;
  degree = λ y h. let none_left = no_preds y g e in omega (arith, none_left);
}
