-- ===== src/Graph.antt =====
-- `DependencyGraph` of include/mergebot/utils/stringop.h, and `mergeVectors` of
-- src/core/handler/TextBasedHandler.cpp. The two maps of the class have the same keys: a node holds
-- what both say of it. The order in which an unordered map is gone through is that of the list; the
-- queue is a priority queue, so it has no influence on the order of a sort.
use mergebot.Prelude.{
  ℕ, zero, suc, ◌+◌, ◌-◌, Bool, true, false, ◌&&◌, ◌||◌, not, Option, none, some, List, [], ◌∷◌,
  ◌++◌, ltb, ◌==◌, if◌then◌else◌, length,
}
pub mod Degrees
pub mod Queue
pub mod Sort
pub mod Build
pub mod Merge
pub mod Order
mod Tests
use mergebot.Bytes.{Bytes, bytes_eq, is_empty}

pub record Node : Type 0 where
  pub name : Bytes
  pub neighbours : List Bytes
  pub in_degree : ℕ

abbrev pub Graph : Type 0
Graph = List Node

pub member : Bytes → List Bytes → Bool
member x [] = false
member x (y ∷ ys) = bytes_eq x y || member x ys

pub has_node : Bytes → Graph → Bool
has_node x [] = false
has_node x (n ∷ g) = bytes_eq x n.name || has_node x g

pub add_node : Bytes → Graph → Graph
unfolding has_node
add_node x g =
    if has_node x g then g else g ++ record { name = x; neighbours = []; in_degree = 0 } ∷ []

-- `adjacencyList[from].insert(to)`.
pub insert_edge : Bytes → Bytes → Graph → Graph
unfolding member
insert_edge from to [] = []
insert_edge from to (n ∷ g) =
    if bytes_eq from n.name
    then record n {
      neighbours = if member to n.neighbours then n.neighbours else n.neighbours ++ to ∷ [];
    }
      ∷ g
    else n ∷ insert_edge from to g

-- `inDegree[to]++`.
pub count_edge : Bytes → Graph → Graph
count_edge to [] = []
count_edge to (n ∷ g) =
    if bytes_eq to n.name then record n { in_degree = suc n.in_degree } ∷ g else n ∷ count_edge to g

pub add_edge : Bytes → Bytes → Graph → Option Graph
unfolding insert_edge count_edge has_node
add_edge from to g =
    if not (has_node from g) || not (has_node to g)
    then none
    else some (count_edge to (insert_edge from to g))

pub neighbours_of : Bytes → Graph → List Bytes
neighbours_of x [] = []
neighbours_of x (n ∷ g) = if bytes_eq x n.name then n.neighbours else neighbours_of x g

-- `hasCycleDFS` over a list of neighbours: the nodes visited, or `none` where a cycle is found. What
-- a call adds to `path` it takes away again.
pub dfs : ℕ → Graph → List Bytes → List Bytes → List Bytes → Option (List Bytes)
dfs zero g path visited ns = none
dfs (suc fuel) g path visited [] = some visited
dfs (suc fuel) g path visited (n ∷ ns) = elim (member n path) [
  | true ↦ none
  | false ↦ elim (member n visited) [
    | true ↦ dfs fuel g path visited ns
    | false ↦ elim (dfs fuel g (n ∷ path) (n ∷ visited) (neighbours_of n g)) [
      | none ↦ none
      | some visited' ↦ dfs fuel g path visited' ns
    ]
  ]
]

pub names : Graph → List Bytes
names [] = []
names (n ∷ g) = n.name ∷ names g

-- Nested calls are at different nodes, so that they go over every edge once at most.
pub dfs_fuel : Graph → ℕ
dfs_fuel [] = 1
dfs_fuel (n ∷ g) = length n.neighbours + (3 + dfs_fuel g)

pub has_cycle : Graph → Bool
unfolding dfs names dfs_fuel
has_cycle g = elim (dfs (dfs_fuel g) g [] [] (names g)) [ none ↦ true | some visited ↦ false ]

-- `operator<` of strings.
pub bytes_less : Bytes → Bytes → Bool
bytes_less s [] = false
bytes_less [] (y ∷ t) = true
bytes_less (x ∷ s) (y ∷ t) = ltb x y || ((x == y) && bytes_less s t)

-- The greatest element of a queue, and the others.
pub pop_max : Bytes → List Bytes → Bytes × List Bytes
unfolding bytes_less
pop_max x [] = (x, [])
pop_max x (y ∷ ys) =
    let (m, rest) = pop_max y ys in if bytes_less x m then (m, x ∷ rest) else (x, m ∷ rest)

-- `tempInDegree`. What becomes 0 when it is decremented was 1; what is 0 already never becomes 0 again.
abbrev pub Degrees : Type 0
Degrees = List (Bytes × ℕ)

pub decrement : Bytes → Degrees → Bool × Degrees
decrement x [] = (false, [])
decrement x ((y, d) ∷ ds) =
    let (hit, rest) = decrement x ds in
    if bytes_eq x y then (d == 1, (y, d - 1) ∷ ds) else (hit, (y, d) ∷ rest)

-- The loop over the neighbours of the current node.
pub release : List Bytes → Degrees → List Bytes → Degrees × List Bytes
unfolding decrement
release [] ds queue = (ds, queue)
release (n ∷ ns) ds queue =
    let (hit, ds') = decrement n ds in release ns ds' (if hit then n ∷ queue else queue)

pub degrees : Graph → Degrees
degrees [] = []
degrees (n ∷ g) = (n.name, n.in_degree) ∷ degrees g

pub sources : Degrees → List Bytes
sources [] = []
sources ((x, d) ∷ ds) = if d == 0 then x ∷ sources ds else sources ds

-- The main loop. Every node is pushed once at most.
pub sort_loop : ℕ → Graph → Degrees → List Bytes → List Bytes
unfolding pop_max release neighbours_of
sort_loop zero g ds queue = []
sort_loop (suc fuel) g ds [] = []
sort_loop (suc fuel) g ds (x ∷ queue) =
    let (current, rest) = pop_max x queue in
    let (ds', queue') = release (neighbours_of current g) ds rest in
    current ∷ sort_loop fuel g ds' queue'

-- The success flag, and `result`.
pub topological_sort : Graph → Bool × List Bytes
unfolding has_cycle degrees sources sort_loop
topological_sort g = elim (has_cycle g) [
  | true ↦ (false, [])
  | false ↦
      let result = sort_loop (suc (length g)) g (degrees g) (sources (degrees g)) in
      (length result == length g, result)
]

-- The elements in their order, each at its first place.
pub unique : List Bytes → List Bytes → List Bytes
unfolding member
unique seen [] = []
unique seen (x ∷ xs) = if member x seen then unique seen xs else x ∷ unique (x ∷ seen) xs

pub add_nodes : List Bytes → Graph → Graph
unfolding add_node
add_nodes [] g = g
add_nodes (x ∷ xs) g = add_nodes xs (add_node x g)

-- An edge from every element to the next one.
pub add_chain : List Bytes → Graph → Option Graph
unfolding add_edge
add_chain [] g = some g
add_chain (x ∷ []) g = some g
add_chain (x ∷ y ∷ xs) g = elim (add_edge x y g) [ none ↦ none | some g' ↦ add_chain (y ∷ xs) g' ]

-- `mergeVectors`: `result`, where it succeeds.
pub merge_vectors : List Bytes → List Bytes → Option (List Bytes)
unfolding unique add_nodes add_chain topological_sort
merge_vectors vec1 vec2 =
    let unique1 = unique [] vec1 in
    let unique2 = unique [] vec2 in
    let g = add_nodes unique2 (add_nodes unique1 []) in
    if is_empty vec1 && is_empty vec2 then some [] else elim (add_chain unique1 g) [
      | none ↦ none
      | some g1 ↦ elim (add_chain unique2 g1) [
        | none ↦ none
        | some g2 ↦
            let (success, result) = topological_sort g2 in if success then some result else none
      ]
    ]
