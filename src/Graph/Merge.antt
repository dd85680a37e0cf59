-- ===== src/Graph/Merge.antt =====
-- What a merge that succeeds gives.
use mergebot.Prelude.{
  ℕ, suc, ◌≡◌, refl, Bool, true, false, ◌||◌, not, none, some, List, [], ◌∷◌, ◌++◌, arith, All,
  Bool-cases, inl, inr, ◌==◌, ap, sym, subst, ◌∙◌, some-injective, Option-cases, length,
}
use mergebot.Bytes.{Bytes, bytes_eq, bytes_eq_sound, bytes_eq_refl}
use mergebot.Graph.{
  Graph, Degrees, member, names, has_node, insert_edge, count_edge, add_edge, add_chain, degrees,
  neighbours_of, sources, sort_loop, topological_sort, has_cycle,
}
use mergebot.Graph.Degrees.{has_counter, counter}
use mergebot.Graph.Queue.{Distinct, Spent}
use mergebot.Graph.Sort.{Respects, sort_loop-Respects}
use mergebot.Graph.Build.{IsSound, chain_nil, chain_one, chain_next, chain_stop, member-snoc}

keys-names : (y : Bytes) (g : Graph) → has_counter y (degrees g) ≡ member y (names g)
unfolding has_counter degrees member names
keys-names y [] = refl
keys-names y (n ∷ g) = ground (arith, keys-names y g)

sources-keys : (y : Bytes) (ds : Degrees) → has_counter y ds ≡ false → member y (sources ds) ≡ false
unfolding has_counter sources member
sources-keys y [] e = refl
sources-keys y ((x, d) ∷ ds) e = ground (arith, sources-keys y ds)

Spent-later :
    (x : Bytes) (d : ℕ) (ds : Degrees) (qs : List Bytes)
    → has_counter x ds ≡ false
    → All (Spent ds) qs
    → All (Spent ((x, d) ∷ ds)) qs
unfolding has_counter counter
Spent-later x d ds [] e h = tt
Spent-later x d ds (q ∷ qs) e ((has, z), w) = elim (Bool-cases (bytes_eq q x)) [
  | inl s ↦ let bad = ap (λ v. has_counter v ds) (bytes_eq_sound q x s) in absurd cc
  | inr s ↦ rw s ((has, z), Spent-later x d ds qs e w)
]

zero_of : (d : ℕ) → (d == 0) ≡ true → d ≡ 0
zero_of d e = ground arith

first_spent : (x : Bytes) (d : ℕ) (ds : Degrees) → (d == 0) ≡ true → Spent ((x, d) ∷ ds) x
unfolding has_counter counter
first_spent x d ds e = rw (bytes_eq_refl x) (refl, zero_of d e)

sources-IsQueue :
    (g : Graph)
    → Distinct (names g)
    → Distinct (sources (degrees g)) × All (Spent (degrees g)) (sources (degrees g))
unfolding sources degrees names
sources-IsQueue [] d = (tt, tt)
sources-IsQueue (n ∷ g) (out, d) =
    let (a, b) = sources-IsQueue g d in
    let gone = keys-names n.name g ∙ out in
    let later = Spent-later n.name n.in_degree (degrees g) (sources (degrees g)) gone b in
    elim (Bool-cases (n.in_degree == 0)) [
      | inr e ↦ rw e (a, later)
      | inl e ↦ rw e (
        (sources-keys n.name (degrees g) gone, a),
        (first_spent n.name n.in_degree (degrees g) e, later),
      )
    ]

abbrev sorted : Graph → List Bytes
sorted g = sort_loop (suc (length g)) g (degrees g) (sources (degrees g))

sort_cyclic : (g : Graph) → has_cycle g ≡ true → topological_sort g ≡ (false, [])
unfolding topological_sort
sort_cyclic g e = rw (topological_sort, e) refl

sort_acyclic :
    (g : Graph)
    → has_cycle g ≡ false
    → topological_sort g ≡ (length (sorted g) == length g, sorted g)
unfolding topological_sort
sort_acyclic g e = rw (topological_sort, e) refl

none_taken : (qs : List Bytes) → All (λ q. member q [] ≡ false) qs
unfolding member
none_taken [] = tt
none_taken (q ∷ qs) = (refl, none_taken qs)

-- The sort of a sound graph, where it succeeds.
pub sort-Respects :
    (g : Graph) (r : List Bytes) → IsSound g → topological_sort g ≡ (true, r) → Respects g [] r
sort-Respects g r w e = elim (Bool-cases (has_cycle g)) [
  | inl c ↦ let bad = ap (λ (p : Bool × List Bytes). p.0) (sym (sort_cyclic g c) ∙ e) in absurd cc
  | inr c ↦
      let (d, spent) = sources-IsQueue g w.nodes in
      subst (λ l. Respects g [] l)
        (ap (λ (p : Bool × List Bytes). p.1) (sym (sort_acyclic g c) ∙ e))
        (sort_loop-Respects (suc (length g)) g (degrees g) (sources (degrees g)) [] w.edges w.degree
          (record {
            distinct = d;
            waiting = spent;
            taken = tt;
            apart = none_taken (sources (degrees g));
          }))
]

insert-member :
    (f t : Bytes) (g : Graph)
    → has_node f g ≡ true
    → member t (neighbours_of f (insert_edge f t g)) ≡ true
unfolding has_node neighbours_of insert_edge member
insert-member f t [] h = absurd cc
insert-member f t (n ∷ g) h =
    let snoc = member-snoc t t n.neighbours in
    ground (arith, insert-member f t g, snoc, bytes_eq_refl t)

insert-keeps :
    (f t x y : Bytes) (g : Graph)
    → member y (neighbours_of x g) ≡ true
    → member y (neighbours_of x (insert_edge f t g)) ≡ true
unfolding neighbours_of insert_edge member
insert-keeps f t x y [] h = h
insert-keeps f t x y (n ∷ g) h =
    let snoc = member-snoc y t n.neighbours in ground (arith, insert-keeps f t x y g, snoc)

count-neighbours : (t x : Bytes) (g : Graph) → neighbours_of x (count_edge t g) ≡ neighbours_of x g
unfolding neighbours_of count_edge
count-neighbours t x [] = refl
count-neighbours t x (n ∷ g) = ground (arith, count-neighbours t x g)

or_none : (a b : Bool) → (not a || not b) ≡ false → a ≡ true
or_none a b e = ground arith

edge_made :
    (f t : Bytes) (g g' : Graph)
    → add_edge f t g ≡ some g'
    → (has_node f g ≡ true) × (g' ≡ count_edge t (insert_edge f t g))
unfolding add_edge
edge_made f t g g' e = elim (Bool-cases (not (has_node f g) || not (has_node t g))) [
  | inl b ↦ let bad : none ≡ some g' = rw b at e in absurd cc
  | inr b ↦
      let made : some (count_edge t (insert_edge f t g)) ≡ some g' = rw b at e in
      (or_none (has_node f g) (has_node t g) b, sym (some-injective _ _ made))
]

edge_new :
    (f t : Bytes) (g g' : Graph) → add_edge f t g ≡ some g' → member t (neighbours_of f g') ≡ true
edge_new f t g g' e =
    let (h, q) = edge_made f t g g' e in
    ap (λ k. member t (neighbours_of f k)) q
    ∙ (ap (member t) (count-neighbours t f (insert_edge f t g)) ∙ insert-member f t g h)

edge_kept :
    (f t x y : Bytes) (g g' : Graph)
    → add_edge f t g ≡ some g'
    → member y (neighbours_of x g) ≡ true
    → member y (neighbours_of x g') ≡ true
edge_kept f t x y g g' e m =
    let (h, q) = edge_made f t g g' e in
    ap (λ k. member y (neighbours_of x k)) q
    ∙ (ap (member y) (count-neighbours t x (insert_edge f t g)) ∙ insert-keeps f t x y g m)

pub chain_kept :
    (xs : List Bytes) (x y : Bytes) (g g' : Graph)
    → add_chain xs g ≡ some g'
    → member y (neighbours_of x g) ≡ true
    → member y (neighbours_of x g') ≡ true
chain_kept [] x y g g' e m =
    ap (λ k. member y (neighbours_of x k)) (sym (some-injective _ _ (sym (chain_nil g) ∙ e))) ∙ m
chain_kept (a ∷ []) x y g g' e m =
    ap (λ k. member y (neighbours_of x k)) (sym (some-injective _ _ (sym (chain_one a g) ∙ e))) ∙ m
chain_kept (a ∷ b ∷ xs) x y g g' e m = elim (Option-cases (add_edge a b g)) [
  | inl n ↦ let stop = chain_stop a b xs g n in absurd cc
  | inr (h, q) ↦
      chain_kept (b ∷ xs) x y h g' (sym (chain_next a b xs g h q) ∙ e) (edge_kept a b x y g h q m)
]

-- The edges of a chain are in the graph.
pub chain_edge :
    (pre : List Bytes) (x y : Bytes) (post : List Bytes) (g g' : Graph)
    → add_chain (pre ++ x ∷ y ∷ post) g ≡ some g'
    → member y (neighbours_of x g') ≡ true
chain_edge [] x y post g g' e = elim (Option-cases (add_edge x y g)) [
  | inl n ↦ let stop = chain_stop x y post g n in absurd cc
  | inr (h, q) ↦
      chain_kept (y ∷ post) x y h g' (sym (chain_next x y post g h q) ∙ e) (edge_new x y g h q)
]
chain_edge (p ∷ []) x y post g g' e = elim (Option-cases (add_edge p x g)) [
  | inl n ↦ let stop = chain_stop p x (y ∷ post) g n in absurd cc
  | inr (h, q) ↦ chain_edge [] x y post h g' (sym (chain_next p x (y ∷ post) g h q) ∙ e)
]
chain_edge (p ∷ p' ∷ pre) x y post g g' e = elim (Option-cases (add_edge p p' g)) [
  | inl n ↦ let stop = chain_stop p p' (pre ++ x ∷ y ∷ post) g n in absurd cc
  | inr (h, q) ↦
      chain_edge (p' ∷ pre) x y post h g' (sym (chain_next p p' (pre ++ x ∷ y ∷ post) g h q) ∙ e)
]

-- Where a node stands, its predecessors stand in front.
pub Respects-at :
    (g : Graph) (done a : List Bytes) (x y : Bytes) (b : List Bytes)
    → Respects g done (a ++ y ∷ b)
    → member y (neighbours_of x g) ≡ true
    → (member x a || member x done) ≡ true
unfolding member
Respects-at g done [] x y b (out, before, w) m = before x m
Respects-at g done (z ∷ a) x y b (out, before, w) m =
    let ih = Respects-at g (z ∷ done) a x y b w m in ground (arith, ih)
