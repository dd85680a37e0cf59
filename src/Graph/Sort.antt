-- ===== src/Graph/Sort.antt =====
-- The sort puts every node behind all of its predecessors, and no node twice.
use mergebot.Prelude.{
  ℕ, zero, suc, ◌+◌, ◌≡◌, ◌≤◌, refl, true, false, List, [], ◌∷◌, arith, All, Bool-cases, inl, inr,
  if◌then◌else◌, ap, sym, subst, ◌∙◌,
}
use mergebot.Bytes.{Bytes, bytes_eq, bytes_eq_sound, bytes_eq_refl}
use mergebot.Graph.{Graph, Degrees, member, pop_max, bytes_less, neighbours_of, sort_loop}
use mergebot.Graph.Queue.{Distinct, Spent, IsQueue, Owes, plus, release_lem}

-- Taking out the greatest element leaves the others.
pop-All :
    (P : Bytes → Type 0) (x : Bytes) (xs : List Bytes)
    → P x
    → All P xs
    → P (pop_max x xs).0 × All P (pop_max x xs).1
unfolding pop_max
pop-All P x [] h w = (h, tt)
pop-All P x (y ∷ ys) h (hy, w) =
    let (a, b) = pop-All P y ys hy w in
    elim (Bool-cases (bytes_less x (pop_max y ys).0)) [
      | inl e ↦ rw e (a, (h, b))
      | inr e ↦ rw e (h, (a, b))
    ]

-- The predecessors of `y` in the graph that are not taken out yet.
unfoldable pub open_preds : List Bytes → Bytes → Graph → ℕ
open_preds done y [] = 0
open_preds done y (n ∷ g) =
    (if member n.name done then 0 else if member y n.neighbours then 1 else 0) + open_preds done y g

preds_less :
    (x : Bytes) (done : List Bytes) (y : Bytes) (g : Graph)
    → open_preds (x ∷ done) y g ≤ open_preds done y g
unfolding open_preds member
preds_less x done y [] = omega arith
preds_less x done y (n ∷ g) = let ih = preds_less x done y g in ground (arith, ih)

-- Taking out a node pays for each of its neighbours.
preds_drop :
    (x : Bytes) (done : List Bytes) (y : Bytes) (g : Graph)
    → member x done ≡ false
    → member y (neighbours_of x g) ≡ true
    → open_preds (x ∷ done) y g + 1 ≤ open_preds done y g
unfolding open_preds member neighbours_of
preds_drop x done y [] out e = absurd cc
preds_drop x done y (n ∷ g) out e = elim (Bool-cases (bytes_eq x n.name)) [
  | inl q ↦
      let same = bytes_eq_sound x n.name q in
      let out' : member n.name done ≡ false = ap (λ v. member v done) (sym same) ∙ out in
      let self : bytes_eq n.name x ≡ true =
        subst (λ v. bytes_eq v x ≡ true) same (bytes_eq_refl x) in
      let less = preds_less x done y g in
      let here : member y n.neighbours ≡ true = rw q at e in ground (arith, out', self, less, here)
  | inr q ↦
      let later : member y (neighbours_of x g) ≡ true = rw q at e in
      let ih = preds_drop x done y g out later in ground (arith, ih)
]

-- Where no predecessor is left, every predecessor was taken out.
preds_none :
    (done : List Bytes) (y p : Bytes) (g : Graph)
    → open_preds done y g ≡ 0
    → member y (neighbours_of p g) ≡ true
    → member p done ≡ true
unfolding open_preds member neighbours_of
preds_none done y p [] z e = absurd cc
preds_none done y p (n ∷ g) z e = elim (Bool-cases (bytes_eq p n.name)) [
  | inl q ↦
      let same = bytes_eq_sound p n.name q in
      let here : member y n.neighbours ≡ true = rw q at e in
      let there : member n.name done ≡ true = ground (arith, here, z) in
      ap (λ v. member v done) same ∙ there
  | inr q ↦
      let later : member y (neighbours_of p g) ≡ true = rw q at e in
      preds_none done y p g (omega (arith, z)) later
]

pub other_name : (x y : Bytes) → bytes_eq x y ≡ false → bytes_eq y x ≡ false
other_name x y e = elim (Bool-cases (bytes_eq y x)) [
  | inl q ↦
      let same = subst (λ v. bytes_eq v y ≡ true) (bytes_eq_sound y x q) (bytes_eq_refl y) in
      absurd cc
  | inr q ↦ q
]

pub member-All :
    (x : Bytes) (ys : List Bytes) → member x ys ≡ false → All (λ q. bytes_eq x q ≡ false) ys
unfolding member
member-All x [] e = tt
member-All x (y ∷ ys) e = elim (Bool-cases (bytes_eq x y)) [
  | inl q ↦ let bad : true ≡ false = rw q at e in absurd cc
  | inr q ↦ let rest : member x ys ≡ false = rw q at e in (q, member-All x ys rest)
]

pub All-member :
    (x : Bytes) (ys : List Bytes) → All (λ q. bytes_eq q x ≡ false) ys → member x ys ≡ false
unfolding member
All-member x [] h = refl
All-member x (y ∷ ys) (h, w) = rw (other_name y x h) (All-member x ys w)

turned :
    (x : Bytes) (ys : List Bytes)
    → All (λ q. bytes_eq x q ≡ false) ys
    → All (λ q. bytes_eq q x ≡ false) ys
turned x [] h = tt
turned x (y ∷ ys) (h, w) = (other_name x y h, turned x ys w)

-- In a queue of distinct nodes the greatest one is not among the others.
pop-Distinct :
    (x : Bytes) (xs : List Bytes)
    → Distinct (x ∷ xs)
    → Distinct (pop_max x xs).1 × All (λ q. bytes_eq q (pop_max x xs).0 ≡ false) (pop_max x xs).1
unfolding pop_max
pop-Distinct x [] d = (tt, tt)
pop-Distinct x (y ∷ ys) (dx, d) =
    let (rest, far) = pop-Distinct y ys d in
    let other = member-All x (y ∷ ys) dx in
    let (xm, xr) = pop-All (λ q. bytes_eq x q ≡ false) y ys other.0 other.1 in
    elim (Bool-cases (bytes_less x (pop_max y ys).0)) [
      | inl e ↦
          rw e ((All-member x (pop_max y ys).1 (turned x (pop_max y ys).1 xr), rest), (xm, far))
      | inr e ↦ rw e (
        (All-member (pop_max y ys).0 (pop_max y ys).1 far, rest),
        (other_name x (pop_max y ys).0 xm, turned x (pop_max y ys).1 xr),
      )
    ]

-- Behind `done`, every node of the list comes for the first time, and behind its predecessors.
abbrev pub Respects : Graph → List Bytes → List Bytes → Type 0
Respects g done [] = Unit
Respects g done (x ∷ r) =
    (member x done ≡ false)
    × ((p : Bytes) → member x (neighbours_of p g) ≡ true → member p done ≡ true)
    × Respects g (x ∷ done) r

neighbours-Distinct :
    (x : Bytes) (g : Graph) → All (λ n. Distinct n.neighbours) g → Distinct (neighbours_of x g)
unfolding neighbours_of
neighbours-Distinct x [] h = tt
neighbours-Distinct x (n ∷ g) (h, w) = elim (Bool-cases (bytes_eq x n.name)) [
  | inl e ↦ rw e h
  | inr e ↦ rw e (neighbours-Distinct x g w)
]

apart_more :
    (m : Bytes) (done qs : List Bytes)
    → All (λ q. bytes_eq q m ≡ false) qs
    → All (λ q. member q done ≡ false) qs
    → All (λ q. member q (m ∷ done) ≡ false) qs
unfolding member
apart_more m done [] h w = tt
apart_more m done (q ∷ qs) (h, hs) (w, ws) = (rw h w, apart_more m done qs hs ws)

take-IsQueue :
    (x : Bytes) (queue done : List Bytes) (ds : Degrees)
    → IsQueue ds (x ∷ queue) done
    → IsQueue ds (pop_max x queue).1 ((pop_max x queue).0 ∷ done)
      × Spent ds (pop_max x queue).0
      × (member (pop_max x queue).0 done ≡ false)
take-IsQueue x queue done ds w =
    let (d, far) = pop-Distinct x queue w.distinct in
    let (s, ss) = pop-All (Spent ds) x queue w.waiting.0 w.waiting.1 in
    let (a, near) = pop-All (λ q. member q done ≡ false) x queue w.apart.0 w.apart.1 in
    (
      record {
        distinct = d;
        waiting = ss;
        taken = (s, w.taken);
        apart = apart_more (pop_max x queue).0 done (pop_max x queue).1 far near;
      },
      s,
      a,
    )

Owes-take :
    (g : Graph) (ds : Degrees) (m : Bytes) (done : List Bytes)
    → member m done ≡ false
    → Owes (λ y. open_preds done y g) ds
    → Owes (plus (λ y. open_preds (m ∷ done) y g) (neighbours_of m g)) ds
Owes-take g ds m done out w y h =
    let le = w y h in
    elim (Bool-cases (member y (neighbours_of m g))) [
      | inl e ↦ let drop = preds_drop m done y g out e in rw e (omega (arith, le, drop))
      | inr e ↦ let less = preds_less m done y g in rw e (omega (arith, le, less))
    ]

-- The loop keeps to the edges.
pub sort_loop-Respects :
    (fuel : ℕ) (g : Graph) (ds : Degrees) (queue done : List Bytes)
    → All (λ n. Distinct n.neighbours) g
    → Owes (λ y. open_preds done y g) ds
    → IsQueue ds queue done
    → Respects g done (sort_loop fuel g ds queue)
unfolding sort_loop
sort_loop-Respects zero g ds queue done d w q = tt
sort_loop-Respects (suc fuel) g ds [] done d w q = tt
sort_loop-Respects (suc fuel) g ds (x ∷ queue) done d w q =
    let m = (pop_max x queue).0 in
    let (q', spent, out) = take-IsQueue x queue done ds q in
    let owed = Owes-take g ds m done out w in
    let (w', q'') =
      release_lem (λ y. open_preds (m ∷ done) y g) (neighbours_of m g) ds (pop_max x queue).1
        (m ∷ done) (neighbours-Distinct m g d) owed q' in
    (
      out,
      (λ p e. preds_none done m p g (let le = w m spent.0 in omega (arith, le, spent.1)) e),
      sort_loop-Respects fuel g _ _ (m ∷ done) d w' q'',
    )
