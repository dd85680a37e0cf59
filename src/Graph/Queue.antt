-- ===== src/Graph/Queue.antt =====
-- One round of the sort: the neighbours of the node that is taken out are released.
use mergebot.Prelude.{
  ℕ, ◌+◌, ◌-◌, ◌≡◌, ◌≤◌, refl, Bool, true, false, ◌&&◌, List, [], ◌∷◌, arith, All, Bool-cases, inl,
  inr, ◌==◌, if◌then◌else◌, ap, sym, subst, ◌∙◌,
}
use mergebot.Bytes.{Bytes, bytes_eq, bytes_eq_sound}
use mergebot.Graph.{Degrees, decrement, release, member}
use mergebot.Graph.Degrees.{
  has_counter, counter, has_counter-decrement, counter-same, counter-other, decrement-hit,
}

abbrev pub Distinct : List Bytes → Type 0
Distinct [] = Unit
Distinct (x ∷ xs) = (member x xs ≡ false) × Distinct xs

-- A node that has been counted down.
abbrev pub Spent : Degrees → Bytes → Type 0
Spent ds y = (has_counter y ds ≡ true) × (counter y ds ≡ 0)

-- The queue holds each node once, no node that was taken out before, and counted down ones only.
pub record IsQueue (ds : Degrees) (queue done : List Bytes) : Type 0 where
  pub distinct : Distinct queue
  pub waiting : All (Spent ds) queue
  pub taken : All (Spent ds) done
  pub apart : All (λ q. member q done ≡ false) queue

-- Every node's counter is at least what it owes.
abbrev pub Owes : (Bytes → ℕ) → Degrees → Type 0
Owes op ds = (y : Bytes) → has_counter y ds ≡ true → op y ≤ counter y ds

name_cases : (x y : Bytes) → bytes_eq x y ≡ true → x ≡ y
name_cases x y e = bytes_eq_sound x y e

Spent-decrement : (x y : Bytes) (ds : Degrees) → Spent ds y → Spent (decrement x ds).1 y
Spent-decrement x y ds (h, z) = (
  has_counter-decrement x y ds ∙ h,
  elim (Bool-cases (bytes_eq y x)) [
    | inl e ↦
        let q = bytes_eq_sound y x e in
        ap (λ v. counter v (decrement x ds).1) q
        ∙ (counter-same x ds ∙ ap (λ n. n - 1) (ap (λ v. counter v ds) (sym q) ∙ z))
    | inr e ↦ counter-other x y ds e ∙ z
  ],
)

All-Spent :
    (x : Bytes) (ds : Degrees) (ys : List Bytes)
    → All (Spent ds) ys
    → All (Spent (decrement x ds).1) ys
All-Spent x ds [] h = tt
All-Spent x ds (y ∷ ys) (h, w) = (Spent-decrement x y ds h, All-Spent x ds ys w)

-- A node with 1 to count down is among no counted down ones.
not_spent :
    (x : Bytes) (ds : Degrees) (ys : List Bytes)
    → counter x ds ≡ 1
    → All (Spent ds) ys
    → member x ys ≡ false
unfolding member
not_spent x ds [] e h = refl
not_spent x ds (y ∷ ys) e ((hy, z), w) = elim (Bool-cases (bytes_eq x y)) [
  | inl q ↦
      let same = ap (λ v. counter v ds) (bytes_eq_sound x y q) in absurd (omega (arith, same, e, z))
  | inr q ↦ rw q (not_spent x ds ys e w)
]

hit_one : (h : Bool) (n : ℕ) → (h && (n == 1)) ≡ true → (h ≡ true) × (n ≡ 1)
hit_one h n e = ground arith

push-IsQueue :
    (x : Bytes) (ds : Degrees) (queue done : List Bytes)
    → (decrement x ds).0 ≡ true
    → IsQueue ds queue done
    → IsQueue (decrement x ds).1 (x ∷ queue) done
push-IsQueue x ds queue done e w =
    let (h, one) = hit_one (has_counter x ds) (counter x ds) (sym (decrement-hit x ds) ∙ e) in
    record {
      distinct = (not_spent x ds queue one w.waiting, w.distinct);
      waiting = (
        (has_counter-decrement x x ds ∙ h, counter-same x ds ∙ ap (λ n. n - 1) one),
        All-Spent x ds queue w.waiting,
      );
      taken = All-Spent x ds done w.taken;
      apart = (not_spent x ds done one w.taken, w.apart);
    }

keep-IsQueue :
    (x : Bytes) (ds : Degrees) (queue done : List Bytes)
    → IsQueue ds queue done
    → IsQueue (decrement x ds).1 queue done
keep-IsQueue x ds queue done w = record {
  distinct = w.distinct;
  waiting = All-Spent x ds queue w.waiting;
  taken = All-Spent x ds done w.taken;
  apart = w.apart;
}

-- What is owed while the neighbours `ns` are still to be released.
abbrev pub plus : (Bytes → ℕ) → List Bytes → Bytes → ℕ
plus op ns y = op y + (if member y ns then 1 else 0)

Owes-decrement :
    (op : Bytes → ℕ) (n : Bytes) (ns : List Bytes) (ds : Degrees)
    → member n ns ≡ false
    → Owes (plus op (n ∷ ns)) ds
    → Owes (plus op ns) (decrement n ds).1
unfolding member
Owes-decrement op n ns ds d w y h =
    let h' : has_counter y ds ≡ true = sym (has_counter-decrement n y ds) ∙ h in
    let le = w y h' in
    elim (Bool-cases (bytes_eq y n)) [
      | inl e ↦
          let q = bytes_eq_sound y n e in
          let out : member y ns ≡ false = ap (λ v. member v ns) q ∙ d in
          let less : counter y (decrement n ds).1 ≡ counter y ds - 1 =
            subst (λ v. counter v (decrement n ds).1 ≡ counter v ds - 1) (sym q)
              (counter-same n ds) in
          ground (arith, le, out, less, e)
      | inr e ↦ let same = counter-other n y ds e in ground (arith, le, same, e)
    ]

release_hit :
    (n : Bytes) (ns : List Bytes) (ds : Degrees) (queue : List Bytes)
    → (decrement n ds).0 ≡ true
    → release (n ∷ ns) ds queue ≡ release ns (decrement n ds).1 (n ∷ queue)
unfolding release
release_hit n ns ds queue e =
    ap (λ (b : Bool). release ns (decrement n ds).1 (if b then n ∷ queue else queue)) e

release_miss :
    (n : Bytes) (ns : List Bytes) (ds : Degrees) (queue : List Bytes)
    → (decrement n ds).0 ≡ false
    → release (n ∷ ns) ds queue ≡ release ns (decrement n ds).1 queue
unfolding release
release_miss n ns ds queue e =
    ap (λ (b : Bool). release ns (decrement n ds).1 (if b then n ∷ queue else queue)) e

-- Releasing distinct neighbours keeps the queue, and pays for each of them.
pub release_lem :
    (op : Bytes → ℕ) (ns : List Bytes) (ds : Degrees) (queue done : List Bytes)
    → Distinct ns
    → Owes (plus op ns) ds
    → IsQueue ds queue done
    → Owes op (release ns ds queue).0 × IsQueue (release ns ds queue).0 (release ns ds queue).1 done
unfolding release member
release_lem op [] ds queue done d w q = (λ y h. let le = w y h in ground (arith, le), q)
release_lem op (n ∷ ns) ds queue done (d, ds') w q = elim (Bool-cases (decrement n ds).0) [
  | inl e ↦
      subst (λ r. Owes op r.0 × IsQueue r.0 r.1 done) (sym (release_hit n ns ds queue e))
        (release_lem op ns (decrement n ds).1 (n ∷ queue) done ds' (Owes-decrement op n ns ds d w)
          (push-IsQueue n ds queue done e q))
  | inr e ↦
      subst (λ r. Owes op r.0 × IsQueue r.0 r.1 done) (sym (release_miss n ns ds queue e))
        (release_lem op ns (decrement n ds).1 queue done ds' (Owes-decrement op n ns ds d w)
          (keep-IsQueue n ds queue done q))
]
