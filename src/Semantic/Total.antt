-- ===== src/Semantic/Total.antt =====
-- `mergeStrVecByUnion` as a whole.
use mergebot.Prelude.{
  ℕ, zero, suc, ◌≡◌, refl, true, false, ◌||◌, some, List, [], ◌∷◌, ◌++◌, arith, length-append,
  Bool-cases, Option-cases, inl, inr, sym, subst,
}
use mergebot.Bytes.{Bytes, bytes_eq, bytes_eq_sound, bytes_eq_refl}
use mergebot.Semantic.{seen_in, fence, walk, remove_seen, merge_str_vec_by_union}
use mergebot.Semantic.Union.{Ready, Inserted, flush_lem, fence-bound, fence-seen, seen_in-append}

-- The outcome of the loop over a list.
record Walked (fences vec ret tmp : List Bytes) (pos : ℕ) : Type 0 where
  out : List Bytes
  last : ℕ
  runs : walk fences vec ret tmp pos ≡ some (out, last)
  ready : Ready fences out last
  same : (z : Bytes) → seen_in z out ≡ (seen_in z ret || (seen_in z tmp || seen_in z vec))

fenced-seen :
    (fences ret : List Bytes) (pos : ℕ) (x z : Bytes) (i : ℕ)
    → Ready fences ret pos
    → fence x fences ≡ some i
    → bytes_eq z x ≡ true
    → seen_in z ret ≡ true
fenced-seen fences ret pos x z i h e q =
    h.kept z
      (subst (λ y. seen_in y fences ≡ true) (sym (bytes_eq_sound z x q)) (fence-seen x fences i e))

Ready-again :
    (fences ret tmp r : List Bytes) (pos : ℕ) (x : Bytes) (i : ℕ)
    → Ready fences ret pos
    → Inserted tmp ret r
    → fence x fences ≡ some i
    → Ready fences r (suc i)
Ready-again fences ret tmp r pos x i h ins e =
    let b = fence-bound x fences i e in
    let l = h.longer in
    let g = ins.grown in
    record {
      within = omega arith;
      longer = omega arith;
      kept = λ z q. let k = h.kept z q in let s = ins.same z in ground arith;
    }

walk_end :
    (fences ret tmp : List Bytes) (pos : ℕ) → Ready fences ret pos → Walked fences [] ret tmp pos
unfolding walk seen_in
walk_end fences ret [] pos h = record {
  out = ret;
  last = pos;
  runs = refl;
  ready = h;
  same = λ z. ground arith;
}
walk_end fences ret (x ∷ tmp) pos h =
    let n = length-append ret (x ∷ tmp) in
    let w = h.within in
    let l = h.longer in
    record {
      out = ret ++ x ∷ tmp;
      last = pos;
      runs = refl;
      ready = record {
        within = omega arith;
        longer = omega arith;
        kept = λ z q. let k = h.kept z q in let s = seen_in-append z ret (x ∷ tmp) in ground arith;
      };
      same = λ z. let s = seen_in-append z ret (x ∷ tmp) in ground arith;
    }

walk_lem :
    (fences vec ret tmp : List Bytes) (pos : ℕ)
    → Ready fences ret pos
    → Walked fences vec ret tmp pos
unfolding walk seen_in
walk_lem fences [] ret tmp pos h = walk_end fences ret tmp pos h
walk_lem fences (x ∷ vec) ret tmp pos h = elim (Option-cases (fence x fences)) [
  | inl e ↦
      let w = walk_lem fences vec ret (tmp ++ x ∷ []) pos h in
      record {
        out = w.out;
        last = w.last;
        runs = rw (e, walk) w.runs;
        ready = w.ready;
        same = λ z. let s = w.same z in let a = seen_in-append z tmp (x ∷ []) in ground arith;
      }
  | inr (i, e) ↦
      let (r, (f, ins)) = flush_lem pos tmp ret h.within in
      let w = walk_lem fences vec r [] (suc i) (Ready-again fences ret tmp r pos x i h ins e) in
      record {
        out = w.out;
        last = w.last;
        runs = rw (e, f, walk) w.runs;
        ready = w.ready;
        same = λ z.
            let s = w.same z in
            let a = ins.same z in let k = fenced-seen fences ret pos x z i h e in ground arith;
      }
]

-- No element stands twice.
abbrev pub NoRepeat : List Bytes → Type 0
NoRepeat [] = Unit
NoRepeat (x ∷ xs) = (seen_in x xs ≡ false) × NoRepeat xs

remove_seen-seen :
    (seen xs : List Bytes) (z : Bytes)
    → seen_in z seen ≡ false
    → seen_in z (remove_seen seen xs) ≡ seen_in z xs
unfolding remove_seen seen_in
remove_seen-seen seen [] z h = refl
remove_seen-seen seen (x ∷ xs) z h = elim (Bool-cases (seen_in x seen)) [
  | inl e ↦
      let other : bytes_eq z x ≡ false = apart seen z x h e in
      let r = remove_seen-seen seen xs z h in rw (e, other, remove_seen, seen_in) r
  | inr e ↦ elim (Bool-cases (bytes_eq z x)) [
    | inl q ↦ rw (e, q, remove_seen, seen_in) refl
    | inr q ↦
        let g : seen_in z (x ∷ seen) ≡ false = rw (q, seen_in) h in
        let r = remove_seen-seen (x ∷ seen) xs z g in rw (e, q, remove_seen, seen_in) r
  ]
]
  where
    apart :
        (seen : List Bytes) (z x : Bytes)
        → seen_in z seen ≡ false
        → seen_in x seen ≡ true
        → bytes_eq z x ≡ false
    apart seen z x h e = elim (Bool-cases (bytes_eq z x)) [
      | inl q ↦ let r = subst (λ y. seen_in y seen ≡ false) (bytes_eq_sound z x q) h in absurd cc
      | inr q ↦ q
    ]

remove_seen-drops :
    (seen xs : List Bytes) (z : Bytes)
    → seen_in z seen ≡ true
    → seen_in z (remove_seen seen xs) ≡ false
unfolding remove_seen seen_in
remove_seen-drops seen [] z h = refl
remove_seen-drops seen (x ∷ xs) z h = elim (Bool-cases (seen_in x seen)) [
  | inl e ↦ rw (e, remove_seen) (remove_seen-drops seen xs z h)
  | inr e ↦ elim (Bool-cases (bytes_eq z x)) [
    | inl q ↦ let r = subst (λ y. seen_in y seen ≡ true) (bytes_eq_sound z x q) h in absurd cc
    | inr q ↦
        let g : seen_in z (x ∷ seen) ≡ true = rw (q, seen_in) h in
        rw (e, q, remove_seen, seen_in) (remove_seen-drops (x ∷ seen) xs z g)
  ]
]

remove_seen-NoRepeat : (seen xs : List Bytes) → NoRepeat (remove_seen seen xs)
unfolding remove_seen
remove_seen-NoRepeat seen [] = tt
remove_seen-NoRepeat seen (x ∷ xs) = elim (Bool-cases (seen_in x seen)) [
  | inl e ↦ rw (e, remove_seen) (remove_seen-NoRepeat seen xs)
  | inr e ↦
      let g : seen_in x (x ∷ seen) ≡ true = rw (bytes_eq_refl x, seen_in) refl in
      rw (e, remove_seen) (remove_seen-drops (x ∷ seen) xs x g, remove_seen-NoRepeat (x ∷ seen) xs)
]

start-Ready : (fences : List Bytes) → Ready fences fences zero
start-Ready fences = record { within = omega arith; longer = omega arith; kept = λ z q. q }

built :
    (v1 v2 v3 ret all : List Bytes) (pos last : ℕ)
    → walk v1 v2 v1 [] 0 ≡ some (ret, pos)
    → walk v1 v3 ret [] pos ≡ some (all, last)
    → merge_str_vec_by_union v1 v2 v3 ≡ some (remove_seen [] all)
unfolding merge_str_vec_by_union
built v1 v2 v3 ret all pos last e f = rw (merge_str_vec_by_union, e, f) refl

-- The union of three lists is always built: no insertion is made behind the end. It repeats nothing,
-- and an element is in it exactly when it is in one of the lists.
pub merge_str_vec_by_union-total :
    (v1 v2 v3 : List Bytes)
    → (r : List Bytes) × ((merge_str_vec_by_union v1 v2 v3 ≡ some r)
        × (NoRepeat r
            × ((z : Bytes) → seen_in z r ≡ (seen_in z v1 || (seen_in z v2 || seen_in z v3)))))
unfolding seen_in
merge_str_vec_by_union-total v1 v2 v3 =
    let w = walk_lem v1 v2 v1 [] 0 (start-Ready v1) in
    let w' = walk_lem v1 v3 w.out [] w.last w.ready in
    (
      remove_seen [] w'.out,
      (
        built v1 v2 v3 w.out w'.out w.last w'.last w.runs w'.runs,
        (
          remove_seen-NoRepeat [] w'.out,
          λ z.
              let r = remove_seen-seen [] w'.out z refl in
              let a = w.same z in let b = w'.same z in ground arith,
        ),
      ),
    )
