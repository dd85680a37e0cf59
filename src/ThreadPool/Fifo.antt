-- ===== src/ThreadPool/Fifo.antt =====
-- The slots in use, seen as a queue of tasks.
use mergebot.Prelude.{
  ℕ, zero, suc, ◌-◌, ◌≡◌, ◌≢◌, ◌<◌, ◌≤◌, refl, Option, none, some, List, [], ◌∷◌, ◌++◌, arith,
  length, map, ap, ◌∙◌, sym,
}
use mergebot.ThreadPool.{Pool, slot, set_slot, enqueue, dequeue}
use mergebot.ThreadPool.Window.{
  wrap, mod-wrap, wrap-lt, advance, advance_lem, window, advance-suc, window-snoc, slot_set,
  length-set_slot, window-set_slot,
}

-- The indices are inside the queue, `tail` is `count` slots behind `head`, and the slots between
-- them hold the tasks `ts` in their order.
pub record Holds {A : Type 0} (p : Pool A) (ts : List A) : Type 0 where
  pub sized : length p.queue ≡ p.queue_size
  pub head_in : p.head < p.queue_size
  pub fits : p.count ≤ p.queue_size
  pub tail_at : p.tail ≡ advance p.queue_size p.count p.head
  pub filled : window p.queue_size p.count p.head p.queue ≡ map some ts

suc-sub_one : (n : ℕ) → suc n - 1 ≡ n
suc-sub_one n = omega arith

advance-lt : (size n h : ℕ) → h < size → advance size n h < size
advance-lt size zero h lt = lt
advance-lt size (suc n) h lt = advance-lt size n (wrap size h) (wrap-lt size h lt)

-- The tail is a slot that no earlier step from the head reaches.
advance-ne : (size n k h : ℕ) → h < size → n < size → k < n → advance size k h ≢ advance size n h
advance-ne size n k h lt ln lk e =
    ground (arith, advance_lem size n h lt (omega arith), advance_lem size k h lt (omega arith))

pub map-snoc :
    {A : Type 0} (ts : List A) (t : A) → map some ts ++ some t ∷ [] ≡ map some (ts ++ t ∷ [])
map-snoc [] t = refl
map-snoc (x ∷ ts) t = ap (λ l. some x ∷ l) (map-snoc ts t)

window-enqueue :
    {A : Type 0} (p : Pool A) (ts : List A) (t : A)
    → Holds p ts
    → p.count < p.queue_size
    → p.tail < p.queue_size
    → window p.queue_size (suc p.count) p.head (set_slot p.queue p.tail (some t))
      ≡ map some (ts ++ t ∷ [])
window-enqueue p ts t w lt tail_lt =
    window-snoc p.queue_size p.count p.head (set_slot p.queue p.tail (some t))
    ∙ rw
        (
          window-set_slot p.queue_size p.count p.head p.tail p.queue (some t)
              (λ k l. rw w.tail_at (advance-ne p.queue_size p.count k p.head w.head_in lt l)),
          w.filled,
          sym w.tail_at,
          slot_set p.queue p.tail (some t) (rw w.sized tail_lt),
        )
        (map-snoc ts t)

pub enqueue-Holds :
    {A : Type 0} (p : Pool A) (ts : List A) (t : A)
    → Holds p ts
    → p.count < p.queue_size
    → Holds (enqueue t p) (ts ++ t ∷ [])
unfolding enqueue
enqueue-Holds p ts t w lt =
    let tail_lt : p.tail < p.queue_size =
      rw w.tail_at (advance-lt p.queue_size p.count p.head w.head_in) in
    record {
      sized = length-set_slot p.queue p.tail (some t) ∙ w.sized;
      head_in = w.head_in;
      fits = omega arith;
      tail_at =
          mod-wrap p.queue_size p.tail tail_lt
          ∙ (ap (wrap p.queue_size) w.tail_at ∙ sym (advance-suc p.queue_size p.count p.head));
      filled = window-enqueue p ts t w lt tail_lt;
    }

-- The slots behind the head are not the head.
advance-ne_head : (size n k h : ℕ) → h < size → n < size → k < n → advance size k (wrap size h) ≢ h
advance-ne_head size n k h lt ln lk e =
    ground (arith, advance_lem size k (wrap size h) (wrap-lt size h lt) (omega arith))

-- What a dequeue leaves of a window that holds a task.
window-dequeue :
    {A : Type 0} (size n h : ℕ) (q : List (Option A)) (t : A) (ts : List A)
    → h < size
    → n ≤ size
    → window size n h q ≡ some t ∷ map some ts
    → (slot q h ≡ some t)
      × (window size (n - 1) (wrap size h) (set_slot q h none) ≡ map some ts)
      × (advance size n h ≡ advance size (n - 1) (wrap size h))
unfolding window
window-dequeue size zero h q t ts lt le e = absurd cc
window-dequeue size (suc n) h q t ts lt le e = rw (suc-sub_one n) (
  cc e,
  window-set_slot size n (wrap size h) h q none (λ k l. advance-ne_head size n k h lt le l) ∙ cc e,
  refl,
)

pub dequeue-Holds :
    {A : Type 0} (p : Pool A) (t : A) (ts : List A)
    → Holds p (t ∷ ts)
    → (slot p.queue p.head ≡ some t) × Holds (dequeue p) ts
unfolding dequeue
dequeue-Holds p t ts w =
    let (first, rest, at) =
      window-dequeue p.queue_size p.count p.head p.queue t ts w.head_in w.fits w.filled in
    let next = mod-wrap p.queue_size p.head w.head_in in
    (
      first,
      record {
        sized = length-set_slot p.queue p.head none ∙ w.sized;
        head_in = rw next (wrap-lt p.queue_size p.head w.head_in);
        fits = omega (arith, w.fits);
        tail_at = rw next (w.tail_at ∙ at);
        filled = rw next rest;
      },
    )

window-nil : {A : Type 0} (size n h : ℕ) (q : List (Option A)) → window size n h q ≡ [] → n ≡ 0
unfolding window
window-nil size zero h q e = refl
window-nil size (suc n) h q e = absurd cc

-- A pool that holds no task counts none.
pub Holds-nil : {A : Type 0} (p : Pool A) → Holds p [] → p.count ≡ 0
Holds-nil p w = window-nil p.queue_size p.count p.head p.queue w.filled

window-cons :
    {A : Type 0} (size n h : ℕ) (q : List (Option A)) (x : Option A) (xs : List (Option A))
    → window size n h q ≡ x ∷ xs
    → n ≢ 0
unfolding window
window-cons size zero h q x xs e = absurd cc
window-cons size (suc n) h q x xs e = omega arith

-- A pool that counts no task holds none.
pub Holds-none : {A : Type 0} (p : Pool A) (ts : List A) → Holds p ts → p.count ≡ 0 → ts ≡ []
Holds-none p [] w e = refl
Holds-none p (t ∷ ts) w e =
    absurd (window-cons p.queue_size p.count p.head p.queue (some t) (map some ts) w.filled e)
