-- ===== src/ThreadPool/Errors.antt =====
-- Errors of the pool: calls of pthread that fail, and a shutdown that is asked for twice.
use mergebot.Prelude.{
  ℕ, ◌≡◌, ◌<◌, ◌≤◌, refl, true, false, List, [], ◌∷◌, ◌++◌, arith, ◌==◌, Bool-cases, inl, inr, ◌⊎◌,
  ◌&&◌, subst, sym, Bool, if◌then◌else◌,
}
use mergebot.ThreadPool.{
  Pool, Pthread, Code, ok, lock_failure, queue_full, shut_down, Shutdown, is_running, enqueue,
  threadpool_add, try_add, threadpool_destroy,
}
use mergebot.ThreadPool.Fifo.{Holds, enqueue-Holds}
use mergebot.ThreadPool.Run.{System, Step, add, work, destroy}

-- What a result of `threadpool_add` on a pool that holds `ts` can be: the task is the last of the
-- queue; or the queue is full; or the pool is shut down; or a call of pthread failed.
abbrev pub Outcome : {A : Type 0} → Pthread → A → Pool A → List A → Code × Pool A → Type 0
Outcome sys t p ts r =
    ((r.0 ≡ ok) × Holds r.1 (ts ++ t ∷ []))
    ⊎ ((r.0 ≡ queue_full) × (r.1 ≡ p) × (p.count ≡ p.queue_size))
    ⊎ ((r.0 ≡ shut_down) × (r.1 ≡ p) × (is_running p.shutdown ≡ false))
    ⊎ ((r.0 ≡ lock_failure) × ((sys.locks && (sys.signals && sys.unlocks)) ≡ false))

full_count : (c n : ℕ) → (c == n) ≡ true → c ≡ n
full_count c n h = ground arith

not_full : (c n : ℕ) → c ≤ n → (c == n) ≡ false → c < n
not_full c n h e = ground arith

and_false : (a b : Bool) → b ≡ false → (a && b) ≡ false
and_false a b e = ground arith

try_add_ok :
    {A : Type 0} (signals : Bool) (t : A) (p : Pool A)
    → (p.count == p.queue_size) ≡ false
    → is_running p.shutdown ≡ true
    → try_add signals t p ≡ (if signals then ok else lock_failure, enqueue t p)
unfolding try_add
try_add_ok signals t p f r = rw (f, r) refl

try_add-Outcome :
    {A : Type 0} (sys : Pthread) (t : A) (p : Pool A) (ts : List A)
    → Holds p ts
    → Outcome sys t p ts (try_add sys.signals t p)
unfolding try_add
try_add-Outcome sys t p ts w = elim (Bool-cases (p.count == p.queue_size)) [
  | inl f ↦ inr (inl (rw f refl, rw f refl, full_count p.count p.queue_size f))
  | inr f ↦ elim (Bool-cases (is_running p.shutdown)) [
    | inr r ↦ inr (inr (inl (rw (f, r) refl, rw (f, r) refl, r)))
    | inl r ↦ elim (Bool-cases sys.signals) [
      | inl g ↦
          inl (rw (f, r, g) (refl, enqueue-Holds p ts t w (not_full p.count p.queue_size w.fits f)))
      | inr g ↦ inr (
          inr
            (inr (rw (f, r, g) refl, and_false sys.locks (sys.signals && sys.unlocks) (rw g refl))))
    ]
  ]
]

add_calm :
    {A : Type 0} (sys : Pthread) (t : A) (p : Pool A)
    → sys.locks ≡ true
    → sys.unlocks ≡ true
    → threadpool_add sys t p ≡ try_add sys.signals t p
unfolding threadpool_add
add_calm sys t p l u = rw (l, u) refl

add_failed :
    {A : Type 0} (sys : Pthread) (t : A) (p : Pool A)
    → (sys.locks && sys.unlocks) ≡ false
    → (threadpool_add sys t p).0 ≡ lock_failure
unfolding threadpool_add
add_failed sys t p e = elim (Bool-cases sys.locks) [
  | inr l ↦ rw l refl
  | inl l ↦ elim (Bool-cases sys.unlocks) [ inr u ↦ rw (l, u) refl | inl u ↦ absurd (ground arith) ]
]

drop_signal : (a b c : Bool) → (a && b) ≡ false → (a && (c && b)) ≡ false
drop_signal a b c e = ground arith

and_true : (a b : Bool) → (a && b) ≡ true → (a ≡ true) × (b ≡ true)
and_true a b e = ground arith

-- `threadpool_add` on a pool that holds `ts` has one of four outcomes: code 0, and the task is the
-- last in the queue; the code for a full queue, which is full, or that for a pool that is shut
-- down, which it is, and the pool as before in both cases; or, only when a call of pthread failed,
-- the code for that.
pub threadpool_add_lem :
    {A : Type 0} (sys : Pthread) (t : A) (p : Pool A) (ts : List A)
    → Holds p ts
    → Outcome sys t p ts (threadpool_add sys t p)
threadpool_add_lem sys t p ts w = elim (Bool-cases (sys.locks && sys.unlocks)) [
  | inr e ↦ inr (inr (inr (add_failed sys t p e, drop_signal sys.locks sys.unlocks sys.signals e)))
  | inl e ↦
      let (l, u) = and_true sys.locks sys.unlocks e in
      subst (λ r. Outcome sys t p ts r) (sym (add_calm sys t p l u)) (try_add-Outcome sys t p ts w)
]

-- Where only the signal fails, on a running pool that is not full, `threadpool_add` returns an error
-- although the task is in the queue.
pub add_unsignalled :
    {A : Type 0} (sys : Pthread) (t : A) (p : Pool A) (ts : List A)
    → Holds p ts
    → sys.signals ≡ false
    → sys.locks ≡ true
    → sys.unlocks ≡ true
    → is_running p.shutdown ≡ true
    → (p.count == p.queue_size) ≡ false
    → ((threadpool_add sys t p).0 ≡ lock_failure) × Holds (threadpool_add sys t p).1 (ts ++ t ∷ [])
add_unsignalled sys t p ts w g l u r f =
    rw (add_calm sys t p l u, try_add_ok sys.signals t p f r, g)
      (refl, enqueue-Holds p ts t w (not_full p.count p.queue_size w.fits f))

no-Step : {A : Type 0} (s u : System A) → s.pool.locked ≡ true → Step s u → ⊥
no-Step s u k (add t l) = absurd cc
no-Step s u k (work l m) = absurd cc
no-Step s u k (destroy option r l) = absurd cc

-- A second shutdown returns with the mutex locked: from then on no caller, worker or shutdown gets
-- into a critical section again.
pub destroy_twice :
    {A : Type 0} (option : Shutdown) (s u : System A)
    → is_running s.pool.shutdown ≡ false
    → ((threadpool_destroy option s.pool).0 ≡ shut_down)
      × (¬ Step (record s { pool = (threadpool_destroy option s.pool).1 }) u)
unfolding threadpool_destroy
destroy_twice option s u r = rw r (refl, λ step. no-Step _ u refl step)
