-- ===== src/ThreadPool/Branches.antt =====
-- The branches of `threadpool_add` and of a worker's turn.
use mergebot.Prelude.{
  ℕ, ◌-◌, ◌≡◌, refl, true, false, some, List, [], ◌∷◌, arith, ◌∙◌, ◌==◌, Bool-cases, inl, inr,
}
use mergebot.ThreadPool.{
  Pool, ok, queue_full, shut_down, Shutdown, running, immediate_shutdown, graceful_shutdown,
  is_running, waits, exits, runs, threadpool_add, try_add, threadpool_thread, enqueue, dequeue,
  must_exit, slot,
}
use mergebot.ThreadPool.Fifo.{Holds, dequeue-Holds, Holds-nil}
use mergebot.ThreadPool.Run.{calm}

-- What `threadpool_add` does, one branch each.
pub add_full :
    {A : Type 0} (t : A) (p : Pool A)
    → (p.count == p.queue_size) ≡ true
    → threadpool_add calm t p ≡ (queue_full, p)
unfolding threadpool_add try_add
add_full t p e = rw e refl

pub add_down :
    {A : Type 0} (t : A) (p : Pool A)
    → (p.count == p.queue_size) ≡ false
    → is_running p.shutdown ≡ false
    → threadpool_add calm t p ≡ (shut_down, p)
unfolding threadpool_add try_add
add_down t p e r = rw (e, r) refl

pub add_ok :
    {A : Type 0} (t : A) (p : Pool A)
    → (p.count == p.queue_size) ≡ false
    → is_running p.shutdown ≡ true
    → threadpool_add calm t p ≡ (ok, enqueue t p)
unfolding threadpool_add try_add
add_ok t p e r = rw (e, r) refl

-- What a worker does, one branch each.
pub turn_waits :
    {A : Type 0} (p : Pool A)
    → (p.count == 0) ≡ true
    → is_running p.shutdown ≡ true
    → threadpool_thread p ≡ waits
unfolding threadpool_thread
turn_waits p e r = rw (e, r) refl

must_exit-down : (s : Shutdown) (c : ℕ) → must_exit s c ≡ true → is_running s ≡ false
must_exit-down running c e = absurd cc
must_exit-down immediate_shutdown c e = refl
must_exit-down graceful_shutdown c e = refl

pub turn_exits :
    {A : Type 0} (p : Pool A)
    → must_exit p.shutdown p.count ≡ true
    → threadpool_thread p ≡ exits (record p { started = p.started - 1 })
unfolding threadpool_thread
turn_exits p e = ground (arith, must_exit-down p.shutdown p.count e)

pub turn_runs :
    {A : Type 0} (p : Pool A)
    → must_exit p.shutdown p.count ≡ false
    → (p.count == 0) ≡ false
    → threadpool_thread p ≡ runs (slot p.queue p.head) (dequeue p)
unfolding threadpool_thread
turn_runs p e c = rw (e, c) refl

not_idle : (s : Shutdown) (c : ℕ) → must_exit s c ≡ false → is_running s ≡ false → (c == 0) ≡ false
not_idle running c m r = absurd cc
not_idle immediate_shutdown c m r = absurd cc
not_idle graceful_shutdown c m r = m

-- The three turns of a worker, with what decides between them.
pub data TurnCase {A : Type 0} (p : Pool A) : Type 0 where
  idle : (p.count == 0) ≡ true → is_running p.shutdown ≡ true → TurnCase p
  leave : must_exit p.shutdown p.count ≡ true → TurnCase p
  busy : must_exit p.shutdown p.count ≡ false → (p.count == 0) ≡ false → TurnCase p

pub turn_case : {A : Type 0} (p : Pool A) → TurnCase p
turn_case p = elim (Bool-cases (must_exit p.shutdown p.count)) [
  | inl m ↦ leave m
  | inr m ↦ elim (Bool-cases (p.count == 0)) [
    | inr c ↦ busy m c
    | inl c ↦ elim (Bool-cases (is_running p.shutdown)) [
      | inl r ↦ idle c r
      | inr r ↦ busy m (not_idle p.shutdown p.count m r)
    ]
  ]
]

-- The next task that a worker takes is the first in the queue.
pub turn-Holds :
    {A : Type 0} (p : Pool A) (ts : List A)
    → Holds p ts
    → must_exit p.shutdown p.count ≡ false
    → (p.count == 0) ≡ false
    → (t : A) × (rest : List A) × (ts ≡ t ∷ rest)
      × (threadpool_thread p ≡ runs (some t) (dequeue p))
      × Holds (dequeue p) rest
turn-Holds p [] w m c = let z = Holds-nil p w in absurd (ground arith)
turn-Holds p (t ∷ rest) w m c =
    let (e, w') = dequeue-Holds p t rest w in (t, rest, refl, turn_runs p m c ∙ rw e refl, w')
