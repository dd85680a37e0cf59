-- ===== src/ThreadPool/Order.antt =====
-- Tasks are run in the order in which they were accepted.
use mergebot.Prelude.{
  ℕ, zero, suc, ◌+◌, ◌-◌, ◌≡◌, ◌<◌, ◌≤◌, refl, true, false, Bool, some, List, [], ◌∷◌, ◌++◌, arith,
  map, ap, ◌∙◌, sym, ◌==◌, if◌then◌else◌, append_assoc, Bool-cases, inl, inr,
}
use mergebot.ThreadPool.{
  Pool, Shutdown, is_running, threadpool_add, threadpool_thread, threadpool_destroy,
  threadpool_create, start_workers, bad_sizes,
}
use mergebot.ThreadPool.Fifo.{Holds, enqueue-Holds, map-snoc}
use mergebot.ThreadPool.Window.{window, length-empty_slots}
use mergebot.ThreadPool.Run.{
  System, Step, add, work, destroy, Reach, here, next, begin, calm, note_add, note_turn,
}
use mergebot.ThreadPool.Branches.{
  add_full, add_down, add_ok, turn_waits, turn_exits, turn_case, idle, leave, busy, turn-Holds,
}

-- The tasks in the queue are what was accepted and is not begun.
abbrev pub IsFifo : {A : Type 0} → System A → Type 0
IsFifo {A = A} s =
    (pending : List A) × Holds s.pool pending × (map some s.accepted ≡ s.begun ++ map some pending)

not_full : (c n : ℕ) → c ≤ n → (c == n) ≡ false → c < n
not_full c n h e = ground arith

snoc_fifo :
    {A : Type 0} (t : A) (s : System A) (ts : List A)
    → map some s.accepted ≡ s.begun ++ map some ts
    → map some (s.accepted ++ t ∷ []) ≡ s.begun ++ map some (ts ++ t ∷ [])
snoc_fifo t s ts e =
    sym (map-snoc s.accepted t)
    ∙ (ap (λ l. l ++ some t ∷ []) e
        ∙ (append_assoc s.begun (map some ts) (some t ∷ [])
            ∙ ap (λ l. s.begun ++ l) (map-snoc ts t)))

add-IsFifo :
    {A : Type 0} (t : A) (s : System A)
    → IsFifo s
    → IsFifo (note_add t (threadpool_add calm t s.pool) s)
add-IsFifo t s (ts, w, e) = elim (Bool-cases (s.pool.count == s.pool.queue_size)) [
  | inl f ↦ rw (add_full t s.pool f) (ts, w, e)
  | inr f ↦ elim (Bool-cases (is_running s.pool.shutdown)) [
    | inr r ↦ rw (add_down t s.pool f r) (ts, w, e)
    | inl r ↦ rw (add_ok t s.pool f r) (
      ts ++ t ∷ [],
      enqueue-Holds s.pool ts t w (not_full s.pool.count s.pool.queue_size w.fits f),
      snoc_fifo t s ts e,
    )
  ]
]

-- What is not an index, a slot or a count does not matter.
abbrev retag : {A : Type 0} → ℕ → ℕ → Shutdown → Bool → Pool A → Pool A
retag threads started shutdown locked p = record p {
  thread_count = threads;
  started = started;
  shutdown = shutdown;
  locked = locked;
}

retag-Holds :
    {A : Type 0} (threads started : ℕ) (d : Shutdown) (l : Bool) (p : Pool A) (ts : List A)
    → Holds p ts
    → Holds (retag threads started d l p) ts
retag-Holds threads started d l p ts w = record {
  sized = w.sized;
  head_in = w.head_in;
  fits = w.fits;
  tail_at = w.tail_at;
  filled = w.filled;
}

work-IsFifo :
    {A : Type 0} (s : System A) → IsFifo s → IsFifo (note_turn (threadpool_thread s.pool) s)
work-IsFifo s (ts, w, e) = elim (turn_case s.pool) [
  | idle c r ↦ rw (turn_waits s.pool c r) (ts, w, e)
  | leave m ↦ rw (turn_exits s.pool m) (
    ts,
    retag-Holds s.pool.thread_count (s.pool.started - 1) s.pool.shutdown s.pool.locked s.pool ts w,
    e,
  )
  | busy m c ↦
      let (t, rest, q, turn, w') = turn-Holds s.pool ts w m c in
      rw turn (
        rest,
        w',
        e
            ∙ (ap (λ l. s.begun ++ map some l) q
                ∙ sym (append_assoc s.begun (some t ∷ []) (map some rest))),
      )
]

destroy-Holds :
    {A : Type 0} (option : Shutdown) (p : Pool A) (ts : List A)
    → Holds p ts
    → Holds (threadpool_destroy option p).1 ts
unfolding threadpool_destroy
destroy-Holds option p ts w = elim (Bool-cases (is_running p.shutdown)) [
  | inl r ↦ rw r (retag-Holds p.thread_count p.started option p.locked p ts w)
  | inr r ↦ rw r (retag-Holds p.thread_count p.started p.shutdown true p ts w)
]

Step-IsFifo : {A : Type 0} {s u : System A} → Step s u → IsFifo s → IsFifo u
Step-IsFifo {s = s} (add t l) h = add-IsFifo t s h
Step-IsFifo {s = s} (work l m) h = work-IsFifo s h
Step-IsFifo {s = s} (destroy option r l) (ts, w, e) = (ts, destroy-Holds option s.pool ts w, e)

start_workers-Holds :
    {A : Type 0} (creates : ℕ → Bool) (left i : ℕ) (p : Pool A) (ts : List A)
    → Holds p ts
    → Holds (start_workers creates left i p).1 ts
unfolding start_workers
start_workers-Holds creates zero i p ts w = w
start_workers-Holds creates (suc left) i p ts w = elim (Bool-cases (creates i)) [
  | inl c ↦ rw c (
      start_workers-Holds creates left (suc i) _ ts
        (retag-Holds (p.thread_count + 1) (p.started + 1) p.shutdown p.locked p ts w))
  | inr c ↦ rw c w
]

size_pos : (threads size : ℕ) → 0 < (if bad_sizes threads size then 1024 else size)
size_pos threads size = ground arith

begin-IsFifo :
    {A : Type 0} (creates : ℕ → Bool) (threads size : ℕ)
    → IsFifo (begin {A = A} creates threads size)
unfolding threadpool_create
begin-IsFifo {A = A} creates threads size =
    let n = if bad_sizes threads size then 1024 else size in
    (
      [],
      start_workers-Holds creates (if bad_sizes threads size then 4 else threads) 0 _ [] (record {
        sized = length-empty_slots A n;
        head_in = size_pos threads size;
        fits = omega arith;
        tail_at = refl;
        filled = unfold window in refl;
      }),
      refl,
    )

-- In every state that callers, workers and a shutdown lead to, in whatever order: the tasks begun so
-- far and then the tasks that the ring holds are the accepted ones, in the order in which they were
-- accepted; none is lost, none is run twice and no worker picks up an empty slot.
pub Reach-IsFifo :
    {A : Type 0} (creates : ℕ → Bool) (threads size : ℕ) {s : System A}
    → Reach (begin creates threads size) s
    → IsFifo s
Reach-IsFifo creates threads size here = begin-IsFifo creates threads size
Reach-IsFifo creates threads size (next r step) =
    Step-IsFifo step (Reach-IsFifo creates threads size r)
