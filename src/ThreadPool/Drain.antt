-- ===== src/ThreadPool/Drain.antt =====
-- A graceful shutdown: a worker leaves when the queue is empty, and it stays empty.
use mergebot.Prelude.{
  ℕ, zero, suc, ◌-◌, ◌≡◌, ◌≢◌, refl, true, false, Bool, some, ◌++◌, arith, map, ap, ◌∙◌, sym, ◌==◌,
  if◌then◌else◌, append-nil, Bool-cases, inl, inr,
}
use mergebot.ThreadPool.{
  Pool, Shutdown, running, immediate_shutdown, graceful_shutdown, is_running, threadpool_add,
  threadpool_thread, threadpool_destroy, threadpool_create, start_workers, enqueue, dequeue,
  must_exit, bad_sizes,
}
use mergebot.ThreadPool.Fifo.{Holds-none}
use mergebot.ThreadPool.Run.{
  System, Step, add, work, destroy, Reach, here, next, begin, calm, note_add, note_turn,
}
use mergebot.ThreadPool.Branches.{
  add_full, add_down, add_ok, turn_waits, turn_exits, turn_runs, turn_case, idle, leave, busy,
}
use mergebot.ThreadPool.Order.{Reach-IsFifo}

-- Workers leave a pool that is shut down only, and a gracefully shut down one when it is empty.
abbrev pub IsDrained : ℕ → Shutdown → ℕ → Type 0
IsDrained exited running count = exited ≡ 0
IsDrained exited immediate_shutdown count = Unit
IsDrained exited graceful_shutdown count = (exited ≢ 0) → count ≡ 0

abbrev pub Drains : {A : Type 0} → System A → Type 0
Drains s = IsDrained s.exited s.pool.shutdown s.pool.count

running_any :
    (exited : ℕ) (d : Shutdown) (c c' : ℕ)
    → is_running d ≡ true
    → IsDrained exited d c
    → IsDrained exited d c'
running_any exited running c c' r h = h
running_any exited immediate_shutdown c c' r h = absurd cc
running_any exited graceful_shutdown c c' r h = absurd cc

after_exit : (exited : ℕ) (d : Shutdown) (c : ℕ) → must_exit d c ≡ true → IsDrained (suc exited) d c
after_exit exited running c m = absurd cc
after_exit exited immediate_shutdown c m = tt
after_exit exited graceful_shutdown c m = λ q. ground arith

after_take :
    (exited : ℕ) (d : Shutdown) (c : ℕ)
    → (c == 0) ≡ false
    → IsDrained exited d c
    → IsDrained exited d (c - 1)
after_take exited running c z h = h
after_take exited immediate_shutdown c z h = tt
after_take exited graceful_shutdown c z h = λ q. let e = h q in ground arith

enqueue-Drains :
    {A : Type 0} (t : A) (s : System A)
    → is_running s.pool.shutdown ≡ true
    → Drains s
    → IsDrained s.exited (enqueue t s.pool).shutdown (enqueue t s.pool).count
unfolding enqueue
enqueue-Drains t s r h = running_any s.exited s.pool.shutdown s.pool.count (suc s.pool.count) r h

dequeue-Drains :
    {A : Type 0} (s : System A)
    → (s.pool.count == 0) ≡ false
    → Drains s
    → IsDrained s.exited (dequeue s.pool).shutdown (dequeue s.pool).count
unfolding dequeue
dequeue-Drains s z h = after_take s.exited s.pool.shutdown s.pool.count z h

add-Drains :
    {A : Type 0} (t : A) (s : System A)
    → Drains s
    → Drains (note_add t (threadpool_add calm t s.pool) s)
add-Drains t s h = elim (Bool-cases (s.pool.count == s.pool.queue_size)) [
  | inl f ↦ rw (add_full t s.pool f) h
  | inr f ↦ elim (Bool-cases (is_running s.pool.shutdown)) [
    | inr r ↦ rw (add_down t s.pool f r) h
    | inl r ↦ rw (add_ok t s.pool f r) (enqueue-Drains t s r h)
  ]
]

work-Drains :
    {A : Type 0} (s : System A) → Drains s → Drains (note_turn (threadpool_thread s.pool) s)
work-Drains s h = elim (turn_case s.pool) [
  | idle c r ↦ rw (turn_waits s.pool c r) h
  | leave m ↦ rw (turn_exits s.pool m) (after_exit s.exited s.pool.shutdown s.pool.count m)
  | busy m c ↦ rw (turn_runs s.pool m c) (dequeue-Drains s c h)
]

none_left :
    (exited : ℕ) (d : Shutdown) (c : ℕ) → is_running d ≡ true → IsDrained exited d c → exited ≡ 0
none_left exited running c r h = h
none_left exited immediate_shutdown c r h = absurd cc
none_left exited graceful_shutdown c r h = absurd cc

newly_down : (exited : ℕ) (d : Shutdown) (c : ℕ) → exited ≡ 0 → IsDrained exited d c
newly_down exited running c e = e
newly_down exited immediate_shutdown c e = tt
newly_down exited graceful_shutdown c e = λ q. absurd (q e)

destroy-Drains :
    {A : Type 0} (option : Shutdown) (s : System A)
    → Drains s
    → Drains (record s { pool = (threadpool_destroy option s.pool).1 })
unfolding threadpool_destroy
destroy-Drains option s h = elim (Bool-cases (is_running s.pool.shutdown)) [
  | inl r ↦ rw r (
      newly_down s.exited option s.pool.count (none_left s.exited s.pool.shutdown s.pool.count r h))
  | inr r ↦ rw r h
]

Step-Drains : {A : Type 0} {s u : System A} → Step s u → Drains s → Drains u
Step-Drains {s = s} (add t l) h = add-Drains t s h
Step-Drains {s = s} (work l m) h = work-Drains s h
Step-Drains {s = s} (destroy option r l) h = destroy-Drains option s h

start_workers-down :
    {A : Type 0} (creates : ℕ → Bool) (left i : ℕ) (p : Pool A) (c : ℕ)
    → IsDrained 0 p.shutdown c
    → IsDrained 0 (start_workers creates left i p).1.shutdown c
unfolding start_workers
start_workers-down creates zero i p c h = h
start_workers-down creates (suc left) i p c h = elim (Bool-cases (creates i)) [
  | inl e ↦ rw e (start_workers-down creates left (suc i) _ c h)
  | inr e ↦ rw e h
]

begin-Drains :
    (A : Type 0) (creates : ℕ → Bool) (threads size : ℕ)
    → Drains (begin {A = A} creates threads size)
unfolding threadpool_create
begin-Drains A creates threads size =
    start_workers-down creates (if bad_sizes threads size then 4 else threads) 0 _ _ refl

Reach-Drains :
    {A : Type 0} (creates : ℕ → Bool) (threads size : ℕ) {s : System A}
    → Reach (begin creates threads size) s
    → Drains s
Reach-Drains {A = A} creates threads size here = begin-Drains A creates threads size
Reach-Drains creates threads size (next r step) =
    Step-Drains step (Reach-Drains creates threads size r)

graceful-count :
    (exited : ℕ) (d : Shutdown) (c : ℕ)
    → d ≡ graceful_shutdown
    → exited ≢ 0
    → IsDrained exited d c
    → c ≡ 0
graceful-count exited running c e x h = absurd (x h)
graceful-count exited immediate_shutdown c e x h = absurd cc
graceful-count exited graceful_shutdown c e x h = h x

-- When a worker has left a pool that was shut down gracefully, the tasks begun are all the accepted
-- ones, in their order: a graceful shutdown drops no task.
pub Reach-graceful :
    {A : Type 0} (creates : ℕ → Bool) (threads size : ℕ) {s : System A}
    → Reach (begin creates threads size) s
    → s.pool.shutdown ≡ graceful_shutdown
    → s.exited ≢ 0
    → s.begun ≡ map some s.accepted
Reach-graceful creates threads size {s = s} r d x =
    let (ts, w, e) = Reach-IsFifo creates threads size r in
    let none_pending = Holds-none s.pool ts w (
      graceful-count s.exited s.pool.shutdown s.pool.count d x
        (Reach-Drains creates threads size r)) in
    sym (e ∙ (ap (λ l. s.begun ++ map some l) none_pending ∙ append-nil s.begun))
