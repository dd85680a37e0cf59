-- ===== src/ThreadPool.antt =====
-- src/utils/ThreadPool.cpp and include/mergebot/utils/ThreadPool.h: the state of the pool under its
-- mutex, and what each critical section does with it. An `int` that the code tests with `<= 0` is 0
-- here where it is negative. Tasks are of any type; an empty `std::function` is `none`.
use mergebot.Prelude.{
  ℕ, zero, suc, ◌+◌, ◌-◌, ◌%◌, Bool, true, false, ◌&&◌, ◌||◌, not, Option, none, some, List, [],
  ◌∷◌, ltb, leb, ◌==◌, if◌then◌else◌,
}
pub mod Window
pub mod Fifo
pub mod Run
pub mod Branches
pub mod Order
pub mod Drain
pub mod Errors
mod Tests

-- `shutdown`, 0 or an option of `ShutDownOption`.
pub data Shutdown : Type 0 where
  running immediate_shutdown graceful_shutdown : Shutdown

-- The error codes, and 0.
pub data Code : Type 0 where
  ok invalid lock_failure queue_full shut_down thread_failure : Code

-- The static members. `locked` is the state of `lock` between two critical sections.
pub record Pool (A : Type 0) : Type 0 where
  pub queue : List (Option A)
  pub thread_count : ℕ
  pub queue_size : ℕ
  pub head : ℕ
  pub tail : ℕ
  pub count : ℕ
  pub shutdown : Shutdown
  pub started : ℕ
  pub locked : Bool

abbrev pub max_threads : ℕ
max_threads = 1024

abbrev pub max_queue : ℕ
max_queue = 65535

-- `queue.resize(n)` of an empty vector.
pub empty_slots : {A : Type 0} → ℕ → List (Option A)
empty_slots zero = []
empty_slots (suc n) = none ∷ empty_slots n

-- `queue[i]`, and an assignment to it; beyond the end, where the code would be undefined, nothing is
-- read or written.
pub slot : {A : Type 0} → List (Option A) → ℕ → Option A
slot [] i = none
slot (x ∷ q) zero = x
slot (x ∷ q) (suc i) = slot q i

pub set_slot : {A : Type 0} → List (Option A) → ℕ → Option A → List (Option A)
set_slot [] i y = []
set_slot (x ∷ q) zero y = y ∷ q
set_slot (x ∷ q) (suc i) y = x ∷ set_slot q i y

-- The loop of `threadpool_create`: `left` threads to go, `creates i` tells whether `pthread_create`
-- makes the i-th.
pub start_workers : {A : Type 0} → (ℕ → Bool) → ℕ → ℕ → Pool A → Code × Pool A
start_workers creates zero i p = (ok, p)
start_workers creates (suc left) i p =
    let more =
      start_workers creates left (suc i)
        (record p { thread_count = p.thread_count + 1; started = p.started + 1 }) in
    if creates i then more else (invalid, p)

abbrev pub bad_sizes : ℕ → ℕ → Bool
bad_sizes thread_count queue_size =
    leb thread_count 0
    || (ltb max_threads thread_count || (leb queue_size 0 || ltb max_queue queue_size))

pub threadpool_create : {A : Type 0} → (ℕ → Bool) → ℕ → ℕ → Code × Pool A
unfolding start_workers empty_slots
threadpool_create creates thread_count queue_size =
    let bad = bad_sizes thread_count queue_size in
    let threads = if bad then 4 else thread_count in
    let size = if bad then 1024 else queue_size in
    start_workers creates threads 0 (record {
      queue = empty_slots size;
      thread_count = 0;
      queue_size = size;
      head = 0;
      tail = 0;
      count = 0;
      shutdown = running;
      started = 0;
      locked = false;
    })

abbrev pub is_running : Shutdown → Bool
is_running running = true
is_running immediate_shutdown = false
is_running graceful_shutdown = false

-- What the calls of pthread in `threadpool_add` return: 0 or not.
pub record Pthread : Type 0 where
  pub locks : Bool
  pub signals : Bool
  pub unlocks : Bool

pub enqueue : {A : Type 0} → A → Pool A → Pool A
unfolding set_slot
enqueue task p = record p {
  queue = set_slot p.queue p.tail (some task);
  tail = (p.tail + 1) % p.queue_size;
  count = suc p.count;
}

-- The `do … while (false)` of `threadpool_add`.
pub try_add : {A : Type 0} → Bool → A → Pool A → Code × Pool A
unfolding enqueue
try_add signals task p =
    if p.count == p.queue_size
    then (queue_full, p)
    else if not (is_running p.shutdown)
    then (shut_down, p)
    else (if signals then ok else lock_failure, enqueue task p)

-- `threadpool_add` from the point at which the mutex is free. A mutex that cannot be unlocked stays
-- locked.
pub threadpool_add : {A : Type 0} → Pthread → A → Pool A → Code × Pool A
unfolding try_add
threadpool_add sys task p =
    let (err, p') = try_add sys.signals task p in
    if not sys.locks
    then (lock_failure, p)
    else if not sys.unlocks
    then (lock_failure, record p' { locked = true })
    else (err, p')

-- What a worker does when it holds the mutex.
pub data Turn (A : Type 0) : Type 0 where
  -- `pthread_cond_wait`
  waits : Turn A
  -- the loop ends, and the thread with it
  exits : Pool A → Turn A
  -- the task that it runs when it has released the mutex
  runs : Option A → Pool A → Turn A

pub dequeue : {A : Type 0} → Pool A → Pool A
unfolding set_slot
dequeue p = record p {
  queue = set_slot p.queue p.head none;
  head = (p.head + 1) % p.queue_size;
  count = p.count - 1;
}

abbrev pub must_exit : Shutdown → ℕ → Bool
must_exit running count = false
must_exit immediate_shutdown count = true
must_exit graceful_shutdown count = count == 0

pub threadpool_thread : {A : Type 0} → Pool A → Turn A
unfolding dequeue slot
threadpool_thread p =
    if p.count == 0 && is_running p.shutdown
    then waits
    else if must_exit p.shutdown p.count
    then exits (record p { started = p.started - 1 })
    else runs (slot p.queue p.head) (dequeue p)

-- `threadpool_destroy` up to the joins, the calls of pthread succeeding: a pool that is shut down
-- already is left with its mutex locked.
pub threadpool_destroy : {A : Type 0} → Shutdown → Pool A → Code × Pool A
threadpool_destroy option p =
    if is_running p.shutdown
    then (ok, record p { shutdown = option })
    else (shut_down, record p { locked = true })
