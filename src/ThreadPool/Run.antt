-- ===== src/ThreadPool/Run.antt =====
-- Runs of the pool: callers, workers and the end of the program in any order, one critical section
-- at a time. The calls of pthread succeed.
use mergebot.Prelude.{ℕ, suc, ◌≡◌, ◌<◌, true, false, Bool, Option, List, [], ◌∷◌, ◌++◌}
use mergebot.ThreadPool.{
  Pool, Pthread, Code, ok, invalid, lock_failure, queue_full, shut_down, thread_failure, Shutdown,
  is_running, Turn, waits, exits, runs, threadpool_add, threadpool_thread, threadpool_destroy,
  threadpool_create,
}

-- The pool, the tasks that were accepted and those that were taken out to run, in their order, and
-- the number of workers that have left their loop.
pub record System (A : Type 0) : Type 0 where
  pub pool : Pool A
  pub accepted : List A
  pub begun : List (Option A)
  pub exited : ℕ

abbrev pub calm : Pthread
calm = record { locks = true; signals = true; unlocks = true }

abbrev pub note_add : {A : Type 0} → A → Code × Pool A → System A → System A
note_add t (ok, p) s = record s { pool = p; accepted = s.accepted ++ t ∷ [] }
note_add t (invalid, p) s = record s { pool = p }
note_add t (lock_failure, p) s = record s { pool = p }
note_add t (queue_full, p) s = record s { pool = p }
note_add t (shut_down, p) s = record s { pool = p }
note_add t (thread_failure, p) s = record s { pool = p }

abbrev pub note_turn : {A : Type 0} → Turn A → System A → System A
note_turn waits s = s
note_turn (exits p) s = record s { pool = p; exited = suc s.exited }
note_turn (runs t p) s = record s { pool = p; begun = s.begun ++ t ∷ [] }

pub data Step {A : Type 0} (s : System A) : System A → Type 0 where
  add : (t : A) → s.pool.locked ≡ false → Step s (note_add t (threadpool_add calm t s.pool) s)
  work :
      s.pool.locked ≡ false
      → s.exited < s.pool.thread_count
      → Step s (note_turn (threadpool_thread s.pool) s)
  destroy :
      (option : Shutdown)
      → is_running option ≡ false
      → s.pool.locked ≡ false
      → Step s (record s { pool = (threadpool_destroy option s.pool).1 })

pub data Reach {A : Type 0} (s : System A) : System A → Type 0 where
  here : Reach s s
  next : {t u : System A} → Reach s t → Step t u → Reach s u

abbrev pub begin : {A : Type 0} → (ℕ → Bool) → ℕ → ℕ → System A
begin creates threads size = record {
  pool = (threadpool_create creates threads size).1;
  accepted = [];
  begun = [];
  exited = 0;
}
