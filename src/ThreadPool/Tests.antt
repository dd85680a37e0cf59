-- ===== src/ThreadPool/Tests.antt =====
-- A pool of one worker and two slots, and the theorems applied to its runs.
use mergebot.Prelude.{ℕ, ◌≡◌, ◌≢◌, refl, true, false, Bool, some, [], ◌∷◌, arith, map}
use mergebot.ThreadPool.{
  Pthread, threadpool_create, threadpool_add, try_add, threadpool_thread, threadpool_destroy,
  graceful_shutdown, start_workers, empty_slots, slot, set_slot, enqueue, dequeue,
}
use mergebot.ThreadPool.Window.{window}
use mergebot.ThreadPool.Fifo.{Holds}
use mergebot.ThreadPool.Run.{
  System, Reach, here, next, add, work, destroy, begin, calm, note_add, note_turn,
}
use mergebot.ThreadPool.Order.{IsFifo, Reach-IsFifo}
use mergebot.ThreadPool.Drain.{Reach-graceful}
use mergebot.ThreadPool.Errors.{Outcome, threadpool_add_lem}

abbrev always : ℕ → Bool
always i = true

abbrev at_start : System ℕ
at_start = begin always 1 2

abbrev added : ℕ → System ℕ → System ℕ
added t s = note_add t (threadpool_add calm t s.pool) s

abbrev turned : System ℕ → System ℕ
turned s = note_turn (threadpool_thread s.pool) s

abbrev destroyed : System ℕ → System ℕ
destroyed s = record s { pool = (threadpool_destroy graceful_shutdown s.pool).1 }

-- Two tasks, one of which is begun, and a third one that goes around the end of the ring.
abbrev around : System ℕ
around = added 5 (turned (added 9 (added 7 at_start)))

around-Reach : Reach at_start around
unfolding threadpool_create start_workers empty_slots threadpool_add try_add enqueue
    threadpool_thread dequeue slot set_slot
around-Reach =
    next (next (next (next here (add 7 refl)) (add 9 refl)) (work refl (omega arith))) (add 5 refl)

Reach-IsFifo_example : IsFifo around
Reach-IsFifo_example = Reach-IsFifo always 1 2 around-Reach

abbrev drained : System ℕ
drained = turned (turned (destroyed (added 7 at_start)))

drained-Reach : Reach at_start drained
unfolding threadpool_create start_workers empty_slots threadpool_add try_add enqueue
    threadpool_thread dequeue slot set_slot threadpool_destroy
drained-Reach =
    next
      (next (next (next here (add 7 refl)) (destroy graceful_shutdown refl refl))
        (work refl (omega arith)))
      (work refl (omega arith))

drained_down : drained.pool.shutdown ≡ graceful_shutdown
unfolding threadpool_create start_workers empty_slots threadpool_add try_add enqueue
    threadpool_thread dequeue slot set_slot threadpool_destroy
drained_down = refl

drained_exited : drained.exited ≢ 0
unfolding threadpool_create start_workers empty_slots threadpool_add try_add enqueue
    threadpool_thread dequeue slot set_slot threadpool_destroy
drained_exited = omega arith

Reach-graceful_example : drained.begun ≡ map some drained.accepted
Reach-graceful_example = Reach-graceful always 1 2 drained-Reach drained_down drained_exited

abbrev deaf : Pthread
deaf = record { locks = true; signals = false; unlocks = true }

around-Holds : Holds around.pool (9 ∷ 5 ∷ [])
unfolding threadpool_create start_workers empty_slots threadpool_add try_add enqueue
    threadpool_thread dequeue slot set_slot window
around-Holds = record {
  sized = refl;
  head_in = omega arith;
  fits = omega arith;
  tail_at = refl;
  filled = refl;
}

turned-Holds : Holds (turned around).pool (5 ∷ [])
unfolding threadpool_create start_workers empty_slots threadpool_add try_add enqueue
    threadpool_thread dequeue slot set_slot window
turned-Holds = record {
  sized = refl;
  head_in = omega arith;
  fits = omega arith;
  tail_at = refl;
  filled = refl;
}

threadpool_add_lem_example :
    Outcome deaf 3 around.pool (9 ∷ 5 ∷ []) (threadpool_add deaf 3 around.pool)
threadpool_add_lem_example = threadpool_add_lem deaf 3 around.pool (9 ∷ 5 ∷ []) around-Holds
