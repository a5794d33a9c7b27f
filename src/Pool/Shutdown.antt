-- ===== src/Pool/Shutdown.antt =====
-- `pool_shutdown` of Project-5-1/threadpool.c, which the client calls behind the last task.
pub mod Bees
pub mod Progress
pub mod Finish
pub mod Left
use learning_ei.Base.{ℕ, Bool, true, false, List}
use learning_ei.Closing.{Crew, Closing, Event, start}
use learning_ei.Closing as Closing
use learning_ei.Pool.{pool_threads, Pc, finished, wait_task, execute, System, init, pick}

module _ {Task : Type 0} where
  -- The client's loop over the tasks has ended.
  abbrev pub is_finished : Pc Task → Bool
  is_finished finished = true
  is_finished _ = false

  -- `sem_wait` is a cancellation point, and a task may hold one.
  abbrev pub is_cancellable : Pc Task → Bool
  is_cancellable wait_task = true
  is_cancellable (execute _) = true
  is_cancellable _ = false

  -- The client closes the bees, with the semaphore and the mutex.
  abbrev pub bees : Crew (System Task) ℕ
  bees = record {
    first = 1;
    last = pool_threads;
    shared = 2;
    thread_of = λ i. i;
    pick = pick;
    ready = λ s. is_finished (s.pc 0);
    can_end = λ i s. is_cancellable (s.pc i);
  }

  -- Any interleaving of the client and the bees, with `pool_shutdown`.
  unfoldable pub shut_down : (ℕ → Task) → List Task → List (Event ℕ) → Closing (System Task)
  shut_down slots tasks events = Closing.run bees events (start bees (init slots tasks))
