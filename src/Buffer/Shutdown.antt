-- ===== src/Buffer/Shutdown.antt =====
-- The end of `main` of Project-5-2/main.c, with `destroy_buffer` of buffer.c: the producers are
-- cancelled first, and then the consumers.
pub mod Left
pub mod Finish
use learning_ei.Base.{ℕ, Bool, true, false, List}
use learning_ei.Base.Int.{ℤ}
use learning_ei.Closing.{Crew, Closing, Event, start, run}
use learning_ei.Buffer.{Pc, producer, wait_empty, consumer, System, init, pick}

-- `sleep` and `sem_wait` are cancellation points.
abbrev pub is_cancellable : Pc → Bool
is_cancellable producer = true
is_cancellable (wait_empty item) = true
is_cancellable consumer = true
is_cancellable _ = false

-- How much `destroy_buffer` destroys: the two semaphores and the mutex.
abbrev pub destroy_buffer : ℕ
destroy_buffer = 3

-- `main` closes all its threads, the producers first, with what they share.
abbrev pub workers : ℕ → Crew System (ℕ × ℤ)
workers threads = record {
  first = 0;
  last = threads;
  shared = destroy_buffer;
  thread_of = λ (i, x). i;
  pick = λ (i, x). pick threads i x;
  ready = λ s. true;
  can_end = λ i s. is_cancellable (s.pc i);
}

-- `main`, in any interleaving with its threads.
unfoldable pub main : ℕ → ℕ → List (Event (ℕ × ℤ)) → Closing System
main threads producers events =
    run (workers threads) events (start (workers threads) (init producers))
