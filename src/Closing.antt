-- ===== src/Closing.antt =====
-- The end of Project-5-1 (`pool_shutdown` of threadpool.c) and of Project-5-2 (`main` of main.c with
-- `destroy_buffer` of buffer.c): one thread cancels and joins the others, one after the other, and then
-- destroys the semaphores and the mutex. A cancelled thread ends at a cancellation point, at once or
-- later, and else goes on.
pub mod Laws
pub mod Keeps
pub mod Progress
pub mod Finish
use learning_ei.Base.{
  ℕ, zero, suc, ◌+◌, Bool, true, false, not, ◌&&◌, Option, none, some, List, [], ◌∷◌, ltb,
  if◌then◌else◌,
}
use learning_ei.Base.Arrays.{update}

-- The threads from `first` below `last` with their state and the scheduler's picks, and the number of
-- semaphores and mutexes that they share. `ready` says that the closing thread has come to its last
-- loop, and `can_end` that the next statement of a thread is a cancellation point.
pub record Crew (S X : Type 0) : Type 0 where
  pub first : ℕ
  pub last : ℕ
  pub shared : ℕ
  pub thread_of : X → ℕ
  pub pick : X → S → S
  pub ready : S → Bool
  pub can_end : ℕ → S → Bool

-- The closing thread's next statement: `pthread_cancel` or `pthread_join` of a thread, or to destroy one
-- of the semaphores and mutexes that are left.
pub data Phase : Type 0 where
  cancelling joining destroying : ℕ → Phase

pub record Closing (S : Type 0) : Type 0 where
  pub sys : S
  pub phase : Phase
  pub cancelled : ℕ → Bool
  pub gone : ℕ → Bool

pub data Event (X : Type 0) : Type 0 where
  works : X → Event X
  ends : ℕ → Event X
  closes : Event X

-- A thread that has to wait changes nothing.
unfoldable pub or_stay : {S : Type 0} → Closing S → Option (Closing S) → Closing S
or_stay c none = c
or_stay c (some c') = c'

module _ {S X : Type 0} (crew : Crew S X) where
  -- The test of the loop, before thread `i`.
  unfoldable pub onward : ℕ → Phase
  onward i = if ltb i crew.last then cancelling i else destroying crew.shared

  unfoldable pub start : S → Closing S
  start s = record { sys = s; phase = onward crew.first; cancelled = λ i. false; gone = λ i. false }

  unfoldable pub close_at : Closing S → Phase → Option (Closing S)
  close_at c (cancelling i) =
      some (record c { cancelled = update c.cancelled i true; phase = joining i })
  close_at c (joining i) = if c.gone i then some (record c { phase = onward (i + 1) }) else none
  close_at c (destroying zero) = none
  close_at c (destroying (suc k)) = some (record c { phase = destroying k })

  -- The closing thread's statement: `none` where it has to wait, or has come to the end.
  unfoldable pub close : Closing S → Option (Closing S)
  close c = if crew.ready c.sys then close_at c c.phase else none

  -- A cancelled thread ends.
  unfoldable pub end : ℕ → Closing S → Option (Closing S)
  end i c =
      if c.cancelled i && not (c.gone i) && crew.can_end i c.sys
      then some (record c { gone = update c.gone i true })
      else none

  unfoldable pub work : X → Closing S → Closing S
  work x c = if c.gone (crew.thread_of x) then c else record c { sys = crew.pick x c.sys }

  unfoldable pub step : Event X → Closing S → Closing S
  step (works x) c = work x c
  step (ends i) c = or_stay c (end i c)
  step closes c = or_stay c (close c)

  -- Any interleaving.
  unfoldable pub run : List (Event X) → Closing S → Closing S
  run [] c = c
  run (e ∷ events) c = run events (step e c)
