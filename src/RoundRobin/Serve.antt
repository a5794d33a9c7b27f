-- ===== src/RoundRobin/Serve.antt =====
-- Round robin as a queue: what Project-4/schedule_rr.c is to run.
use learning_ei.Base.{ℕ, ◌+◌, ◌<◌, ◌≡◌, refl, arith, true, false, List, [], ◌∷◌, ◌++◌}
use learning_ei.Base.Int.{ℤ, pos, negsuc, ltb_ℤ, ◌≤ℤ◌, ◌<ℤ◌, ◌-ℤ◌, ltb_ℤ→lt}
use learning_ei.Scheduler.{Task, Slice, run}
use learning_ei.RoundRobin.{quantum, rounds_of, slice_of, is_zero}

-- A task with the time that it has still to run.
pub record Job : Type 0 where
  pub task : Task
  pub remaining_burst : ℤ

-- The first of the queue runs to its end if a quantum is enough for that; else it runs for a quantum
-- and goes to the end of the queue.
pub data Serves : List Job → List Slice → Type 0 where
  served : Serves [] []
  ends :
      (t : Task) (r : ℤ) (queue : List Job) (trace : List Slice)
      → r ≤ℤ quantum
      → Serves queue trace
      → Serves (record { task = t; remaining_burst = r } ∷ queue) (run t r ∷ trace)
  waits :
      (t : Task) (r : ℤ) (queue : List Job) (trace : List Slice)
      → quantum <ℤ r
      → Serves (queue ++ (record { task = t; remaining_burst = r -ℤ quantum } ∷ [])) trace
      → Serves (record { task = t; remaining_burst = r } ∷ queue) (run t quantum ∷ trace)

abbrev pub turns : List Job → ℕ
turns [] = 0
turns (j ∷ queue) = rounds_of j.remaining_burst + turns queue

pub turns-append :
    (q : List Job) (j : Job) → turns (q ++ (j ∷ [])) ≡ turns q + rounds_of j.remaining_burst
turns-append [] j = omega arith
turns-append (i ∷ q) j = omega (arith, turns-append q j)

pub rounds_of-pos : (r : ℤ) → 0 < rounds_of r
rounds_of-pos (pos n) = omega arith
rounds_of-pos (negsuc n) = omega arith

pub rounds_of-quantum : (r : ℤ) → quantum <ℤ r → rounds_of (r -ℤ quantum) < rounds_of r
unfolding ◌-ℤ◌
rounds_of-quantum (pos n) more = ground arith
rounds_of-quantum (negsuc n) more = absurd (omega arith)

is_zero_self : (r : ℤ) → is_zero (r -ℤ r) ≡ true
unfolding ◌-ℤ◌
is_zero_self (pos n) = ground arith
is_zero_self (negsuc n) = ground arith

is_zero-quantum : (r : ℤ) → quantum <ℤ r → is_zero (r -ℤ quantum) ≡ false
unfolding ◌-ℤ◌
is_zero-quantum (pos n) more = ground arith
is_zero-quantum (negsuc n) more = absurd (omega arith)

-- The two cases of a turn.
pub slice_of-ends :
    (r : ℤ) → ltb_ℤ quantum r ≡ false → (slice_of r ≡ r) × (is_zero (r -ℤ slice_of r) ≡ true)
slice_of-ends r e = (rw e refl, rw e (is_zero_self r))

pub slice_of-waits :
    (r : ℤ) → ltb_ℤ quantum r ≡ true → (slice_of r ≡ quantum) × (is_zero (r -ℤ slice_of r) ≡ false)
slice_of-waits r e = (rw e refl, rw e (is_zero-quantum r (ltb_ℤ→lt quantum r e)))
