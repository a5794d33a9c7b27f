-- ===== src/Pool/Shutdown/Finish.antt =====
-- That `pool_shutdown` of Project-5-1 can always come to its end.
use learning_ei.Base.{
  ℕ, ◌≤◌, ◌<◌, ◌≢◌, ◌≡◌, arith, true, false, some, List, none, subst, inl, inr, ℕ_discrete,
  Option-cases,
}
use learning_ei.Base.Family.{total, total-update}
use learning_ei.Ring.{acquire}
use learning_ei.Closing.{Event, destroying, run}
use learning_ei.Closing.Finish.{closing_finishes}
use learning_ei.Closing.Progress.{not_ending}
use learning_ei.Pool.{
  pool_threads, Shared, Pc, lock_dequeue, load_task, move_head, unlock_task, step, System, pick,
}
use learning_ei.Pool.Counts.{is_worker}
use learning_ei.Pool.Pick.{pick-some}
use learning_ei.Pool.Shutdown.{is_finished, is_cancellable, bees, shut_down}
use learning_ei.Pool.Shutdown.Bees.{
  bees-IsCrew, IsPool, pick-IsPool, finished-step, shut_down-IsClosing, shut_down-IsPool,
}
use learning_ei.Pool.Shutdown.Progress.{Moves, busy-Moves}

module _ {Task : Type 0} where
  -- The statements of a bee before the next cancellation point.
  abbrev distance : Pc Task → ℕ
  distance lock_dequeue = 4
  distance load_task = 3
  distance (move_head _) = 2
  distance (unlock_task _) = 1
  distance _ = 0

  distance-step :
      (i : ℕ) (m m' : Shared Task) (p p' : Pc Task)
      → is_worker p ≡ true
      → is_cancellable p ≡ false
      → step i m p ≡ some (m', p')
      → distance p' < distance p
  unfolding step acquire
  distance-step i m m' p p' bee busy e = ground arith

  away : System Task → ℕ
  away s = total distance pool_threads s.pc

  pick-away :
      (k : ℕ) (s : System Task)
      → Moves k s
      → is_worker (s.pc k) ≡ true
      → is_cancellable (s.pc k) ≡ false
      → away (pick k s) < away s
  unfolding away
  pick-away k s (lower, moves) bee busy = elim (Option-cases (step k s.mem (s.pc k))) [
    | inl waits ↦ absurd (moves waits)
    | inr ((m, p), e) ↦ rw (pick-some k s m p lower e) (
        omega (
          arith,
          distance-step k s.mem m (s.pc k) p bee busy e,
          total-update distance pool_threads s.pc k p lower,
        ))
  ]

  bee-nearer :
      {tasks : List Task} (s : System Task)
      → IsPool tasks s
      → is_finished (s.pc 0) ≡ true
      → (i : ℕ) → 1 ≤ i
      → i < pool_threads
      → is_cancellable (s.pc i) ≡ false
      → (k : ℕ) × (is_cancellable (s.pc k) ≡ false) × (away (pick k s) < away s)
  bee-nearer s v done i from below busy =
      let (k, moves, busy_too) = busy-Moves s v (not_ending i from below busy) in
      elim (ℕ_discrete k 0) [
        | yes client ↦ absurd (
            (subst (λ j. step j s.mem (s.pc j) ≢ none) client moves.1)
              (finished-step 0 s.mem (s.pc 0) done))
        | no bee ↦ (k, busy_too, pick-away k s moves (v.counted.workers k bee) busy_too)
      ]

  -- Once the client has submitted all tasks, whatever the interleaving has been, `pool_shutdown` can be
  -- brought to its end, with the semaphore and the mutex destroyed: some further statements of the
  -- client and the bees lead there.
  pub shut_down_finishes :
      (slots : ℕ → Task) (tasks : List Task) (events : List (Event ℕ))
      → let c = shut_down slots tasks events in
        is_finished (c.sys.pc 0) ≡ true
        → (more : List (Event ℕ)) × ((run bees more c).phase ≡ destroying 0)
  shut_down_finishes slots tasks events done =
      closing_finishes bees bees-IsCrew away (IsPool tasks) pick-IsPool bee-nearer
        (shut_down slots tasks events) (shut_down-IsClosing slots tasks events)
        (shut_down-IsPool slots tasks events) done
