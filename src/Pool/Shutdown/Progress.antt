-- ===== src/Pool/Shutdown/Progress.antt =====
-- That `pool_shutdown` of Project-5-1 never waits for ever.
use learning_ei.Base.{ℕ, ◌<◌, ◌≢◌, ◌≡◌, arith, true, false, none, List, inl, inr, Option-cases}
use learning_ei.Closing.{Event}
use learning_ei.Closing.Progress.{CanMove, IsBusy, not_ready, not_ending, closing-CanMove}
use learning_ei.Pool.{pool_threads, Pc, finished, wait_task, execute, System, init}
use learning_ei.Pool as Pool
use learning_ei.Pool.Counts.{is_inside, is_worker}
use learning_ei.Pool.Rest.{is_resting, step-inside, step-free}
use learning_ei.Pool.Shutdown.{is_finished, is_cancellable, bees, shut_down}
use learning_ei.Pool.Shutdown.Bees.{shut_down-IsClosing, shut_down-IsPool, IsPool}

module _ {Task : Type 0} where
  -- Whether thread `i` need not wait.
  abbrev pub Moves : ℕ → System Task → Type 0
  Moves i s = (i < pool_threads) × (Pool.step i s.mem (s.pc i) ≢ none)

  inside-busy : (p : Pc Task) → is_inside p ≡ true → is_cancellable p ≡ false
  inside-busy p inside = ground arith

  client-busy :
      (p : Pc Task)
      → is_worker p ≡ false
      → is_finished p ≡ false
      → (is_cancellable p ≡ false) × (is_resting p ≡ false)
  client-busy p client early = (ground arith, ground arith)

  bee-busy : (p : Pc Task) → is_worker p ≡ true → is_cancellable p ≡ false → is_resting p ≡ false
  bee-busy p bee busy = ground arith

  pub busy-Moves :
      {tasks : List Task} (s : System Task)
      → IsPool tasks s
      → IsBusy bees s
      → (k : ℕ) × Moves k s × (is_cancellable (s.pc k) ≡ false)
  busy-Moves s v busy = elim (Option-cases s.mem.ring.lock) [
    | inr (k, e) ↦
        let (lower, inside) = v.counted.owned.held k e in
        (k, (lower, step-inside k s.mem (s.pc k) inside), inside-busy (s.pc k) inside)
    | inl free ↦ elim busy [
      | not_ready early ↦
          let (not_there, moving) = client-busy (s.pc 0) v.client early in
          (
            0,
            (omega arith, λ waits. ground (arith, moving, step-free 0 s.mem (s.pc 0) free waits)),
            not_there,
          )
      | not_ending i from below not_there ↦
          let moving = bee-busy (s.pc i) (v.counted.workers i (omega arith)) not_there in
          (
            i,
            (below, λ waits. ground (arith, moving, step-free i s.mem (s.pc i) free waits)),
            not_there,
          )
    ]
  ]

  -- In every interleaving of the client and the bees with `pool_shutdown`, the client has destroyed the
  -- semaphore and the mutex, or some thread can go on: the client, a cancelled bee that can end, or a
  -- thread that has not ended and need not wait. So no `pthread_join` waits for ever for a bee that
  -- waits itself.
  pub shut_down-CanMove :
      (slots : ℕ → Task) (tasks : List Task) (events : List (Event ℕ))
      → CanMove bees Moves (shut_down slots tasks events)
  shut_down-CanMove slots tasks events =
      let c = shut_down slots tasks events in
      closing-CanMove bees Moves c (shut_down-IsClosing slots tasks events)
        (busy-Moves c.sys (shut_down-IsPool slots tasks events))
