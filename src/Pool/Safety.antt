-- ===== src/Pool/Safety.antt =====
-- What the queue of Project-5-1 does with the submitted tasks, whatever the interleaving.
use learning_ei.Base.{ℕ, ◌≤◌, ◌≡◌, arith, true, List, ◌++◌}
use learning_ei.Ring.{len}
use learning_ei.Ring.Laws.{contents}
use learning_ei.Pool.{run, init}
use learning_ei.Pool.Counts.{is_inside, unsubmitted}
use learning_ei.Pool.Invariant.{reached-IsCounted}

module _ {Task : Type 0} (slots : ℕ → Task) (tasks : List Task) (picks : List ℕ) where
  -- However the client and the bees are interleaved, the client's tasks are, in order, those that bees
  -- have taken, those in the queue, and those that the client has still to add: none is lost,
  -- doubled or overtaken, and the queue never holds more than ten.
  pub run-in_line :
      let s = run picks (init slots tasks) in
      (s.mem.ring.taken ++ contents s.mem.ring ++ unsubmitted (s.pc 0) ≡ tasks)
      × (len s.mem.ring ≤ 10)
  run-in_line =
      let v = reached-IsCounted slots tasks picks in (rw (v.fifo.in_order) v.submitted, v.room)

  -- In every interleaving, two threads are never between lock and unlock together.
  pub run-alone :
      (i j : ℕ)
      → is_inside ((run picks (init slots tasks)).pc i) ≡ true
      → is_inside ((run picks (init slots tasks)).pc j) ≡ true
      → i ≡ j
  run-alone i j p q =
      let v = reached-IsCounted slots tasks picks in
      let p' = v.owned.owner i p in let q' = v.owned.owner j q in ground arith
