-- ===== src/Buffer/Shutdown/Finish.antt =====
-- That `main` of Project-5-2 can always come to its end.
use learning_ei.Base.{ℕ, ◌≤◌, ◌<◌, ◌≡◌, refl, arith, false, some, List, inl, inr, Option-cases}
use learning_ei.Base.Int.{ℤ, pos}
use learning_ei.Base.Family.{total, total-update}
use learning_ei.Ring.{acquire}
use learning_ei.Closing.{Event, destroying, run}
use learning_ei.Closing.Finish.{closing_finishes}
use learning_ei.Closing.Progress.{not_ending}
use learning_ei.Buffer.{
  Shared, Pc, lock_insert, store_item, move_tail, unlock_insert, post_full, lock_remove, load_item,
  move_head, unlock_remove, post_empty, step, System, pick,
}
use learning_ei.Buffer.Counts.{IsCounted}
use learning_ei.Buffer.Invariant.{pick-IsCounted}
use learning_ei.Buffer.Pick.{pick-some}
use learning_ei.Buffer.Shutdown.{is_cancellable, workers, main}
use learning_ei.Buffer.Shutdown.Left.{
  Moves, busy-Moves, workers-IsCrew, main-IsClosing, main-IsCounted,
}

-- The statements of a thread before the next cancellation point.
abbrev distance : Pc → ℕ
distance (lock_insert item) = 5
distance (store_item item) = 4
distance (move_tail item) = 3
distance unlock_insert = 2
distance post_full = 1
distance lock_remove = 5
distance load_item = 4
distance (move_head item) = 3
distance unlock_remove = 2
distance post_empty = 1
distance _ = 0

distance-step :
    (i : ℕ) (x : ℤ) (m m' : Shared) (p p' : Pc)
    → is_cancellable p ≡ false
    → step i x m p ≡ some (m', p')
    → distance p' < distance p
unfolding step acquire
distance-step i x m m' p p' busy e = ground arith

away : ℕ → System → ℕ
away threads s = total distance threads s.pc

pick-away :
    (threads k : ℕ) (s : System)
    → Moves threads k s
    → is_cancellable (s.pc k) ≡ false
    → away threads (pick threads k (pos 0) s) < away threads s
unfolding away
pick-away threads k s (lower, moves) busy = elim (Option-cases (step k (pos 0) s.mem (s.pc k))) [
  | inl waits ↦ absurd (moves (pos 0) waits)
  | inr ((m, p), e) ↦ rw (pick-some threads k (pos 0) s m p lower e) (
      omega (
        arith,
        distance-step k (pos 0) s.mem m (s.pc k) p busy e,
        total-update distance threads s.pc k p lower,
      ))
]

worker-nearer :
    (threads : ℕ) (s : System)
    → IsCounted threads s.mem s.pc
    → (i : ℕ) → 0 ≤ i
    → i < threads
    → is_cancellable (s.pc i) ≡ false
    → (x : ℕ × ℤ) × (is_cancellable (s.pc x.0) ≡ false)
      × (away threads (pick threads x.0 x.1 s) < away threads s)
worker-nearer threads s v i from below busy =
    let (k, moves, busy_too) = busy-Moves threads s v (not_ending i from below busy) in
    ((k, pos 0), busy_too, pick-away threads k s moves busy_too)

-- From wherever an interleaving of `main` with its threads has led, `main` can be brought to its end,
-- with the semaphores and the mutex destroyed: some further statements lead there.
pub main_finishes :
    (threads producers : ℕ) (events : List (Event (ℕ × ℤ)))
    → (more : List (Event (ℕ × ℤ))) × ((run
          (workers threads)
          more
          (main threads producers events)).phase
        ≡ destroying 0)
main_finishes threads producers events =
    closing_finishes (workers threads) (workers-IsCrew threads) (away threads)
      (λ s. IsCounted threads s.mem s.pc) (λ (i, x) s v. pick-IsCounted i x s v)
      (λ s v yet. worker-nearer threads s v) (main threads producers events)
      (main-IsClosing threads producers events) (main-IsCounted threads producers events) refl
