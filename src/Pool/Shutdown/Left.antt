-- ===== src/Pool/Shutdown/Left.antt =====
-- What `pool_shutdown` of Project-5-1 leaves.
use learning_ei.Base.{
  ℕ, zero, suc, ◌+◌, ◌≤◌, ◌<◌, ◌≡◌, refl, arith, ap, ◌∙◌, sym, Bool, true, false, none, List, [],
  ◌++◌, inl, inr, Option-cases,
}
use mathlib.Core.List.{append-nil}
use learning_ei.Base.Family.{total, total-zero}
use learning_ei.Ring.{len}
use learning_ei.Ring.Laws.{contents}
use learning_ei.Closing.{Closing, Event, destroying, onward, start, step}
use learning_ei.Closing.Laws.{IsClosing, destroying-gone}
use learning_ei.Closing.Keeps.{destroying-sys}
use learning_ei.Pool.{pool_threads, Pc, finished, System}
use learning_ei.Pool.Counts.{hides_task, is_inside, unsubmitted, count_if, count_if-append, in_hand}
use learning_ei.Pool.Shutdown.{is_finished, is_cancellable, bees, shut_down}
use learning_ei.Pool.Shutdown.Bees.{shut_down-IsClosing, shut_down-IsPool, bees-IsCrew, IsPool}

module _ {Task : Type 0} where
  -- What is left once the bees are joined.
  pub record IsShut (tasks : List Task) (c : Closing (System Task)) : Type 0 where
    pub nobody : (i : ℕ) → 1 ≤ i → i < pool_threads → c.gone i ≡ true
    pub unlocked : c.sys.mem.ring.lock ≡ none
    pub waiting : c.sys.mem.task_cnt ≡ len c.sys.mem.ring
    pub accounted :
        (test : Task → Bool)
        → count_if test c.sys.mem.executed
            + (total (in_hand test) pool_threads c.sys.pc + count_if test (contents c.sys.mem.ring))
          ≡ count_if test tasks
    pub untouched : (e : Event ℕ) → (step bees e c).sys ≡ c.sys

  finished-quiet :
      (p : Pc Task)
      → is_finished p ≡ true
      → (hides_task p ≡ 0) × (is_inside p ≡ false) × (unsubmitted p ≡ [])
  finished-quiet finished done = (refl, refl, refl)
  finished-quiet p done = (ground arith, ground arith, ground arith)

  cancellable-quiet :
      (p : Pc Task) → is_cancellable p ≡ true → (hides_task p ≡ 0) × (is_inside p ≡ false)
  cancellable-quiet p can = (ground arith, ground arith)

  destroying-finished :
      (c : Closing (System Task)) (k : ℕ)
      → IsClosing bees c
      → c.phase ≡ destroying k
      → is_finished (c.sys.pc 0) ≡ true
  unfolding onward
  destroying-finished c k v at = elim (v.begun) [ inl yet ↦ yet | inr start ↦ absurd cc ]

  all-quiet :
      (c : Closing (System Task)) (k : ℕ)
      → IsClosing bees c
      → c.phase ≡ destroying k
      → (i : ℕ) → i < pool_threads
      → (hides_task (c.sys.pc i) ≡ 0) × (is_inside (c.sys.pc i) ≡ false)
  all-quiet c k v at zero lower =
      let (hides, inside, done) = finished-quiet (c.sys.pc 0) (destroying-finished c k v at) in
      (hides, inside)
  all-quiet c k v at (suc i) lower =
      cancellable-quiet (c.sys.pc (suc i))
        (v.at_point (suc i) (destroying-gone bees c k v at (suc i) (omega arith) lower))

  quiet-unlocked :
      {tasks : List Task} (s : System Task)
      → IsPool tasks s
      → ((i : ℕ) → i < pool_threads → is_inside (s.pc i) ≡ false)
      → s.mem.ring.lock ≡ none
  quiet-unlocked s v quiet = elim (Option-cases s.mem.ring.lock) [
    | inl free ↦ free
    | inr (i, e) ↦
        let (lower, inside) = v.counted.owned.held i e in
        absurd (ground (arith, inside, quiet i lower))
  ]

  accounted_lem :
      {tasks : List Task} (s : System Task)
      → IsPool tasks s
      → is_finished (s.pc 0) ≡ true
      → (test : Task → Bool)
      → count_if test s.mem.executed
          + (total (in_hand test) pool_threads s.pc + count_if test (contents s.mem.ring))
        ≡ count_if test tasks
  accounted_lem s v done test =
      let (hides, inside, all_added) = finished-quiet (s.pc 0) done in
      let added =
        sym (append-nil s.mem.ring.added)
        ∙ (ap (λ l. s.mem.ring.added ++ l) (sym all_added) ∙ v.counted.submitted) in
      omega (
        arith,
        v.counted.ended test,
        count_if-append test s.mem.ring.taken (contents s.mem.ring),
        ap (count_if test) (v.counted.fifo.in_order ∙ added),
      )

  -- Whatever the interleaving, once the client has joined the three bees, these have ended, the mutex is
  -- free, the semaphore counts the tasks in the queue, and no thread touches the semaphore, the mutex
  -- or the queue while the client destroys them. Of the submitted tasks each has been executed, or is in
  -- the queue, or was cut short when its bee was cancelled, exactly once.
  pub shut_down-IsShut :
      (slots : ℕ → Task) (tasks : List Task) (events : List (Event ℕ)) (k : ℕ)
      → let c = shut_down slots tasks events in c.phase ≡ destroying k → IsShut tasks c
  shut_down-IsShut slots tasks events k at =
      let c = shut_down slots tasks events in
      let v = shut_down-IsClosing slots tasks events in
      let p = shut_down-IsPool slots tasks events in
      let quiet = all-quiet c k v at in
      let done = destroying-finished c k v at in
      let hidden = total-zero hides_task pool_threads c.sys.pc (λ i lower. (quiet i lower).0) in
      record {
        nobody = destroying-gone bees c k v at;
        unlocked = quiet-unlocked c.sys p (λ i lower. (quiet i lower).1);
        waiting = omega (arith, p.counted.items);
        accounted = accounted_lem c.sys p done;
        untouched = destroying-sys bees c k bees-IsCrew v done at;
      }
