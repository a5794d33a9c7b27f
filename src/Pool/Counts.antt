-- ===== src/Pool/Counts.antt =====
-- What counts in an interleaving of Project-5-1: `task_cnt` counts the tasks in the queue, less what
-- workers have claimed or the client has not yet posted.
use learning_ei.Base.{
  ℕ, ◌+◌, ◌<◌, ◌≤◌, ◌≢◌, ◌≡◌, arith, Bool, true, false, Option, none, some, List, [], ◌∷◌, ◌++◌,
  if◌then◌else◌,
}
use learning_ei.Base.Family.{total}
use learning_ei.Base.Arrays.{update}
use learning_ei.Ring.{Ring, len}
use learning_ei.Ring.Laws.{IsFifo}
use learning_ei.Ring.Owner.{IsOwned}
use learning_ei.Pool.{
  pool_threads, Shared, Pc, lock_enqueue, check_full, store_task, move_tail, unlock_full,
  unlock_added, post_task, wait_task, lock_dequeue, load_task, move_head, unlock_task, execute,
}

module _ {Task : Type 0} where
  -- 1 for a task in the queue that `task_cnt` does not count.
  abbrev pub hides_task : Pc Task → ℕ
  hides_task (unlock_added _) = 1
  hides_task (post_task _) = 1
  hides_task lock_dequeue = 1
  hides_task load_task = 1
  hides_task (move_head _) = 1
  hides_task _ = 0

  -- Whether the thread is between `pthread_mutex_lock` and `pthread_mutex_unlock`.
  abbrev pub is_inside : Pc Task → Bool
  is_inside (check_full _ _) = true
  is_inside (store_task _ _) = true
  is_inside (move_tail _ _) = true
  is_inside (unlock_full _ _) = true
  is_inside (unlock_added _) = true
  is_inside load_task = true
  is_inside (move_head _) = true
  is_inside (unlock_task _) = true
  is_inside _ = false

  -- What the thread knows of the queue.
  abbrev pub IsFresh : Ring Task → Pc Task → Type 0
  IsFresh r (store_task t _) = len r < 10
  IsFresh r (move_tail t _) = (len r < 10) × (r.slots r.tail ≡ t)
  IsFresh r (move_head t) = r.slots r.head ≡ t
  IsFresh r _ = Unit {0}

  -- The tasks that the client has not yet added.
  abbrev pub unsubmitted : Pc Task → List Task
  unsubmitted (lock_enqueue t todo) = t ∷ todo
  unsubmitted (check_full t todo) = t ∷ todo
  unsubmitted (store_task t todo) = t ∷ todo
  unsubmitted (move_tail t todo) = t ∷ todo
  unsubmitted (unlock_full t todo) = t ∷ todo
  unsubmitted (unlock_added todo) = todo
  unsubmitted (post_task todo) = todo
  unsubmitted _ = []

  abbrev pub is_worker : Pc Task → Bool
  is_worker wait_task = true
  is_worker lock_dequeue = true
  is_worker load_task = true
  is_worker (move_head _) = true
  is_worker (unlock_task _) = true
  is_worker (execute _) = true
  is_worker _ = false

  -- How many tasks of the list pass the test.
  abbrev pub count_if : (Task → Bool) → List Task → ℕ
  count_if test [] = 0
  count_if test (t ∷ rest) = (if test t then 1 else 0) + count_if test rest

  -- Whether the thread has taken a task that passes the test, and has not executed it.
  abbrev pub in_hand : (Task → Bool) → Pc Task → ℕ
  in_hand test (unlock_task t) = if test t then 1 else 0
  in_hand test (execute t) = if test t then 1 else 0
  in_hand test _ = 0

  pub record IsCounted (tasks : List Task) (m : Shared Task) (pc : ℕ → Pc Task) : Type 0 where
    pub fifo : IsFifo m.ring
    pub items : m.task_cnt + total hides_task pool_threads pc ≡ len m.ring
    pub room : len m.ring ≤ 10
    pub owned : IsOwned is_inside pool_threads m.ring.lock pc
    pub fresh : (i : ℕ) → IsFresh m.ring (pc i)
    pub submitted : m.ring.added ++ unsubmitted (pc 0) ≡ tasks
    pub workers : (i : ℕ) → i ≢ 0 → is_worker (pc i) ≡ true
    pub ended :
        (test : Task → Bool)
        → count_if test m.executed + total (in_hand test) pool_threads pc
          ≡ count_if test m.ring.taken

  pub count_if-append :
      (test : Task → Bool) (l m : List Task)
      → count_if test (l ++ m) ≡ count_if test l + count_if test m
  count_if-append test [] m = omega arith
  count_if-append test (t ∷ l) m = omega (arith, count_if-append test l m)

  -- What a step of thread `i` leaves, unless it waits.
  abbrev pub Leaves : List Task → (ℕ → Pc Task) → ℕ → Option (Shared Task × Pc Task) → Type 0
  Leaves tasks pc i none = Unit {0}
  Leaves tasks pc i (some (m, p)) = IsCounted tasks m (update pc i p)
