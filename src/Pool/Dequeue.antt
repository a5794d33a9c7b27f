-- ===== src/Pool/Dequeue.antt =====
-- The statements of a worker of Project-5-1, with `dequeue` and `execute`, keep the counts.
use learning_ei.Base.{
  ℕ, ◌-◌, ◌<◌, ◌≡◌, refl, arith, none, some, List, [], ◌∷◌, ◌++◌, ltb, inl, inr, Bool-cases,
  Option-cases,
}
use learning_ei.Base.Family.{total-one}
use learning_ei.Ring.{len, release, advance_head}
use learning_ei.Ring.Laws.{acquire-free, acquire-held, len-advance_head, advance_head-IsFifo}
use learning_ei.Ring.Owner.{take-IsOwned, give-IsOwned}
use learning_ei.Pool.{
  pool_threads, Shared, Pc, wait_task, lock_dequeue, load_task, move_head, unlock_task, execute,
  step,
}
use learning_ei.Pool.Counts.{hides_task, IsCounted, count_if-append, Leaves}
use learning_ei.Pool.Steps.{stays, relocks, turns}

module _ {Task : Type 0} {tasks : List Task} {m : Shared Task} {pc : ℕ → Pc Task}
    (v : IsCounted tasks m pc) (i : ℕ) (lt : i < pool_threads) where
  pub wait_task-Leaves : pc i ≡ wait_task → Leaves tasks pc i (step i m wait_task)
  unfolding step
  wait_task-Leaves e = elim (Bool-cases (ltb 0 m.task_cnt)) [
    | inl enough ↦ rw enough (
        stays v i lt (m.task_cnt - 1) m.executed lock_dequeue (ground arith) (ground arith) tt
          (ground arith) (ground arith) (λ test. ground arith))
    | inr none_left ↦ rw none_left tt
  ]

  pub lock_dequeue-Leaves : pc i ≡ lock_dequeue → Leaves tasks pc i (step i m lock_dequeue)
  unfolding step
  lock_dequeue-Leaves e = elim (Option-cases m.ring.lock) [
    | inl free ↦
        rw (acquire-free i m.ring free, Leaves, step)
          (relocks v i lt (some i) load_task (ground arith)
            (take-IsOwned v.owned i load_task free lt refl) tt (ground arith) (ground arith)
            (λ test. ground arith))
    | inr (owner, taken) ↦ rw (acquire-held i m.ring taken, Leaves, step) tt
  ]

  pub load_task-Leaves : pc i ≡ load_task → Leaves tasks pc i (step i m load_task)
  unfolding step
  load_task-Leaves e =
      stays v i lt m.task_cnt m.executed (move_head (m.ring.slots m.ring.head)) (ground arith)
        (ground arith) refl (ground arith) (ground arith) (λ test. ground arith)

  pub move_head-Leaves :
      (t : Task) → pc i ≡ move_head t → Leaves tasks pc i (step i m (move_head t))
  unfolding step advance_head
  move_head-Leaves t e =
      let at : m.ring.slots m.ring.head ≡ t = ground (arith, v.fresh i) in
      let some_task : 0 < len m.ring =
        ground (arith, v.items, total-one hides_task pool_threads pc i lt) in
      let shrunk = len-advance_head t v.fifo some_task in
      turns v i lt (advance_head t m.ring) (unlock_task t) refl (ground arith) refl
        (advance_head-IsFifo t v.fifo some_task at) (ground (arith, v.room, shrunk))
        (ground (arith, shrunk)) tt
        (record { role = ground arith; submits = ground arith; adds_none = λ w. refl })
        (λ test. ground (arith, count_if-append test m.ring.taken (t ∷ [])))

  pub unlock_task-Leaves :
      (t : Task) → pc i ≡ unlock_task t → Leaves tasks pc i (step i m (unlock_task t))
  unfolding step release
  unlock_task-Leaves t e =
      relocks v i lt none (execute t) (ground arith)
        (give-IsOwned v.owned i (execute t) (ground arith) refl) tt (ground arith) (ground arith)
        (λ test. ground arith)

  pub execute-Leaves : (t : Task) → pc i ≡ execute t → Leaves tasks pc i (step i m (execute t))
  unfolding step
  execute-Leaves t e =
      stays v i lt m.task_cnt (m.executed ++ (t ∷ [])) wait_task (ground arith) (ground arith) tt
        (ground arith) (ground arith)
        (λ test. ground (arith, count_if-append test m.executed (t ∷ [])))
