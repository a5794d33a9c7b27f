-- ===== src/Pool/Enqueue.antt =====
-- The statements of the client of Project-5-1, in `pool_submit` and `enqueue`, keep the counts.
use learning_ei.Base.{
  ℕ, ◌+◌, ◌%◌, ◌<◌, ◌≡◌, refl, arith, none, some, List, [], ◌∷◌, ◌==◌, inl, inr, Bool-cases,
  Option-cases,
}
use mathlib.Core.List.{append_assoc}
use learning_ei.Ring.{ring_slots, len, release, write, advance_tail}
use learning_ei.Ring.Laws.{
  acquire-free, acquire-held, write-IsFifo, len-advance_tail, advance_tail-IsFifo,
}
use learning_ei.Ring.Owner.{take-IsOwned, give-IsOwned}
use learning_ei.Pool.{
  pool_threads, Shared, Pc, lock_enqueue, check_full, store_task, move_tail, unlock_full,
  unlock_added, post_task, finished, next_submit, step,
}
use learning_ei.Pool.Counts.{IsCounted, Leaves}
use learning_ei.Pool.Steps.{stays, relocks, turns}

module _ {Task : Type 0} {tasks : List Task} {m : Shared Task} {pc : ℕ → Pc Task}
    (v : IsCounted tasks m pc) (i : ℕ) (lt : i < pool_threads) where
  pub lock_enqueue-Leaves :
      (t : Task) (todo : List Task)
      → pc i ≡ lock_enqueue t todo
      → Leaves tasks pc i (step i m (lock_enqueue t todo))
  unfolding step
  lock_enqueue-Leaves t todo e = elim (Option-cases m.ring.lock) [
    | inl free ↦
        rw (acquire-free i m.ring free, Leaves, step)
          (relocks v i lt (some i) (check_full t todo) (ground arith)
            (take-IsOwned v.owned i (check_full t todo) free lt refl) tt (ground arith)
            (ground arith) (λ test. ground arith))
    | inr (owner, taken) ↦ rw (acquire-held i m.ring taken, Leaves, step) tt
  ]

  pub check_full-Leaves :
      (t : Task) (todo : List Task)
      → pc i ≡ check_full t todo
      → Leaves tasks pc i (step i m (check_full t todo))
  unfolding step
  check_full-Leaves t todo e = elim (Bool-cases ((m.ring.tail + 1) % ring_slots == m.ring.head)) [
    | inl full ↦ rw full (
        stays v i lt m.task_cnt m.executed (unlock_full t todo) (ground arith) (ground arith) tt
          (ground arith) (ground arith) (λ test. ground arith))
    | inr fits ↦
        let h = v.fifo.head_in in
        let t_in = v.fifo.tail_in in
        let room : len m.ring < 10 = ground (arith, v.room) in
        rw fits (
          stays v i lt m.task_cnt m.executed (store_task t todo) (ground arith) (ground arith) room
            (ground arith) (ground arith) (λ test. ground arith))
  ]

  pub store_task-Leaves :
      (t : Task) (todo : List Task)
      → pc i ≡ store_task t todo
      → Leaves tasks pc i (step i m (store_task t todo))
  unfolding step write
  store_task-Leaves t todo e =
      let room : len m.ring < 10 = ground (arith, v.fresh i) in
      turns v i lt (write t m.ring) (move_tail t todo) refl (ground arith) refl
        (write-IsFifo t v.fifo) v.room (ground arith) (room, ground arith)
        (record { role = ground arith; submits = ground arith; adds_none = λ w. refl })
        (λ test. ground arith)

  pub move_tail-Leaves :
      (t : Task) (todo : List Task)
      → pc i ≡ move_tail t todo
      → Leaves tasks pc i (step i m (move_tail t todo))
  unfolding step advance_tail
  move_tail-Leaves t todo e =
      let at : m.ring.slots m.ring.tail ≡ t = ground (arith, v.fresh i) in
      let room : len m.ring < 10 = ground (arith, v.fresh i) in
      let grown = len-advance_tail t v.fifo room in
      turns v i lt (advance_tail t m.ring) (unlock_added todo) refl (ground arith) refl
        (advance_tail-IsFifo t v.fifo room at) (omega arith) (ground (arith, grown)) tt
        (record {
          role = ground arith;
          submits = ground (arith, append_assoc m.ring.added (t ∷ []) todo);
          adds_none = λ w. ground arith;
        })
        (λ test. ground arith)

  pub unlock_full-Leaves :
      (t : Task) (todo : List Task)
      → pc i ≡ unlock_full t todo
      → Leaves tasks pc i (step i m (unlock_full t todo))
  unfolding step release
  unlock_full-Leaves t todo e =
      relocks v i lt none (lock_enqueue t todo) (ground arith)
        (give-IsOwned v.owned i (lock_enqueue t todo) (ground arith) refl) tt (ground arith)
        (ground arith) (λ test. ground arith)

  pub unlock_added-Leaves :
      (todo : List Task)
      → pc i ≡ unlock_added todo
      → Leaves tasks pc i (step i m (unlock_added todo))
  unfolding step release
  unlock_added-Leaves todo e =
      relocks v i lt none (post_task todo) (ground arith)
        (give-IsOwned v.owned i (post_task todo) (ground arith) refl) tt (ground arith)
        (ground arith) (λ test. ground arith)

  pub post_last-Leaves : pc i ≡ post_task [] → Leaves tasks pc i (step i m (post_task []))
  unfolding step next_submit
  post_last-Leaves e =
      stays v i lt (m.task_cnt + 1) m.executed finished (ground arith) (ground arith) tt
        (ground arith) (ground arith) (λ test. ground arith)

  pub post_task-Leaves :
      (t : Task) (todo : List Task)
      → pc i ≡ post_task (t ∷ todo)
      → Leaves tasks pc i (step i m (post_task (t ∷ todo)))
  unfolding step next_submit
  post_task-Leaves t todo e =
      stays v i lt (m.task_cnt + 1) m.executed (lock_enqueue t todo) (ground arith) (ground arith)
        tt (ground arith) (ground arith) (λ test. ground arith)
