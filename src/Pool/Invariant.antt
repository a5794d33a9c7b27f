-- ===== src/Pool/Invariant.antt =====
-- What every interleaving of Project-5-1 keeps.
use learning_ei.Base.{ℕ, ◌<◌, ◌≡◌, refl, arith, Bool, false, List, [], ◌∷◌, inl, inr}
use learning_ei.Base.Family.{total, total-zero}
use learning_ei.Ring.{Ring}
use learning_ei.Ring.Window.{window}
use learning_ei.Pool.{
  pool_threads, Shared, Pc, lock_enqueue, check_full, store_task, move_tail, unlock_full,
  unlock_added, post_task, finished, wait_task, lock_dequeue, load_task, move_head, unlock_task,
  execute, next_submit, step, System, pool_init, init, pick, run,
}
use learning_ei.Pool.Counts.{
  hides_task, is_inside, IsFresh, unsubmitted, in_hand, IsCounted, Leaves,
}
use learning_ei.Pool.Pick.{pick-step}
use learning_ei.Pool.Enqueue.{
  lock_enqueue-Leaves, check_full-Leaves, store_task-Leaves, move_tail-Leaves, unlock_full-Leaves,
  unlock_added-Leaves, post_last-Leaves, post_task-Leaves,
}
use learning_ei.Pool.Dequeue.{
  wait_task-Leaves, lock_dequeue-Leaves, load_task-Leaves, move_head-Leaves, unlock_task-Leaves,
  execute-Leaves,
}

module _ {Task : Type 0} where
  step-Leaves :
      {tasks : List Task} {m : Shared Task} {pc : ℕ → Pc Task}
      → IsCounted tasks m pc
      → (i : ℕ) → i < pool_threads
      → (p : Pc Task) → pc i ≡ p
      → Leaves tasks pc i (step i m p)
  unfolding step
  step-Leaves v i lt (lock_enqueue t todo) e = lock_enqueue-Leaves v i lt t todo e
  step-Leaves v i lt (check_full t todo) e = check_full-Leaves v i lt t todo e
  step-Leaves v i lt (store_task t todo) e = store_task-Leaves v i lt t todo e
  step-Leaves v i lt (move_tail t todo) e = move_tail-Leaves v i lt t todo e
  step-Leaves v i lt (unlock_full t todo) e = unlock_full-Leaves v i lt t todo e
  step-Leaves v i lt (unlock_added todo) e = unlock_added-Leaves v i lt todo e
  step-Leaves v i lt (post_task []) e = post_last-Leaves v i lt e
  step-Leaves v i lt (post_task (t ∷ todo)) e = post_task-Leaves v i lt t todo e
  step-Leaves v i lt finished e = tt
  step-Leaves v i lt wait_task e = wait_task-Leaves v i lt e
  step-Leaves v i lt lock_dequeue e = lock_dequeue-Leaves v i lt e
  step-Leaves v i lt load_task e = load_task-Leaves v i lt e
  step-Leaves v i lt (move_head t) e = move_head-Leaves v i lt t e
  step-Leaves v i lt (unlock_task t) e = unlock_task-Leaves v i lt t e
  step-Leaves v i lt (execute t) e = execute-Leaves v i lt t e

  pub pick-IsCounted :
      {tasks : List Task} (i : ℕ) (s : System Task)
      → IsCounted tasks s.mem s.pc
      → IsCounted tasks (pick i s).mem (pick i s).pc
  pick-IsCounted i s v = elim (pick-step i s) [
    | inl same ↦ rw same v
    | inr (m, p, lower, e, stepped) ↦
        let left = step-Leaves v i lower (s.pc i) refl in rw stepped (rw e at left)
  ]

  -- The client's first statement.
  unsubmitted-next_submit : (tasks : List Task) → unsubmitted (next_submit tasks) ≡ tasks
  unfolding next_submit
  unsubmitted-next_submit [] = refl
  unsubmitted-next_submit (t ∷ tasks) = refl

  next_submit-outside :
      (tasks : List Task)
      → (hides_task (next_submit tasks) ≡ 0)
        × (is_inside (next_submit tasks) ≡ false)
        × ((test : Task → Bool) → in_hand test (next_submit tasks) ≡ 0)
        × ((r : Ring Task) → IsFresh r (next_submit tasks))
  unfolding next_submit
  next_submit-outside [] = (refl, refl, λ test. refl, λ r. tt)
  next_submit-outside (t ∷ tasks) = (refl, refl, λ test. refl, λ r. tt)

  pub init-IsCounted :
      (slots : ℕ → Task) (tasks : List Task)
      → IsCounted tasks (init slots tasks).mem (init slots tasks).pc
  unfolding init pool_init window
  init-IsCounted slots tasks =
      let pc : ℕ → Pc Task = (init slots tasks).pc in
      let (no_task, outside, empty_handed, knows) = next_submit-outside tasks in
      let hidden : total hides_task pool_threads pc ≡ 0 =
        total-zero hides_task pool_threads pc (λ i q. ground arith) in
      record {
        fifo = record { head_in = omega arith; tail_in = omega arith; in_order = refl };
        items = omega arith;
        room = omega arith;
        owned = record { owner = λ i. ground arith; held = λ i e. cc };
        fresh = λ i. ground (arith, knows (init slots tasks).mem.ring);
        submitted = unsubmitted-next_submit tasks;
        workers = λ i q. ground arith;
        ended = λ test.
            let none_in_hand =
              total-zero (in_hand test) pool_threads pc
                (λ i q. ground (arith, empty_handed test)) in
            omega arith;
      }

  run-IsCounted :
      {tasks : List Task} (picks : List ℕ) (s : System Task)
      → IsCounted tasks s.mem s.pc
      → IsCounted tasks (run picks s).mem (run picks s).pc
  unfolding run
  run-IsCounted [] s v = v
  run-IsCounted (i ∷ picks) s v = run-IsCounted picks (pick i s) (pick-IsCounted i s v)

  pub reached-IsCounted :
      (slots : ℕ → Task) (tasks : List Task) (picks : List ℕ)
      → let s = run picks (init slots tasks) in IsCounted tasks s.mem s.pc
  reached-IsCounted slots tasks picks =
      run-IsCounted picks (init slots tasks) (init-IsCounted slots tasks)
