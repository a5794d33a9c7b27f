-- ===== src/Pool/Rest.antt =====
-- When Project-5-1 comes to rest.
use learning_ei.Base.{
  ℕ, ◌<◌, ◌≡◌, refl, ◌∙◌, sym, ap, ◌≢◌, arith, Bool, true, false, none, List, [], ◌++◌, inl, inr,
  Option-cases,
}
use mathlib.Core.List.{append-nil}
use learning_ei.Base.Family.{total-zero}
use learning_ei.Ring.{Ring, len}
use learning_ei.Ring.Window.{window}
use learning_ei.Ring.Laws.{contents, acquire-free}
use learning_ei.Pool.{
  pool_threads, Shared, Pc, lock_enqueue, move_tail, finished, wait_task, lock_dequeue, step, init,
  run,
}
use learning_ei.Pool.Counts.{hides_task, is_inside, unsubmitted, is_worker, count_if, in_hand}
use learning_ei.Pool.Invariant.{reached-IsCounted}

module _ {Task : Type 0} where
  -- Whether the thread has finished, or waits for a task.
  abbrev pub is_resting : Pc Task → Bool
  is_resting finished = true
  is_resting wait_task = true
  is_resting _ = false

  pub step-inside : (i : ℕ) (m : Shared Task) (p : Pc Task) → is_inside p ≡ true → step i m p ≢ none
  unfolding step
  step-inside i m (move_tail t todo) inside = λ e. cc
  step-inside i m p inside = λ e. ground arith

  pub step-free :
      (i : ℕ) (m : Shared Task) (p : Pc Task)
      → m.ring.lock ≡ none
      → step i m p ≡ none
      → is_resting p ≡ true
  unfolding step
  step-free i m (lock_enqueue t todo) free e = cc (rw (acquire-free i m.ring free, step) at e)
  step-free i m lock_dequeue free e = cc (rw (acquire-free i m.ring free, step) at e)
  step-free i m finished free e = refl
  step-free i m p free e = ground arith

  step-wait_task :
      (i : ℕ) (m : Shared Task) (p : Pc Task)
      → is_resting p ≡ true
      → is_worker p ≡ true
      → step i m p ≡ none
      → m.task_cnt ≡ 0
  unfolding step
  step-wait_task i m wait_task r w e = ground arith
  step-wait_task i m p r w e = ground arith

  resting :
      (p : Pc Task)
      → is_resting p ≡ true
      → (hides_task p ≡ 0) × (unsubmitted p ≡ []) × ((test : Task → Bool) → in_hand test p ≡ 0)
  resting finished r = (refl, refl, λ test. refl)
  resting wait_task r = (refl, refl, λ test. refl)
  resting p r = (ground arith, ground arith, λ test. ground arith)

  contents-empty : (r : Ring Task) → len r ≡ 0 → contents r ≡ []
  unfolding window
  contents-empty r e = ap (window r.slots r.head) e

-- Once no thread can move, whatever the interleaving has been, every submitted task has been executed
-- exactly as often as it has been submitted.
pub run-executed :
    {Task : Type 0} (slots : ℕ → Task) (tasks : List Task) (picks : List ℕ)
    → let s = run picks (init slots tasks) in
      ((i : ℕ) → i < pool_threads → step i s.mem (s.pc i) ≡ none)
      → (test : Task → Bool) → count_if test s.mem.executed ≡ count_if test tasks
run-executed slots tasks picks rest test =
    let s = run picks (init slots tasks) in
    let v = reached-IsCounted slots tasks picks in
    elim (Option-cases s.mem.ring.lock) [
      | inr (i, e) ↦
          let (lower, inside) = v.owned.held i e in
          absurd (step-inside i s.mem (s.pc i) inside (rest i lower))
      | inl free ↦
          let quiet : (i : ℕ) → i < pool_threads → is_resting (s.pc i) ≡ true =
            λ i lower. step-free i s.mem (s.pc i) free (rest i lower) in
          let no_count : s.mem.task_cnt ≡ 0 =
            step-wait_task 1 s.mem (s.pc 1) (quiet 1 (omega arith)) (v.workers 1 (omega arith))
              (rest 1 (omega arith)) in
          let hidden =
            total-zero hides_task pool_threads s.pc
              (λ i lower. (resting (s.pc i) (quiet i lower)).0) in
          let in_hands =
            total-zero (in_hand test) pool_threads s.pc
              (λ i lower. (resting (s.pc i) (quiet i lower)).2 test) in
          let empty = contents-empty s.mem.ring (omega (arith, v.items)) in
          let all_taken : s.mem.ring.taken ≡ s.mem.ring.added =
            sym (append-nil s.mem.ring.taken)
            ∙ (ap (λ l. s.mem.ring.taken ++ l) (sym empty) ∙ v.fifo.in_order) in
          let all_added : s.mem.ring.added ≡ tasks =
            sym (append-nil s.mem.ring.added)
            ∙ (ap (λ l. s.mem.ring.added ++ l) (sym (resting (s.pc 0) (quiet 0 (omega arith))).1)
                ∙ v.submitted) in
          omega (arith, v.ended test, ap (count_if test) (all_taken ∙ all_added))
    ]
