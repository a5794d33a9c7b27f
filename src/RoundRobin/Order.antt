-- ===== src/RoundRobin/Order.antt =====
-- What the round-robin scheduler of Project-4 runs of a task file.
use learning_ei.Base.{ℕ, suc, ◌≡◌, refl, arith, sym, subst, none, some, List, []}
use learning_ei.Scheduler.{Task, Slice}
use learning_ei.Scheduler.Order.{DistinctNames-add_lines, All-nothing}
use learning_ei.Scheduler.Picked.{DistinctNames}
use learning_ei.RoundRobin.{rounds, add_lines, no_nodes, schedule, main}
use learning_ei.RoundRobin.Serve.{Serves}
use learning_ei.RoundRobin.Holds.{
  queue_of, add_lines-Holds, turns-queue_of, tasks-queue_of, schedule_loop-Holds, no_nodes-Holds,
}

-- With distinct names, the round-robin scheduler comes to an end, and it serves the tasks of the file as
-- a queue, the last line first: each runs for what it still needs, or else for a quantum of 10, and
-- then goes to the end of the queue.
pub main-Serves :
    (task : ℕ → Task) (lines : List Task)
    → DistinctNames lines
    → (trace : List Slice) × (main task lines ≡ some trace) × Serves (queue_of lines []) trace
unfolding main schedule
main-Serves task lines d =
    let start = no_nodes-Holds task in
    let m = (add_lines lines none (no_nodes task)).1 in
    let head = (add_lines lines none (no_nodes task)).0 in
    let (trace, _, ran, serves, _) =
      schedule_loop-Holds (suc (rounds lines)) m head (queue_of lines [])
        (add_lines-Holds lines none (no_nodes task) [] start)
        (subst DistinctNames (sym (tasks-queue_of lines []))
          (DistinctNames-add_lines lines [] d tt (All-nothing lines)))
        (omega (arith, turns-queue_of lines [])) in
    (trace, rw (ran, schedule) refl, serves)
