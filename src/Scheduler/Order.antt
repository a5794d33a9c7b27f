-- ===== src/Scheduler/Order.antt =====
-- The order in which the three `schedule` functions of Project-4 run the tasks of the file.
use learning_ei.Base.{
  ℕ, zero, suc, ◌<◌, ◌≡◌, refl, ◌∙◌, ap, ◌≢◌, sym, arith, Bool, Option, some, List, [], ◌∷◌, map,
  length,
}
use learning_ei.Scheduler.{
  Task, pick_fcfs, pick_sjf, pick_priority, schedule_loop, schedule, add_lines, main,
}
use learning_ei.Scheduler.Picked.{
  All, DistinctNames, Picked-length, Picked-DistinctNames, delete-Picked,
}
use learning_ei.Scheduler.Policies.{
  IsPicker, by_arrival, by_burst, by_priority, by_arrival-IsPreorder, by_burst-IsPreorder,
  by_priority-IsPreorder, pick_fcfs-IsPicker, pick_sjf-IsPicker, pick_priority-IsPicker,
}
use learning_ei.Scheduler.Queue.{
  run_whole, only, alike, IsServed, queue, queue-Picked, queue-IsServed,
}

-- With distinct names, the loop serves the queue.
schedule_loop-queue :
    (le : Task → Task → Bool) (pick : List Task → Option Task)
    → IsPicker le pick
    → (fuel : ℕ) (l : List Task) → length l < fuel
    → DistinctNames l
    → schedule_loop pick fuel l ≡ some (map run_whole (queue le l))
unfolding schedule_loop queue
schedule_loop-queue le pick picks zero l enough d = absurd (omega arith)
schedule_loop-queue le pick picks (suc fuel) [] enough d = refl
schedule_loop-queue le pick picks (suc fuel) (t ∷ rest) enough d =
    let (u, left, e, p) = picks t rest in
    let served =
      schedule_loop-queue le pick picks fuel left (omega (arith, Picked-length p))
        (Picked-DistinctNames p d) in
    let first : queue le (t ∷ rest) ≡ u ∷ queue le left = queue-Picked p in
    rw (e, schedule_loop, delete-Picked p d, served) (ap (λ q. some (map run_whole q)) (sym first))

-- The names stay distinct as the lines are added, newest first.
pub DistinctNames-add_lines :
    (lines list : List Task)
    → DistinctNames lines
    → DistinctNames list
    → All (λ t. All (λ u. u.name ≢ t.name) list) lines
    → DistinctNames (add_lines lines list)
unfolding add_lines
DistinctNames-add_lines [] list d e across = e
DistinctNames-add_lines (line ∷ lines) list d e across =
    DistinctNames-add_lines lines (line ∷ list) d.1 (across.0, e) (All-both lines d.0 across.1)
  where
    All-both :
        (l : List Task)
        → All (λ t. t.name ≢ line.name) l
        → All (λ t. All (λ u. u.name ≢ t.name) list) l
        → All (λ t. All (λ u. u.name ≢ t.name) (line ∷ list)) l
    All-both [] a b = tt
    All-both (t ∷ rest) a b = ((λ q. a.0 (sym q), b.0), All-both rest a.1 b.1)

pub All-nothing : (l : List Task) → All (λ t. Unit {0}) l
All-nothing [] = tt
All-nothing (t ∷ rest) = (tt, All-nothing rest)

main-queue :
    (le : Task → Task → Bool) (pick : List Task → Option Task)
    → IsPicker le pick
    → (lines : List Task) → DistinctNames lines
    → main pick lines ≡ some (map run_whole (queue le (add_lines lines [])))
unfolding main schedule
main-queue le pick picks lines d =
    let list = add_lines lines [] in
    schedule_loop-queue le pick picks (suc (length list)) list (omega arith)
      (DistinctNames-add_lines lines [] d tt (All-nothing lines))

-- With distinct names, the shortest-job-first scheduler runs every task of the file once and to its
-- end, in the order of the bursts, and tasks with the same burst in the order of the file.
pub main-pick_sjf :
    (lines : List Task)
    → DistinctNames lines
    → (order : List Task) × (main pick_sjf lines ≡ some (map run_whole order))
      × IsServed by_burst lines order
main-pick_sjf lines d = (
  queue by_burst (add_lines lines []),
  main-queue by_burst pick_sjf pick_sjf-IsPicker lines d,
  queue-IsServed by_burst-IsPreorder lines,
)

-- With distinct names, the priority scheduler runs every task of the file once and to its end,
-- those of a higher priority first, and tasks with the same priority in the order of the file.
pub main-pick_priority :
    (lines : List Task)
    → DistinctNames lines
    → (order : List Task) × (main pick_priority lines ≡ some (map run_whole order))
      × IsServed by_priority lines order
main-pick_priority lines d = (
  queue by_priority (add_lines lines []),
  main-queue by_priority pick_priority pick_priority-IsPicker lines d,
  queue-IsServed by_priority-IsPreorder lines,
)

only-by_arrival : (u : Task) (l : List Task) → only (alike by_arrival u) l ≡ l
only-by_arrival u [] = refl
only-by_arrival u (t ∷ rest) = ap (λ q. t ∷ q) (only-by_arrival u rest)

queue-by_arrival : (lines : List Task) → queue by_arrival (add_lines lines []) ≡ lines
unfolding add_lines queue
queue-by_arrival [] = refl
queue-by_arrival (line ∷ lines) =
    sym (only-by_arrival line (queue by_arrival (add_lines (line ∷ lines) [])))
    ∙ (queue-IsServed by_arrival-IsPreorder (line ∷ lines)).fifo line
    ∙ only-by_arrival line (line ∷ lines)

-- With distinct names, the first-come-first-served scheduler runs the tasks in the order of the
-- file, each once and to its end.
pub main-pick_fcfs :
    (lines : List Task) → DistinctNames lines → main pick_fcfs lines ≡ some (map run_whole lines)
main-pick_fcfs lines d =
    main-queue by_arrival pick_fcfs pick_fcfs-IsPicker lines d
    ∙ ap (λ q. some (map run_whole q)) (queue-by_arrival lines)
