-- ===== src/Scheduler.antt =====
-- Project-4: the task list (list.c), the driver (driver.c) and the schedulers that run each task to
-- its end: first come first served (schedule_fcfs.c), shortest job first (schedule_sjf.c) and
-- priority (schedule_priority.c). The linked list is a list, its head being `taskList`.
pub mod Picked
pub mod Policies
pub mod Queue
pub mod Order
pub mod Duplicates
pub mod Fields
pub mod Driver
mod Tests
use learning_ei.Base.{
  ℕ, zero, suc, Bool, true, false, Option, none, some, List, [], ◌∷◌, length, if◌then◌else◌,
}
use learning_ei.Base.Int.{ℤ, ltb_ℤ}
use Prim.Native.String.{String}
use text.Mathlib.Text.{◌==◌ as str_eq}

-- The fields that these schedulers set.
pub record Task : Type 0 where
  pub name : String
  pub priority : ℤ
  pub burst : ℤ

-- What `run` prints: a task, and for how long it runs.
pub record Slice : Type 0 where
  pub task : Task
  pub slice : ℤ

abbrev pub run : Task → ℤ → Slice
run task slice = record { task = task; slice = slice }

abbrev pub insert : Task → List Task → List Task
insert task list = task ∷ list

-- Unlinks the first task with the name of `task`. The source follows a null pointer where no task
-- has the name (`none`).
pub delete : Task → List Task → Option (List Task)
delete task [] = none
delete task (t ∷ rest) =
    let later = delete task rest in
    if str_eq task.name t.name
    then some rest
    else elim later [ none ↦ none | some rest' ↦ some (t ∷ rest') ]

abbrev pub add : String → ℤ → ℤ → List Task → List Task
add name priority burst list =
    insert (record { name = name; priority = priority; burst = burst }) list

-- `pickNextTask` of schedule_fcfs.c: the last task.
pub pick_fcfs : List Task → Option Task
pick_fcfs [] = none
pick_fcfs (t ∷ []) = some t
pick_fcfs (t ∷ u ∷ rest) = pick_fcfs (u ∷ rest)

-- The loop of `pickNextTask` of schedule_sjf.c, and the function.
pub shortest_from : Task → List Task → Task
shortest_from shortest_job [] = shortest_job
shortest_from shortest_job (n ∷ rest) =
    shortest_from (if ltb_ℤ shortest_job.burst n.burst then shortest_job else n) rest

pub pick_sjf : List Task → Option Task
pick_sjf [] = none
pick_sjf (t ∷ rest) = some (shortest_from t (t ∷ rest))

-- The loop of `pickNextTask` of schedule_priority.c, and the function.
pub highest_from : Task → List Task → Task
highest_from highest_job [] = highest_job
highest_from highest_job (n ∷ rest) =
    highest_from (if ltb_ℤ n.priority highest_job.priority then highest_job else n) rest

pub pick_priority : List Task → Option Task
pick_priority [] = none
pick_priority (t ∷ rest) = some (highest_from t (t ∷ rest))

-- `schedule`, which has the same text in the three files, with fuel: what it runs, or `none` on a
-- null pointer or without fuel.
pub schedule_loop : (List Task → Option Task) → ℕ → List Task → Option (List Slice)
schedule_loop pick zero list = none
schedule_loop pick (suc fuel) [] = some []
schedule_loop pick (suc fuel) (t ∷ rest) = elim (pick (t ∷ rest)) [
  | none ↦ none
  | some next ↦ elim (delete next (t ∷ rest)) [
    | none ↦ none
    | some list ↦ elim (schedule_loop pick fuel list) [
      | none ↦ none
      | some trace ↦ some (run next next.burst ∷ trace)
    ]
  ]
]

pub schedule : (List Task → Option Task) → List Task → Option (List Slice)
schedule pick list = schedule_loop pick (suc (length list)) list

-- The calls of `add` in `main`, for the tasks that it reads from the lines of the file (see `Fields`).
unfoldable pub add_lines : List Task → List Task → List Task
add_lines [] list = list
add_lines (line ∷ lines) list = add_lines lines (add line.name line.priority line.burst list)

-- `main` of driver.c with the `schedule` of one of the three files, for these tasks.
pub main : (List Task → Option Task) → List Task → Option (List Slice)
main pick lines = schedule pick (add_lines lines [])
