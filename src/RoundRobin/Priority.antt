-- ===== src/RoundRobin/Priority.antt =====
-- Project-4/schedule_priority_rr.c: a list for each priority, and round robin in each list, from the
-- highest priority down. `pickNextTask` and the body of the loop are those of schedule_rr.c.
pub mod Lists
pub mod Down
use learning_ei.Base.{
  ℕ, zero, suc, ◌≤◌, Bool, false, Option, none, some, List, [], ◌∷◌, ◌++◌, leb, ◌==◌, if◌then◌else◌,
}
use learning_ei.Base.Int.{ℤ, pos, negsuc}
use learning_ei.Base.Arrays.{update}
use learning_ei.Scheduler.{Task, Slice}
use learning_ei.RoundRobin.{Heap, schedule_loop, no_nodes, rounds}
use learning_ei.RoundRobin as Single
use Prim.Native.String.{String}

abbrev pub max_priority : ℕ
max_priority = 10

-- `add`, where `heads` is `taskList`. A priority that is no index of the array is `none`.
unfoldable pub add : String → ℤ → ℤ → (ℕ → Option ℕ) → Heap → Option ((ℕ → Option ℕ) × Heap)
add name (negsuc p) burst heads m = none
add name (pos p) burst heads m =
    if leb p max_priority
    then (let (head, m') = Single.add name (pos p) burst (heads p) m in
        some (update heads p head, m'))
    else none

-- The loop of `schedule` for the priorities up to `p`, with fuel for each list.
unfoldable pub schedule_from : ℕ → ℕ → (ℕ → Option ℕ) → Heap → Option (List Slice)
schedule_from fuel zero heads m = some []
schedule_from fuel (suc p) heads m = elim (schedule_loop fuel (heads (suc p)) (heads (suc p)) m) [
  | none ↦ none
  | some (trace, m') ↦ elim (schedule_from fuel p (update heads (suc p) none) m') [
    | none ↦ none
    | some rest ↦ some (trace ++ rest)
  ]
]

unfoldable pub schedule : ℕ → (ℕ → Option ℕ) → Heap → Option (List Slice)
schedule fuel heads m = schedule_from fuel max_priority heads m

-- `main` of driver.c reads the lines and adds a task for each.
unfoldable pub add_lines : List Task → (ℕ → Option ℕ) → Heap → Option ((ℕ → Option ℕ) × Heap)
add_lines [] heads m = some (heads, m)
add_lines (line ∷ lines) heads m = elim (add line.name line.priority line.burst heads m) [
  | none ↦ none
  | some (heads', m') ↦ add_lines lines heads' m'
]

-- `main` of driver.c with the `schedule` of schedule_priority_rr.c.
unfoldable pub main : (ℕ → Task) → List Task → Option (List Slice)
main task lines = elim (add_lines lines (λ p. none) (no_nodes task)) [
  | none ↦ none
  | some (heads, m) ↦ schedule (suc (rounds lines)) heads m
]
