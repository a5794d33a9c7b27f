-- ===== src/RoundRobin.antt =====
-- Project-4/schedule_rr.c: round robin over the linked list of list.c. The nodes are numbered in the
-- order in which they are inserted, and a node and its task have the same number; the pointers between
-- nodes are kept, since the cursor `next_node` points into the list.
pub mod Chain
pub mod Remove
pub mod Serve
pub mod Turns
pub mod Loop
pub mod Holds
pub mod Order
pub mod Time
pub mod Priority
mod Tests
use learning_ei.Base.{
  ℕ, zero, suc, ◌+◌, ◌/◌, Bool, true, false, Option, none, some, List, [], ◌∷◌, ◌==◌, if◌then◌else◌,
}
use learning_ei.Base.Int.{ℤ, pos, negsuc, ltb_ℤ, ◌-ℤ◌}
use learning_ei.Base.Arrays.{update}
use learning_ei.Scheduler.{Task, Slice, run}
use Prim.Native.String.{String}
use text.Mathlib.Text.{◌==◌ as str_eq}

abbrev pub quantum : ℤ
quantum = pos 10

-- The nodes with their tasks: only the first `size` are in use.
pub record Heap : Type 0 where
  pub task : ℕ → Task
  pub remaining_burst : ℕ → ℤ
  pub next : ℕ → Option ℕ
  pub size : ℕ

-- `insert` of a task with its remaining burst: the new head, and the heap.
unfoldable pub insert : Option ℕ → Task → ℤ → Heap → Option ℕ × Heap
insert head new_task remaining m = (
  some m.size,
  record m {
    task = update m.task m.size new_task;
    remaining_burst = update m.remaining_burst m.size remaining;
    next = update m.next m.size head;
    size = m.size + 1;
  },
)

-- `add`, where `head` is `taskList`.
unfoldable pub add : String → ℤ → ℤ → Option ℕ → Heap → Option ℕ × Heap
add name priority burst head m =
    insert head (record { name = name; priority = priority; burst = burst }) burst m

-- The loop of `delete` at `temp`, with `prev` before it, with fuel. The source follows a null pointer
-- where no task has the name (`none`).
unfoldable pub delete_from : ℕ → Task → ℕ → Option ℕ → Heap → Option Heap
delete_from zero t prev temp m = none
delete_from (suc fuel) t prev temp m = elim temp [
  | none ↦ none
  | some n ↦ elim (str_eq t.name (m.task n).name) [
    | true ↦ some (record m { next = update m.next prev (m.next n) })
    | false ↦ delete_from fuel t n (m.next n) m
  ]
]

-- The head behind `delete`, and the heap. A list has at most `size` nodes.
unfoldable pub delete : Task → Option ℕ → Heap → Option (Option ℕ × Heap)
delete t none m = none
delete t (some n) m = elim (str_eq t.name (m.task n).name) [
  | true ↦ some (m.next n, m)
  | false ↦ elim (delete_from m.size t n (m.next n) m) [ none ↦ none | some m' ↦ some (some n, m') ]
]

-- The picked node, and `next_node` behind it.
unfoldable pub pick_next_task : Option ℕ → Option ℕ → Heap → Option (ℕ × Option ℕ)
pick_next_task next_node head m = elim next_node [
  | none ↦ none
  | some n ↦ elim (m.next n) [ none ↦ some (n, head) | some k ↦ some (n, some k) ]
]

abbrev pub slice_of : ℤ → ℤ
slice_of remaining = if ltb_ℤ quantum remaining then quantum else remaining

abbrev pub is_zero : ℤ → Bool
is_zero (pos n) = n == 0
is_zero (negsuc n) = false

-- What runs first, and then the rest, if that does not follow a null pointer.
abbrev pub before : Slice → Option (List Slice × Heap) → Option (List Slice × Heap)
before slice none = none
before slice (some (trace, m)) = some (slice ∷ trace, m)

-- The loop of `schedule`, with fuel: what it runs, and the heap, or `none` on a null pointer or
-- without fuel.
unfoldable pub schedule_loop : ℕ → Option ℕ → Option ℕ → Heap → Option (List Slice × Heap)
schedule_loop zero head next_node m = none
schedule_loop (suc fuel) none next_node m = some ([], m)
schedule_loop (suc fuel) (some h) next_node m = elim (pick_next_task next_node (some h) m) [
  | none ↦ none
  | some (n, next_node') ↦
      let slice = slice_of (m.remaining_burst n) in
      let left = m.remaining_burst n -ℤ slice in
      let m' : Heap = record m { remaining_burst = update m.remaining_burst n left } in
      elim (is_zero left) [
        | false ↦ before (run (m.task n) slice) (schedule_loop fuel (some h) next_node' m')
        | true ↦ elim (delete (m.task n) (some h) m') [
          | none ↦ none
          | some (head, m'') ↦
              before (run (m.task n) slice) (schedule_loop fuel head next_node' m'')
        ]
      ]
]

unfoldable pub schedule : ℕ → Option ℕ → Heap → Option (List Slice)
schedule fuel head m = elim (schedule_loop fuel head head m) [
  | none ↦ none
  | some (trace, m') ↦ some trace
]

-- `main` of driver.c reads the lines and adds a task for each.
unfoldable pub add_lines : List Task → Option ℕ → Heap → Option ℕ × Heap
add_lines [] head m = (head, m)
add_lines (line ∷ lines) head m =
    let (head', m') = add line.name line.priority line.burst head m in add_lines lines head' m'

-- The heap before the first node, from what memory holds at the start.
unfoldable pub no_nodes : (ℕ → Task) → Heap
no_nodes task = record { task = task; remaining_burst = λ n. pos 0; next = λ n. none; size = 0 }

-- A bound on the turns of a task, and of the tasks of a file.
abbrev pub rounds_of : ℤ → ℕ
rounds_of (pos n) = n / 10 + 1
rounds_of (negsuc n) = 1

abbrev pub rounds : List Task → ℕ
rounds [] = 0
rounds (line ∷ lines) = rounds_of line.burst + rounds lines

-- `main` of driver.c with the `schedule` of schedule_rr.c.
unfoldable pub main : (ℕ → Task) → List Task → Option (List Slice)
main task lines =
    let (head, m) = add_lines lines none (no_nodes task) in schedule (suc (rounds lines)) head m
