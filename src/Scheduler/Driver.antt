-- ===== src/Scheduler/Driver.antt =====
-- `main` of Project-4/driver.c on the text of the task file. `atoi` of the C library is a parameter.
use learning_ei.Base.{◌≡◌, ◌≢◌, refl, arith, ◌∙◌, Option, none, some, List, [], ◌∷◌, length}
use learning_ei.Base.Int.{ℤ}
use Prim.Native.String.{String}
use learning_ei.Scheduler.{Task, Slice, add, schedule, add_lines, main}
use learning_ei.Scheduler.Policies.{Policy, pick_of}
use learning_ei.Scheduler.Duplicates.{main-length}
use learning_ei.Scheduler.Fields.{read_line, commas, Reads, Line, read, broken, read_line-Line}

-- The loop of `main`, over what `fgets` reads.
unfoldable pub add_file : (String → ℤ) → List String → List Task → Option (List Task)
add_file atoi [] list = some list
add_file atoi (line ∷ lines) list = elim (read_line atoi line) [
  | none ↦ none
  | some t ↦ add_file atoi lines (add t.name t.priority t.burst list)
]

-- `main` with the `schedule` of one of the three files. It is `none` on a null pointer and on an
-- undefined `free`.
unfoldable pub main_file :
    (String → ℤ) → (List Task → Option Task) → List String → Option (List Slice)
main_file atoi pick lines = elim (add_file atoi lines []) [
  | none ↦ none
  | some list ↦ schedule pick list
]

-- Each line is read as a task.
pub data AllRead (atoi : String → ℤ) : List String → List Task → Type 0 where
  no_lines : AllRead atoi [] []
  one_more :
      {line : String} {lines : List String} {t : Task} {tasks : List Task}
      → commas line ≡ 2
      → Reads atoi line t
      → AllRead atoi lines tasks
      → AllRead atoi (line ∷ lines) (t ∷ tasks)

-- One of the lines has not two commas.
pub data Broken : List String → Type 0 where
  this : {line : String} {lines : List String} → commas line ≢ 2 → Broken (line ∷ lines)
  later : {line : String} {lines : List String} → Broken lines → Broken (line ∷ lines)

data Added (atoi : String → ℤ) (lines : List String) (list : List Task) : Type 0 where
  all_added :
      (tasks : List Task)
      → AllRead atoi lines tasks
      → add_file atoi lines list ≡ some (add_lines tasks list)
      → Added atoi lines list
  stopped : Broken lines → add_file atoi lines list ≡ none → Added atoi lines list

Added-cons :
    (atoi : String → ℤ) (line : String) (lines : List String) (list : List Task) (r : Option Task)
    → ((list' : List Task) → Added atoi lines list')
    → Line atoi line r
    → read_line atoi line ≡ r
    → Added atoi (line ∷ lines) list
unfolding add_file add_lines
Added-cons atoi line lines list _ rest (broken n) e = stopped (this n) (rw (e, add_file) refl)
Added-cons atoi line lines list _ rest (read t two reads) e =
    elim (rest (add t.name t.priority t.burst list)) [
      | all_added tasks all e' ↦
          all_added (t ∷ tasks) (one_more two reads all) (rw (e, add_file) e')
      | stopped b e' ↦ stopped (later b) (rw (e, add_file) e')
    ]

add_file-Added :
    (atoi : String → ℤ) (lines : List String) (list : List Task) → Added atoi lines list
unfolding add_file add_lines
add_file-Added atoi [] list = all_added [] no_lines refl
add_file-Added atoi (line ∷ lines) list =
    Added-cons atoi line lines list (read_line atoi line) (add_file-Added atoi lines)
      (read_line-Line atoi line) refl

length-AllRead :
    {atoi : String → ℤ} {lines : List String} {tasks : List Task}
    → AllRead atoi lines tasks
    → length tasks ≡ length lines
length-AllRead no_lines = refl
length-AllRead (one_more two reads all) = omega (arith, length-AllRead all)

-- How a run of the program ends: with as many slices as lines, for the tasks of the lines, or
-- undefined, at a line that has not two commas.
pub data Ends (atoi : String → ℤ) (policy : Policy) (lines : List String)
    : Option (List Slice) → Type 0 where
  ended :
      (tasks : List Task) (trace : List Slice)
      → AllRead atoi lines tasks
      → main (pick_of policy) tasks ≡ some trace
      → length trace ≡ length lines
      → Ends atoi policy lines (some trace)
  undefined : Broken lines → Ends atoi policy lines none

-- Under each of the three policies and for whatever lines `fgets` reads, duplicate names included:
-- either each line has two commas, is read as the name, the priority and the burst between them,
-- and the program ends, follows no null pointer and runs what it runs for these tasks, as many
-- slices as there are lines; or some line has not two commas, and the run is undefined.
pub main_file-Ends :
    (atoi : String → ℤ) (policy : Policy) (lines : List String)
    → Ends atoi policy lines (main_file atoi (pick_of policy) lines)
unfolding main_file main
main_file-Ends atoi policy lines = elim (add_file-Added atoi lines []) [
  | stopped b e ↦ rw (e, main_file) (undefined b)
  | all_added tasks all e ↦
      let (trace, run_it, n) = main-length policy tasks in
      rw (e, main_file, run_it) (ended tasks trace all run_it (n ∙ length-AllRead all))
]
