-- ===== src/Scheduler/Tests.antt =====
-- Project-4's schedulers on short task files.
mod Atoi
use learning_ei.Base.{none, ◌≡◌, refl, ◌≢◌, false, some, List, [], ◌∷◌, length, map, replicate}
use learning_ei.Base.Int.{pos}
use text.Mathlib.Text.{◌==◌ as str_eq}
use text.Mathlib.TextEquality.{eq_iff}
use Prim.Native.String.{String}
use learning_ei.Scheduler.{
  Task, Slice, delete, pick_fcfs, pick_sjf, pick_priority, shortest_from, highest_from,
  schedule_loop, schedule, add_lines, main,
}
use learning_ei.Scheduler.Fields.{cut, strsep, task_of, read_line}
use learning_ei.Scheduler.Driver.{add_file, main_file, Ends, main_file-Ends}
use learning_ei.Scheduler.Tests.Atoi.{atoi}
use learning_ei.Scheduler.Picked.{DistinctNames}
use learning_ei.Scheduler.Policies.{by_burst, by_priority, sjf, pick_of}
use learning_ei.Scheduler.Queue.{run_whole, IsServed}
use learning_ei.Scheduler.Order.{main-pick_fcfs, main-pick_sjf, main-pick_priority}
use learning_ei.Scheduler.Duplicates.{main-pick_fcfs_same_name}

abbrev t1 : Task
t1 = record { name = "T1"; priority = pos 4; burst = pos 20 }

abbrev t2 : Task
t2 = record { name = "T2"; priority = pos 3; burst = pos 25 }

abbrev t3 : Task
t3 = record { name = "T3"; priority = pos 3; burst = pos 25 }

abbrev t4 : Task
t4 = record { name = "T4"; priority = pos 5; burst = pos 15 }

abbrev lines : List Task
lines = t1 ∷ t2 ∷ t3 ∷ t4 ∷ []

differ : (s t : String) → str_eq s t ≡ false → s ≢ t
differ s t h e = cc ((eq_iff s t).1 e)

lines-DistinctNames : DistinctNames lines
lines-DistinctNames = (
  (differ "T2" "T1" refl, (differ "T3" "T1" refl, (differ "T4" "T1" refl, tt))),
  ((differ "T3" "T2" refl, (differ "T4" "T2" refl, tt)), ((differ "T4" "T3" refl, tt), (tt, tt))),
)

main-sjf_test : main pick_sjf lines ≡ some (map run_whole (t4 ∷ t1 ∷ t2 ∷ t3 ∷ []))
unfolding main schedule schedule_loop add_lines delete pick_sjf shortest_from
main-sjf_test = refl

main-priority_test : main pick_priority lines ≡ some (map run_whole (t4 ∷ t1 ∷ t2 ∷ t3 ∷ []))
unfolding main schedule schedule_loop add_lines delete pick_priority highest_from
main-priority_test = refl

main-pick_fcfs_example : main pick_fcfs lines ≡ some (map run_whole lines)
main-pick_fcfs_example = main-pick_fcfs lines lines-DistinctNames

main-pick_sjf_example :
    (order : List Task) × (main pick_sjf lines ≡ some (map run_whole order))
    × IsServed by_burst lines order
main-pick_sjf_example = main-pick_sjf lines lines-DistinctNames

main-pick_priority_example :
    (order : List Task) × (main pick_priority lines ≡ some (map run_whole order))
    × IsServed by_priority lines order
main-pick_priority_example = main-pick_priority lines lines-DistinctNames

-- Two tasks of the same name.
abbrev twins : List Task
twins = t2 ∷ record t1 { name = "T2" } ∷ []

abbrev file : List String
file = "T2, 3, 25" ∷ "T2, 4, 20" ∷ []

main_file-Ends_example : Ends atoi sjf file (main_file atoi (pick_of sjf) file)
main_file-Ends_example = main_file-Ends atoi sjf file

file-test : main_file atoi pick_sjf file ≡ main pick_sjf twins
unfolding main_file add_file read_line task_of strsep cut main schedule schedule_loop add_lines
    delete pick_sjf shortest_from
file-test = refl

-- A blank line, a line with one comma and a line with three.
broken-test :
    (read_line atoi "" ≡ none)
    × (read_line atoi "T1, 4" ≡ none)
    × (read_line atoi "T1, 4, 20, 1" ≡ none)
unfolding read_line task_of strsep cut
broken-test = (refl, refl, refl)

main-pick_fcfs_same_name_example : main pick_fcfs twins ≡ some (replicate 2 (run_whole t2))
main-pick_fcfs_same_name_example =
    main-pick_fcfs_same_name t2 (record t1 { name = "T2" } ∷ []) (refl, tt)
