-- ===== src/RoundRobin/Tests.antt =====
-- The round-robin scheduler of Project-4 on a short task file.
use learning_ei.Base.{ℕ, arith, ◌≡◌, refl, ◌≢◌, false, some, List, [], ◌∷◌}
use learning_ei.Base.Int.{pos, ◌-ℤ◌}
use learning_ei.Scheduler.{Task, Slice, run}
use learning_ei.Scheduler.Picked.{DistinctNames}
use learning_ei.RoundRobin.{
  main, schedule, schedule_loop, add_lines, add, insert, no_nodes, pick_next_task, delete,
  delete_from,
}
use learning_ei.RoundRobin.Serve.{Serves}
use learning_ei.RoundRobin.Holds.{queue_of}
use learning_ei.RoundRobin.Order.{main-Serves}
use learning_ei.RoundRobin.Priority as Priority
use learning_ei.RoundRobin.Priority.Lists.{of_priority}
use learning_ei.RoundRobin.Priority.Down.{ServesDown, main-ServesDown}
use text.Mathlib.Text.{◌==◌ as str_eq}
use text.Mathlib.TextEquality.{eq_iff}
use Prim.Native.String.{String}

abbrev t1 : Task
t1 = record { name = "T1"; priority = pos 4; burst = pos 20 }

abbrev t2 : Task
t2 = record { name = "T2"; priority = pos 3; burst = pos 25 }

abbrev t3 : Task
t3 = record { name = "T3"; priority = pos 3; burst = pos 5 }

abbrev lines : List Task
lines = t1 ∷ t2 ∷ t3 ∷ []

abbrev nothing : ℕ → Task
nothing = λ n. t1

main-lines :
    main nothing lines
    ≡ some (
        run t3 (pos 5)
        ∷ run t2 (pos 10)
        ∷ run t1 (pos 10)
        ∷ run t2 (pos 10)
        ∷ run t1 (pos 10)
        ∷ run t2 (pos 5)
        ∷ [])
unfolding main schedule schedule_loop add_lines add insert no_nodes pick_next_task delete
    delete_from ◌-ℤ◌
main-lines = refl

differ : (s t : String) → str_eq s t ≡ false → s ≢ t
differ s t h e = cc ((eq_iff s t).1 e)

lines-DistinctNames : DistinctNames lines
lines-DistinctNames =
    ((differ "T2" "T1" refl, (differ "T3" "T1" refl, tt)), ((differ "T3" "T2" refl, tt), (tt, tt)))

main-Serves_example :
    (trace : List Slice) × (main nothing lines ≡ some trace) × Serves (queue_of lines []) trace
main-Serves_example = main-Serves nothing lines lines-DistinctNames

main-priority :
    Priority.main nothing lines
    ≡ some (
        run t1 (pos 10)
        ∷ run t1 (pos 10)
        ∷ run t3 (pos 5)
        ∷ run t2 (pos 10)
        ∷ run t2 (pos 10)
        ∷ run t2 (pos 5)
        ∷ [])
unfolding Priority.main Priority.schedule Priority.schedule_from Priority.add_lines Priority.add
    schedule_loop add insert no_nodes pick_next_task delete delete_from ◌-ℤ◌
main-priority = refl

main-ServesDown_example :
    (trace : List Slice) × (Priority.main nothing lines ≡ some trace)
    × ServesDown (λ p. queue_of (of_priority p lines) []) 10 trace
main-ServesDown_example =
    main-ServesDown nothing lines lines-DistinctNames
      ((4, refl, omega arith), ((3, refl, omega arith), ((3, refl, omega arith), tt)))
