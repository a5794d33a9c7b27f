-- ===== src/Pool/Tests.antt =====
-- Project-5-1 with two tasks and the three bees.
use learning_ei.Base.{
  ℕ, zero, suc, ◌≤◌, ◌<◌, ◌≡◌, refl, arith, true, none, List, [], ◌∷◌, ◌++◌, ◌==◌,
}
use learning_ei.Ring.{len, acquire, release, write, advance_tail, advance_head}
use learning_ei.Ring.Laws.{contents}
use learning_ei.Pool.{pool_threads, step, next_submit, pick, run, pool_init, init}
use learning_ei.Pool.Counts.{unsubmitted, count_if}
use learning_ei.Closing.{
  Event, works, ends, closes, destroying, onward, start, close_at, close, end, work, or_stay,
}
use learning_ei.Closing as Closing
use learning_ei.Ring.Window.{window}
use learning_ei.Pool.Shutdown.{is_finished, bees, shut_down}
use learning_ei.Pool.Shutdown.Finish.{shut_down_finishes}
use learning_ei.Pool.Shutdown.Left.{IsShut, shut_down-IsShut}
use learning_ei.Pool.Safety.{run-in_line}
use learning_ei.Pool.Rest.{run-executed}

-- `n` picks of thread `i`.
abbrev turns : ℕ → ℕ → List ℕ
turns zero i = []
turns (suc n) i = i ∷ turns n i

-- The client submits 8 and 9, bee 2 takes 8, and bee 1 takes 9 and is first to execute.
abbrev session : List ℕ
session = turns 14 0 ++ (turns 5 2 ++ (turns 6 1 ++ turns 1 2))

abbrev submitted : List ℕ
submitted = 8 ∷ 9 ∷ []

session_executed : (run session (init (λ _. 0) submitted)).mem.executed ≡ 9 ∷ 8 ∷ []
unfolding run pick step next_submit init pool_init acquire release write advance_tail advance_head
session_executed = refl

run-in_line_example :
    let s = run session (init (λ _. 0) submitted) in
    (s.mem.ring.taken ++ contents s.mem.ring ++ unsubmitted (s.pc 0) ≡ submitted)
    × (len s.mem.ring ≤ 10)
run-in_line_example = run-in_line (λ _. 0) submitted session

at_rest :
    let s = run session (init (λ _. 0) submitted) in
    (i : ℕ) → i < pool_threads → step i s.mem (s.pc i) ≡ none
unfolding run pick step next_submit init pool_init acquire release write advance_tail advance_head
at_rest zero lower = refl
at_rest (suc zero) lower = refl
at_rest (suc (suc zero)) lower = refl
at_rest (suc (suc (suc zero))) lower = refl
at_rest (suc (suc (suc (suc i)))) lower = absurd (omega arith)

run-executed_example :
    count_if (λ t. t == 9) (run session (init (λ _. 0) submitted)).mem.executed
    ≡ count_if (λ t. t == 9) submitted
run-executed_example = run-executed (λ _. 0) submitted session at_rest (λ t. t == 9)

abbrev repeat : ℕ → Event ℕ → List (Event ℕ)
repeat zero e = []
repeat (suc n) e = e ∷ repeat n e

-- The client submits 8 and 9 and closes the pool while bee 2 executes 8.
abbrev shutting : List (Event ℕ)
shutting =
    repeat 14 (works 0)
    ++ repeat 5 (works 2)
    ++ (closes ∷ ends 1 ∷ closes ∷ closes ∷ ends 2 ∷ closes ∷ closes ∷ ends 3 ∷ closes ∷ [])

shutting_phase : (shut_down (λ _. 0) submitted shutting).phase ≡ destroying 2
unfolding shut_down Closing.run start Closing.step onward close close_at end work or_stay pick step
    next_submit init pool_init acquire release write advance_tail advance_head
shutting_phase = refl

shut_down-IsShut_example : IsShut submitted (shut_down (λ _. 0) submitted shutting)
shut_down-IsShut_example = shut_down-IsShut (λ _. 0) submitted shutting 2 shutting_phase

-- Neither task is executed: 8 is cut short, and 9 is still in the queue.
shutting_lost :
    let s = (shut_down (λ _. 0) submitted shutting).sys in
    (s.mem.executed ≡ []) × (contents s.mem.ring ≡ 9 ∷ [])
unfolding shut_down Closing.run start Closing.step onward close close_at end work or_stay pick step
    next_submit init pool_init acquire release write advance_tail advance_head window
shutting_lost = (refl, refl)

-- Bee 2 is in `dequeue`, with the mutex, when bee 1 is cancelled.
abbrev begun : List (Event ℕ)
begun = repeat 14 (works 0) ++ repeat 3 (works 2) ++ (closes ∷ [])

begun_finished : is_finished ((shut_down (λ _. 0) submitted begun).sys.pc 0) ≡ true
unfolding shut_down Closing.run start Closing.step onward close close_at end work or_stay pick step
    next_submit init pool_init acquire release write advance_tail advance_head
begun_finished = refl

shut_down_finishes_example :
    (more : List (Event ℕ)) × ((Closing.run bees more (shut_down (λ _. 0) submitted begun)).phase
      ≡ destroying 0)
shut_down_finishes_example = shut_down_finishes (λ _. 0) submitted begun begun_finished
