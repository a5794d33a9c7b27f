-- ===== src/Buffer/Tests.antt =====
-- Project-5-2 with one producer and one consumer.
use learning_ei.Base.{ℕ, zero, suc, ◌≤◌, ◌≡◌, refl, arith, List, [], ◌∷◌, ◌++◌}
use learning_ei.Base.Int.{ℤ, pos}
use learning_ei.Ring.{len, acquire, release, write, advance_tail, advance_head}
use learning_ei.Ring.Laws.{contents}
use learning_ei.Ring.Window.{window}
use learning_ei.Buffer.{buffer_size, step, pick, run, init, init_buffer}
use learning_ei.Closing.{
  Event, works, ends, closes, destroying, onward, start, close_at, close, end, work, or_stay,
}
use learning_ei.Closing as Closing
use learning_ei.Buffer.Shutdown.{workers, main}
use learning_ei.Buffer.Shutdown.Left.{IsShut, main-IsShut}
use learning_ei.Buffer.Shutdown.Finish.{main_finishes}
use learning_ei.Buffer.Safety.{run-in_order}
use learning_ei.Buffer.Progress.{CanMove, run-CanMove}

-- `n` picks of thread `i`.
abbrev turns : ℕ → ℕ → ℤ → List (ℕ × ℤ)
turns zero i x = []
turns (suc n) i x = (i, x) ∷ turns n i x

-- Two items are inserted, and one is removed.
abbrev session : List (ℕ × ℤ)
session = turns 7 0 (pos 5) ++ (turns 7 0 (pos 6) ++ turns 6 1 (pos 0))

session_removed : (run 2 session (init 1)).mem.ring.taken ≡ pos 5 ∷ []
unfolding run pick step init init_buffer acquire release write advance_tail advance_head
session_removed = refl

session_left : contents (run 2 session (init 1)).mem.ring ≡ pos 6 ∷ []
unfolding run pick step init init_buffer acquire release write advance_tail advance_head window
session_left = refl

run-in_order_example :
    let ring = (run 2 session (init 1)).mem.ring in
    (ring.taken ++ contents ring ≡ ring.added) × (len ring ≤ buffer_size)
run-in_order_example = run-in_order 2 1 session

run-CanMove_example : CanMove 2 (run 2 session (init 1))
run-CanMove_example = run-CanMove 2 1 session (omega arith) (omega arith)

abbrev repeat : ℕ → Event (ℕ × ℤ) → List (Event (ℕ × ℤ))
repeat zero e = []
repeat (suc n) e = e ∷ repeat n e

-- The producer inserts 5 and is cancelled; the consumer is cancelled inside `remove_item`, and
-- goes on to its next `sleep`.
abbrev ending : List (Event (ℕ × ℤ))
ending =
    repeat 7 (works (0, pos 5))
    ++ (closes ∷ ends 0 ∷ closes ∷ repeat 3 (works (1, pos 0)))
    ++ (closes ∷ ends 1 ∷ repeat 3 (works (1, pos 0)))
    ++ (ends 1 ∷ closes ∷ [])

ending_phase : (main 2 1 ending).phase ≡ destroying 3
unfolding main Closing.run start Closing.step onward close close_at end work or_stay pick step init
    init_buffer acquire release write advance_tail advance_head
ending_phase = refl

main-IsShut_example : IsShut 2 (main 2 1 ending)
main-IsShut_example = main-IsShut 2 1 ending 3 ending_phase

main_finishes_example :
    (more : List (Event (ℕ × ℤ))) × ((Closing.run
        (workers 2)
        more
        (main 2 1 (repeat 4 (works (0, pos 5))))).phase
      ≡ destroying 0)
main_finishes_example = main_finishes 2 1 (repeat 4 (works (0, pos 5)))
