-- ===== src/Banker/Tests.antt =====
-- The banker's algorithm at a small bank: tests, and the theorems at concrete inputs.
use learning_ei.Base.{
  ℕ, zero, suc, ◌+◌, ◌≤◌, ◌<◌, ◌≡◌, ◌≢◌, ◌↔◌, refl, true, [], ◌∷◌, none, some, arith,
}
use learning_ei.Base.Int.{ℤ, pos, negsuc, ◌+ℤ◌, ◌-ℤ◌, ◌≤ℤ◌}
use mathlib.Core.Option
use learning_ei.Banker.{
  number_of_customers, number_of_resources, Bank, Row, is_safe, safe_rounds, pick_from, add_from,
  finish_customer, is_leq, leq_from, valid_customer, request_resources, request_from, request_error,
  settle_request, grant, refund, rollback_up, rollback_down, release_resources, release_from,
  give_back, take_again, rollback_release,
}
use learning_ei.Banker.Session.{
  init, blank, load_file, load_available, load_rows, load_row, rq, star, run, exec,
}
use learning_ei.Banker.Granted.{granted}
use learning_ei.Banker.Request.{request_resources-granted, request_resources-refused}
use learning_ei.Banker.Release.{
  released, Returnable, AllReturnable, release_resources-released, release_resources-undefined_iff,
}
use learning_ei.Banker.Completes.{Completes}
use learning_ei.Banker.Safety.{nobody, is_safe_iff_Completes}
use learning_ei.Banker.Invariant.{
  IsBalanced, IsMet, request_resources-IsMet, release_resources-shortfall,
}
use learning_ei.Banker.Init.{init-IsBalanced}
use learning_ei.Banker.History.{IsSound, run-IsSound}

abbrev row : ℕ → ℕ → ℕ → ℕ → Row
row a b c d zero = pos a
row a b c d (suc zero) = pos b
row a b c d (suc (suc zero)) = pos c
row a b c d (suc (suc (suc zero))) = pos d
row a b c d (suc (suc (suc (suc n)))) = pos 0

row-nonneg : (a b c d r : ℕ) → pos 0 ≤ℤ row a b c d r
row-nonneg a b c d zero = omega arith
row-nonneg a b c d (suc zero) = omega arith
row-nonneg a b c d (suc (suc zero)) = omega arith
row-nonneg a b c d (suc (suc (suc zero))) = omega arith
row-nonneg a b c d (suc (suc (suc (suc n)))) = omega arith

-- `./banker 7 8 7 9`
abbrev arguments : Row
arguments zero = pos 0
arguments (suc r) = row 7 8 7 9 r

-- resources.txt
abbrev file : ℕ → Row
file zero = row 6 4 7 3
file (suc zero) = row 4 2 3 2
file (suc (suc zero)) = row 2 5 3 3
file (suc (suc (suc zero))) = row 6 3 3 2
file (suc (suc (suc (suc c)))) = row 5 6 7 5

arguments-nonneg : (r : ℕ) → pos 0 ≤ℤ arguments r
arguments-nonneg zero = omega arith
arguments-nonneg (suc r) = row-nonneg 7 8 7 9 r

file-nonneg : (c r : ℕ) → pos 0 ≤ℤ file c r
file-nonneg zero r = row-nonneg 6 4 7 3 r
file-nonneg (suc zero) r = row-nonneg 4 2 3 2 r
file-nonneg (suc (suc zero)) r = row-nonneg 2 5 3 3 r
file-nonneg (suc (suc (suc zero))) r = row-nonneg 6 3 3 2 r
file-nonneg (suc (suc (suc (suc c)))) r = row-nonneg 5 6 7 5 r

abbrev start : Bank
start = (init 5 arguments (some file) blank).1

-- What an evaluation of the program unfolds.
program : Unit {0}
unfolding is_safe safe_rounds pick_from add_from finish_customer is_leq leq_from request_resources
    request_from request_error settle_request grant refund rollback_up rollback_down
    release_resources release_from give_back take_again rollback_release init load_file
    load_available load_rows load_row run exec ◌+ℤ◌ ◌-ℤ◌
program = tt

start-safe : is_safe start ≡ true
unfolding program
start-safe = refl

-- Customer 1 takes (1, 0, 1, 0), which makes customer 0 wait.
abbrev modest : Row
modest = row 1 0 1 0

abbrev taken : Bank
taken = (request_resources (pos 1) modest start).1

request_runs :
    ((request_resources (pos 1) modest start).0 ≡ pos 0)
    × ((request_resources (pos 1) (row 5 0 0 0) start).0 ≡ negsuc 0)
    × ((request_resources (pos 9) modest start).0 ≡ negsuc 0)
    × ((request_resources (pos 4) (row 5 6 0 0) taken).0 ≡ negsuc 2)
    × ((request_resources (pos 0) (row 0 0 7 0) taken).0 ≡ negsuc 1)
unfolding program
request_runs = (refl, refl, refl, refl, refl)

-- Customer 1 gives back a resource that it holds; then more of the second than it holds, which
-- takes the rollback outside its arrays; then more of the first.
release_runs :
    (Option.map (λ (r : ℤ × Bank). r.0) (release_resources (pos 1) (row 1 0 0 0) taken)
      ≡ some (pos 0))
    × (Option.map (λ (r : ℤ × Bank). r.0) (release_resources (pos 1) (row 1 1 0 0) taken) ≡ none)
    × (Option.map (λ (r : ℤ × Bank). r.0) (release_resources (pos 1) (row 2 0 0 0) taken)
        ≡ some (negsuc 0))
unfolding program
release_runs = (refl, refl, refl)

start-books :
    ((init 5 arguments (some file) blank).0 ≡ pos 0)
    × IsBalanced (λ r. arguments (r + 1)) start
    × IsMet start
    × ((r : ℕ) → r < number_of_resources → start.available r ≡ arguments (r + 1))
    × ((c r : ℕ)
        → c < number_of_customers
        → r < number_of_resources
        → (start.maximum c r ≡ file c r) × (start.need c r ≡ file c r))
start-books = init-IsBalanced arguments file arguments-nonneg file-nonneg

init-IsBalanced_example :
    ((init 5 arguments (some file) blank).0 ≡ pos 0)
    × IsBalanced (λ r. arguments (r + 1)) start
    × IsMet start
    × ((r : ℕ) → r < number_of_resources → start.available r ≡ arguments (r + 1))
    × ((c r : ℕ)
        → c < number_of_customers
        → r < number_of_resources
        → (start.maximum c r ≡ file c r) × (start.need c r ≡ file c r))
init-IsBalanced_example = init-IsBalanced arguments file arguments-nonneg file-nonneg

is_safe_iff_Completes_example : (is_safe start ≡ true) ↔ Completes start nobody
is_safe_iff_Completes_example = is_safe_iff_Completes start start-books.1.held

modest-fits :
    (j : ℕ)
    → 0 ≤ j
    → j < 4
    → (pos 0 ≤ℤ modest j) × (modest j ≤ℤ start.need 1 j) × (modest j ≤ℤ start.available j)
unfolding program
modest-fits zero p q = omega arith
modest-fits (suc zero) p q = omega arith
modest-fits (suc (suc zero)) p q = omega arith
modest-fits (suc (suc (suc zero))) p q = omega arith
modest-fits (suc (suc (suc (suc n)))) p q = absurd (omega arith)

modest-safe : is_safe (granted 1 modest 0 4 start) ≡ true
unfolding program granted
modest-safe = refl

request_resources-granted_example :
    request_resources (pos 1) modest start ≡ (pos 0, granted 1 modest 0 4 start)
request_resources-granted_example =
    request_resources-granted (pos 1) modest start
      (record { valid = refl; fits = modest-fits; safe = modest-safe })

request_resources-refused_example :
    ((request_resources (pos 9) modest start).0 ≢ pos 0)
    × ((request_resources (pos 9) modest start).1 ≡ start)
request_resources-refused_example =
    request_resources-refused (pos 9) modest start (λ g. cc (g.valid))

taken-returnable : AllReturnable 1 modest taken 4
unfolding program
taken-returnable zero q = omega arith
taken-returnable (suc zero) q = omega arith
taken-returnable (suc (suc zero)) q = omega arith
taken-returnable (suc (suc (suc zero))) q = omega arith
taken-returnable (suc (suc (suc (suc n)))) q = absurd (omega arith)

release_resources-released_example :
    release_resources (pos 1) modest taken ≡ some (pos 0, released 1 modest 4 taken)
release_resources-released_example =
    release_resources-released (pos 1) modest taken refl taken-returnable

release_resources-undefined_iff_example : (release_resources (pos 1) (row 1 1 0 0) taken ≡ none) ↔ (
    (valid_customer (pos 1) ≡ true)
    × Returnable 1 (row 1 1 0 0) taken 0
    × ¬ AllReturnable 1 (row 1 1 0 0) taken 4)
release_resources-undefined_iff_example =
    release_resources-undefined_iff (pos 1) (row 1 1 0 0) taken

release_resources-shortfall_example :
    (released 1 modest 4 taken).allocation 1 0 +ℤ (released 1 modest 4 taken).need 1 0 +ℤ pos 1
    ≡ (released 1 modest 4 taken).maximum 1 0
release_resources-shortfall_example =
    release_resources-shortfall taken (released 1 modest 4 taken) (pos 1) modest
      (request_resources-IsMet start (pos 1) modest start-books.2)
      (release_resources-released (pos 1) modest taken refl taken-returnable) 0 (omega arith)

run_ends : run (star ∷ rq (pos 1) modest ∷ []) start ≡ some taken
unfolding program
run_ends = refl

run-IsSound_example : IsSound (λ r. arguments (r + 1)) taken
run-IsSound_example =
    run-IsSound (star ∷ rq (pos 1) modest ∷ [])
      (record { balanced = start-books.1; safe = start-safe }) run_ends
