-- ===== src/Banker/Init.antt =====
-- `init` of Project-6/banker.c: the loops that fill the arrays, and the books that they leave.
use learning_ei.Base.{
  ℕ, zero, suc, ◌+◌, ◌<◌, ◌≡◌, refl, ap, ◌∙◌, some, arith, ◌&&◌, ◌==◌, if◌then◌else◌,
}
use learning_ei.Base.Int.{ℤ, pos, ◌+ℤ◌, ◌≤ℤ◌, int_laws}
use learning_ei.Base.Arrays.{update, sum_below}
use learning_ei.Banker.{Bank, Row, number_of_customers, number_of_resources}
use learning_ei.Banker.Granted.{inside}
use learning_ei.Banker.Session.{init, blank, load_file, load_available, load_rows, load_row}
use learning_ei.Banker.Invariant.{IsBalanced, IsMet}

load_available-available :
    (k i : ℕ) (arguments : Row) (b : Bank) (j : ℕ)
    → (load_available k i arguments b).available j
      ≡ (if inside i (i + k) j then arguments (j + 1) else b.available j)
unfolding load_available
load_available-available zero i arguments b j = ground arith
load_available-available (suc k) i arguments b j = ground (
  arith,
  load_available-available k (i + 1) arguments
      (record b { available = update b.available i (arguments (i + 1)) }) j,
)

-- The row loop writes the same numbers to `maximum` and `need`.
load_row-maximum :
    (k r c : ℕ) (amounts : Row) (b : Bank) (d j : ℕ)
    → (load_row k r c amounts b).maximum d j
      ≡ (if d == c && inside r (r + k) j then amounts j else b.maximum d j)
unfolding load_row
load_row-maximum zero r c amounts b d j = ground arith
load_row-maximum (suc k) r c amounts b d j = ground (
  arith,
  load_row-maximum k (r + 1) c amounts
      (record b {
        maximum = update b.maximum c (update (b.maximum c) r (amounts r));
        need = update b.need c (update (b.need c) r (amounts r));
      })
      d j,
)

load_row-need :
    (k r c : ℕ) (amounts : Row) (b : Bank) (d j : ℕ)
    → (load_row k r c amounts b).need d j
      ≡ (if d == c && inside r (r + k) j then amounts j else b.need d j)
unfolding load_row
load_row-need zero r c amounts b d j = ground arith
load_row-need (suc k) r c amounts b d j = ground (
  arith,
  load_row-need k (r + 1) c amounts
      (record b {
        maximum = update b.maximum c (update (b.maximum c) r (amounts r));
        need = update b.need c (update (b.need c) r (amounts r));
      })
      d j,
)

load_row-allocation :
    (k r c : ℕ) (amounts : Row) (b : Bank)
    → ((load_row k r c amounts b).allocation ≡ b.allocation)
      × ((load_row k r c amounts b).available ≡ b.available)
unfolding load_row
load_row-allocation zero r c amounts b = (refl, refl)
load_row-allocation (suc k) r c amounts b = load_row-allocation k (r + 1) c amounts _

load_rows-maximum :
    (k c : ℕ) (file : ℕ → Row) (b : Bank) (d j : ℕ)
    → j < number_of_resources
    → (load_rows k c file b).maximum d j ≡ (if inside c (c + k) d then file d j else b.maximum d j)
unfolding load_rows
load_rows-maximum zero c file b d j lt = ground arith
load_rows-maximum (suc k) c file b d j lt = ground (
  arith,
  load_rows-maximum k (c + 1) file (load_row 4 0 c (file c) b) d j lt,
  load_row-maximum 4 0 c (file c) b d j,
)

load_rows-need :
    (k c : ℕ) (file : ℕ → Row) (b : Bank) (d j : ℕ)
    → j < number_of_resources
    → (load_rows k c file b).need d j ≡ (if inside c (c + k) d then file d j else b.need d j)
unfolding load_rows
load_rows-need zero c file b d j lt = ground arith
load_rows-need (suc k) c file b d j lt = ground (
  arith,
  load_rows-need k (c + 1) file (load_row 4 0 c (file c) b) d j lt,
  load_row-need 4 0 c (file c) b d j,
)

load_rows-allocation :
    (k c : ℕ) (file : ℕ → Row) (b : Bank)
    → ((load_rows k c file b).allocation ≡ b.allocation)
      × ((load_rows k c file b).available ≡ b.available)
unfolding load_rows
load_rows-allocation zero c file b = (refl, refl)
load_rows-allocation (suc k) c file b =
    let row = load_row-allocation 4 0 c (file c) b in
    let rest = load_rows-allocation k (c + 1) file (load_row 4 0 c (file c) b) in
    (rest.0 ∙ row.0, rest.1 ∙ row.1)

load_available-rest :
    (k i : ℕ) (arguments : Row) (b : Bank)
    → ((load_available k i arguments b).allocation ≡ b.allocation)
unfolding load_available
load_available-rest zero i arguments b = refl
load_available-rest (suc k) i arguments b = load_available-rest k (i + 1) arguments _

sum_blank : sum_below number_of_customers (λ c. pos 0) ≡ pos 0
unfolding sum_below ◌+ℤ◌
sum_blank = refl

module _ (arguments : Row) (file : ℕ → Row) where
  abbrev loaded : Bank
  loaded = (init 5 arguments (some file) blank).1

  loaded-allocation : loaded.allocation ≡ blank.allocation
  unfolding init load_file
  loaded-allocation =
      (load_rows-allocation 5 0 file (load_available 4 0 arguments blank)).0
      ∙ load_available-rest 4 0 arguments blank

  loaded-available : (r : ℕ) → r < number_of_resources → loaded.available r ≡ arguments (r + 1)
  unfolding init load_file
  loaded-available r q =
      let b = load_available 4 0 arguments blank in
      ap (λ (row : Row). row r) (load_rows-allocation 5 0 file b).1
      ∙ ground (arith, load_available-available 4 0 arguments blank r)

  loaded-need :
      (c r : ℕ) → c < number_of_customers → r < number_of_resources → loaded.need c r ≡ file c r
  unfolding init load_file
  loaded-need c r p q =
      let b = load_available 4 0 arguments blank in ground (arith, load_rows-need 5 0 file b c r q)

  loaded-maximum :
      (c r : ℕ) → c < number_of_customers → r < number_of_resources → loaded.maximum c r ≡ file c r
  unfolding init load_file
  loaded-maximum c r p q =
      let b = load_available 4 0 arguments blank in
      ground (arith, load_rows-maximum 5 0 file b c r q)

  init-code : (init 5 arguments (some file) blank).0 ≡ pos 0
  unfolding init load_file
  init-code = refl

add_zero : (a : ℤ) → a +ℤ pos 0 ≡ a
add_zero a = omega int_laws

zero_add : (a : ℤ) → pos 0 +ℤ a ≡ a
zero_add a = omega int_laws

-- From non-negative arguments and a non-negative file, `init` returns 0 with balanced books, whose
-- total is the arguments behind the first one: these are what is available, the maxima are the numbers
-- of the file, and so are the needs.
pub init-IsBalanced :
    (arguments : Row) (file : ℕ → Row)
    → ((r : ℕ) → pos 0 ≤ℤ arguments r)
    → ((c r : ℕ) → pos 0 ≤ℤ file c r)
    → let (code, b) = init 5 arguments (some file) blank in
      (code ≡ pos 0)
      × IsBalanced (λ r. arguments (r + 1)) b
      × IsMet b
      × ((r : ℕ) → r < number_of_resources → b.available r ≡ arguments (r + 1))
      × ((c r : ℕ)
          → c < number_of_customers
          → r < number_of_resources
          → (b.maximum c r ≡ file c r) × (b.need c r ≡ file c r))
init-IsBalanced arguments file ha hf = (
  init-code arguments file,
  record {
    conserved = λ r q.
        rw (loaded-allocation arguments file, sum_blank, add_zero)
          (loaded-available arguments file r q);
    at_bank = λ r q. rw (loaded-available arguments file r q) (ha (r + 1));
    held = λ c r p q. rw (loaded-allocation arguments file) (omega arith);
    needed = λ c r p q. rw (loaded-need arguments file c r p q) (hf c r);
  },
  λ c r p q.
      rw
        (
          loaded-allocation arguments file,
          zero_add,
          loaded-need arguments file c r p q,
          loaded-maximum arguments file c r p q,
        )
        refl,
  loaded-available arguments file,
  λ c r p q. (loaded-maximum arguments file c r p q, loaded-need arguments file c r p q),
)
