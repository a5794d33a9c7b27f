-- ===== src/Banker.antt =====
-- Project-6/banker.c: the banker's algorithm for five customers and four resources.
-- An `int` is an integer ℤ, and an array is a function of its index.
pub mod Granted
pub mod Request
pub mod Loops
pub mod Completes
pub mod Safety
pub mod Release
pub mod Invariant
pub mod Session
pub mod Init
pub mod Steady
pub mod History
mod Tests
use learning_ei.Base.{
  ℕ, zero, suc, ◌+◌, Bool, true, false, not, ◌&&◌, Option, none, some, ◌==◌, if◌then◌else◌,
}
use learning_ei.Base.Int.{ℤ, pos, negsuc, pos_part, ◌+ℤ◌, ◌-ℤ◌, ltb_ℤ}
use learning_ei.Base.Arrays.{update}

abbrev pub number_of_customers : ℕ
number_of_customers = 5

abbrev pub number_of_resources : ℕ
number_of_resources = 4

abbrev pub Row : Type 0
Row = ℕ → ℤ

-- The four global arrays.
pub record Bank : Type 0 where
  pub available : Row
  pub maximum : ℕ → Row
  pub allocation : ℕ → Row
  pub need : ℕ → Row

-- The loop of `is_leq` from index `i`, with `k` rounds left.
pub leq_from : ℕ → ℕ → Row → Row → Bool
leq_from zero i a b = true
leq_from (suc k) i a b = if ltb_ℤ (b i) (a i) then false else leq_from k (i + 1) a b

pub is_leq : Row → Row → ℕ → Bool
is_leq a b n = leq_from n 0 a b

-- The local arrays of `is_safe`.
pub record Progress : Type 0 where
  pub work : Row
  pub finish : ℕ → Bool

-- `work[j] += row[j]` for `k` indices from `j` on.
pub add_from : ℕ → ℕ → Row → Row → Row
add_from zero j row work = work
add_from (suc k) j row work = add_from k (j + 1) row (update work j (work j +ℤ row j))

-- The body of the inner loop of `is_safe` for the customer that it finds.
pub finish_customer : Bank → ℕ → Progress → Progress
finish_customer b i p = record {
  work = add_from number_of_resources 0 (b.allocation i) p.work;
  finish = update p.finish i true;
}

abbrev pub can_finish : Bank → ℕ → Progress → Bool
can_finish b i p = not (p.finish i) && is_leq (b.need i) p.work number_of_resources

-- The inner loop of `is_safe` from customer `i`, with `k` customers left: the flag, and the arrays.
pub pick_from : ℕ → ℕ → Bank → Progress → Bool × Progress
pick_from zero i b p = (false, p)
pick_from (suc k) i b p =
    if can_finish b i p then (true, finish_customer b i p) else pick_from k (i + 1) b p

-- The outer loop of `is_safe`, with `k` rounds left.
pub safe_rounds : ℕ → Bank → Progress → Bool
safe_rounds zero b p = true
safe_rounds (suc k) b p =
    let (flag, p') = pick_from number_of_customers 0 b p in
    let rest = safe_rounds k b p' in if flag then rest else false

pub is_safe : Bank → Bool
is_safe b = safe_rounds number_of_customers b (record { work = b.available; finish = λ _. false })

-- `customer < 0 || customer >= NUMBER_OF_CUSTOMERS` fails.
abbrev pub valid_customer : ℤ → Bool
valid_customer c = not (ltb_ℤ c (pos 0)) && ltb_ℤ c (pos number_of_customers)

-- The three updates that allocate `request[i]` to customer `c`.
pub grant : ℕ → Row → ℕ → Bank → Bank
grant c request i b = record b {
  available = update b.available i (b.available i -ℤ request i);
  allocation = update b.allocation c (update (b.allocation c) i (b.allocation c i +ℤ request i));
  need = update b.need c (update (b.need c) i (b.need c i -ℤ request i));
}

-- The three updates that take `request[i]` back.
pub refund : ℕ → Row → ℕ → Bank → Bank
refund c request i b = record b {
  available = update b.available i (b.available i +ℤ request i);
  allocation = update b.allocation c (update (b.allocation c) i (b.allocation c i -ℤ request i));
  need = update b.need c (update (b.need c) i (b.need c i +ℤ request i));
}

-- `while(i--)` of the early exit: from `i - 1` down to 0.
pub rollback_down : ℕ → ℕ → Row → Bank → Bank
rollback_down zero c request b = b
rollback_down (suc i) c request b = rollback_down i c request (refund c request i b)

-- The `for` loop that takes an unsafe request back, from `i` on.
pub rollback_up : ℕ → ℕ → ℕ → Row → Bank → Bank
rollback_up zero i c request b = b
rollback_up (suc k) i c request b = rollback_up k (i + 1) c request (refund c request i b)

-- `err` after the two tests at index `i`; the second overrides the first.
pub request_error : ℕ → Row → ℕ → Bank → ℤ
request_error c request i b =
    if ltb_ℤ (b.available i) (request i)
    then negsuc 1
    else if ltb_ℤ (request i) (pos 0)
    then negsuc 0
    else if ltb_ℤ (b.need c i) (request i)
    then negsuc 0
    else pos 0

abbrev pub is_zero : ℤ → Bool
is_zero (pos n) = n == 0
is_zero (negsuc n) = false

-- The allocating loop from index `i`, with `k` rounds left.
pub request_from : ℕ → ℕ → ℕ → Row → Bank → ℤ × Bank
request_from zero i c request b = (pos 0, b)
request_from (suc k) i c request b =
    let err = request_error c request i b in
    let rest = request_from k (i + 1) c request (grant c request i b) in
    if is_zero err then rest else (err, rollback_down i c request b)

-- The safety test behind the loop.
pub settle_request : ℕ → Row → ℤ × Bank → ℤ × Bank
settle_request c request (err, b) =
    if is_zero err
    then if is_safe b then (pos 0, b) else (negsuc 2, rollback_up number_of_resources 0 c request b)
    else (err, b)

pub request_resources : ℤ → Row → Bank → ℤ × Bank
request_resources customer request b =
    if valid_customer customer
    then settle_request (pos_part customer) request
        (request_from number_of_resources 0 (pos_part customer) request b)
    else (negsuc 0, b)

-- The two updates that release `release[i]`.
pub give_back : ℕ → Row → ℕ → Bank → Bank
give_back c release i b = record b {
  available = update b.available i (b.available i +ℤ release i);
  allocation = update b.allocation c (update (b.allocation c) i (b.allocation c i -ℤ release i));
}

-- One round of the rollback of `release_resources`, at the decremented `i`. It indexes with `i - 1`:
-- at 0 it reads `release[-1]`, which no array holds, and the behaviour is undefined (`none`).
pub take_again : ℕ → Row → ℕ → Bank → Option Bank
take_again c release zero b = none
take_again c release (suc i) b = some (record b {
  available = update b.available (suc i) (b.available (suc i) -ℤ release (suc i));
  allocation = update b.allocation c (update (b.allocation c) i (b.allocation c i +ℤ release i));
})

pub rollback_release : ℕ → ℕ → Row → Bank → Option Bank
rollback_release zero c release b = some b
rollback_release (suc i) c release b = elim (take_again c release i b) [
  | none ↦ none
  | some b' ↦ rollback_release i c release b'
]

abbrev pub can_release : ℕ → Row → ℕ → Bank → Bool
can_release c release i b =
    not (ltb_ℤ (release i) (pos 0)) && not (ltb_ℤ (b.allocation c i) (release i))

-- The releasing loop from index `i`, with `k` rounds left.
pub release_from : ℕ → ℕ → ℕ → Row → Bank → Option (ℤ × Bank)
release_from zero i c release b = some (pos 0, b)
release_from (suc k) i c release b =
    let rest = release_from k (i + 1) c release (give_back c release i b) in
    if can_release c release i b
    then rest
    else elim (rollback_release i c release b) [ none ↦ none | some b' ↦ some (negsuc 0, b') ]

-- `none` stands for an access outside an array.
pub release_resources : ℤ → Row → Bank → Option (ℤ × Bank)
release_resources customer release b =
    if valid_customer customer
    then release_from number_of_resources 0 (pos_part customer) release b
    else some (negsuc 0, b)
