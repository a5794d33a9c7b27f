-- ===== src/Banker/Session.antt =====
-- `init` and `main` of Project-6/banker.c: how the bank is set up, and the commands it serves.
use learning_ei.Base.{ℕ, zero, suc, ◌+◌, Option, none, some, List, [], ◌∷◌, ◌==◌, if◌then◌else◌}
use learning_ei.Base.Int.{ℤ, pos, negsuc}
use learning_ei.Base.Arrays.{update}
use learning_ei.Banker.{
  Bank, Row, number_of_customers, number_of_resources, is_zero, request_resources,
  release_resources,
}

-- The global arrays before `main`.
abbrev pub blank : Bank
blank = record {
  available = λ r. pos 0;
  maximum = λ c r. pos 0;
  allocation = λ c r. pos 0;
  need = λ c r. pos 0;
}

-- `available[i] = atoi(argv[i + 1])` for `k` indices from `i` on; `arguments i` is `atoi(argv[i])`.
unfoldable pub load_available : ℕ → ℕ → Row → Bank → Bank
load_available zero i arguments b = b
load_available (suc k) i arguments b =
    load_available k (i + 1) arguments
      (record b { available = update b.available i (arguments (i + 1)) })

-- The inner loop over the file: `amounts` are the numbers that `fscanf` reads for customer `c`.
unfoldable pub load_row : ℕ → ℕ → ℕ → Row → Bank → Bank
load_row zero r c amounts b = b
load_row (suc k) r c amounts b = load_row k (r + 1) c amounts (record b {
  maximum = update b.maximum c (update (b.maximum c) r (amounts r));
  need = update b.need c (update (b.need c) r (amounts r));
})

unfoldable pub load_rows : ℕ → ℕ → (ℕ → Row) → Bank → Bank
load_rows zero c file b = b
load_rows (suc k) c file b = load_rows k (c + 1) file (load_row number_of_resources 0 c (file c) b)

-- The part of `init` behind the arguments: `none` is a file that `fopen` cannot open.
unfoldable pub load_file : Option (ℕ → Row) → Bank → ℤ × Bank
load_file none b = (negsuc 1, b)
load_file (some file) b = (pos 0, load_rows number_of_customers 0 file b)

unfoldable pub init : ℕ → Row → Option (ℕ → Row) → Bank → ℤ × Bank
init argc arguments resources b =
    if argc == 1 + number_of_resources
    then load_file resources (load_available number_of_resources 0 arguments b)
    else (negsuc 0, b)

-- What `main` reads: an operation with its numbers.
pub data Command : Type 0 where
  rq rl : ℤ → Row → Command
  star other : Command

-- What it prints for it.
pub data Reply : Type 0 where
  success denied resources usage : Reply

abbrev pub reply_of : ℤ → Reply
reply_of code = if is_zero code then success else denied

-- The two wrappers, and the two displays.
unfoldable pub exec : Command → Bank → Option (Reply × Bank)
exec (rq customer request) b =
    let (code, b') = request_resources customer request b in some (reply_of code, b')
exec (rl customer release) b = elim (release_resources customer release b) [
  | none ↦ none
  | some (code, b') ↦ some (reply_of code, b')
]
exec star b = some (resources, b)
exec other b = some (usage, b)

-- The loop of `main` over the commands that arrive: the bank at the end.
unfoldable pub run : List Command → Bank → Option Bank
run [] b = some b
run (command ∷ rest) b = elim (exec command b) [ none ↦ none | some (reply, b') ↦ run rest b' ]
