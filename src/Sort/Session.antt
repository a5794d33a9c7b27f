-- ===== src/Sort/Session.antt =====
-- `main` of Project-3-1/multithreaded_sort.c from what is typed to what is printed.
pub mod Prints
use learning_ei.Base.{
  ℕ, zero, suc, ◌+◌, ◌-◌, ◌/◌, ◌%◌, ◌^◌, Bool, Option, none, some, List, [], ◌∷◌, ltb, leb,
  if◌then◌else◌, ◌>>=◌,
}
use learning_ei.Base.Int.{ℤ, pos, negsuc}
use learning_ei.Base.Arrays.{update}
use learning_ei.Sort.{copy_from, merge_array, sort_halves}

abbrev pub max_num : ℕ
max_num = 100

-- The loop of `init_array` with `k` rounds left: `none` where an entry outside the array is written.
-- At the end of the input `scanf` leaves the entry as it is.
unfoldable pub init_from : ℕ → ℕ → List ℤ → (ℕ → ℤ) → Option (ℕ → ℤ)
init_from zero i typed a = some a
init_from (suc k) i [] a = init_from k (i + 1) [] a
init_from (suc k) i (x ∷ typed) a =
    let rest = init_from k (i + 1) typed (update a i x) in if ltb i max_num then rest else none

-- A negative number of elements becomes a large one.
abbrev pub size_of : ℤ → ℕ
size_of (pos n) = n % 2 ^ 64
size_of (negsuc n) = 2 ^ 64 - 1 - n % 2 ^ 64

unfoldable pub init_array : ℕ → List ℤ → Option (ℕ → ℤ)
init_array array_size typed = init_from array_size 0 typed (λ i. pos 0)

-- `print_array` for entries of `array` from `low` on: `none` outside the array.
unfoldable pub print_array : ℕ → ℕ → (ℕ → ℤ) → Option (List ℤ)
print_array low size a = if leb (low + size) max_num then some (copy_from size low a) else none

-- What is printed.
pub record Printed : Type 0 where
  pub original : List ℤ
  pub first : List ℤ
  pub second : List ℤ
  pub merged : List ℤ

module _ (qsort : (ℤ → ℤ → Option ℤ) → List ℤ → List ℤ) (in_order : Bool) where
  -- What follows the printing of the original array.
  unfoldable pub finish : ℕ → (ℕ → ℤ) → List ℤ → Option Printed
  finish array_size a original = do
    first ← print_array 0 (array_size / 2) a
    second ← print_array (array_size / 2) (array_size - array_size / 2) a
    merged ← merge_array array_size a
    some (record { original = original; first = first; second = second; merged = merged })

  unfoldable pub main : ℤ → List ℤ → Option Printed
  main n typed = do
    let array_size = size_of n
    a ← init_array array_size typed
    original ← print_array 0 array_size a
    finish array_size (sort_halves qsort in_order array_size a) original
