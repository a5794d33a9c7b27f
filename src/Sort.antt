-- ===== src/Sort.antt =====
-- Project-3-1/multithreaded_sort.c: the threads that sort the two halves of the array, and the merging
-- of the halves. The array is a function of the index, and what `merge_array` writes to `result`,
-- always at the next index, is a list. `qsort` is the C library's, an argument: it gets the comparison
-- and the entries, and gives the entries in their new order.
pub mod Sorted
pub mod Merge
pub mod Store
pub mod Qsort
pub mod Main
pub mod Session
mod Tests
use learning_ei.Base.{
  ℕ, zero, suc, ◌+◌, ◌-◌, ◌/◌, ◌^◌, Bool, true, false, ◌&&◌, Option, none, some, List, [], ◌∷◌, ltb,
  if◌then◌else◌,
}
use learning_ei.Base.Int.{ℤ, pos, negsuc, ltb_ℤ, ◌-ℤ◌}
use learning_ei.Base.Arrays.{update}

-- The last loop, with `k` rounds left.
unfoldable pub copy_from : ℕ → ℕ → (ℕ → ℤ) → List ℤ
copy_from zero low a = []
copy_from (suc k) low a = a low ∷ copy_from k (low + 1) a

-- What follows the first loop.
pub copy_rest : ℕ → ℕ → ℕ → ℕ → (ℕ → ℤ) → List ℤ
copy_rest low1 high1 low2 high2 a =
    if ltb low2 high2 then copy_from (high2 - low2) low2 a else copy_from (high1 - low1) low1 a

-- The first loop, with fuel, and what follows it: `none` without fuel.
pub merge_from : ℕ → ℕ → ℕ → ℕ → ℕ → (ℕ → ℤ) → Option (List ℤ)
merge_from zero low1 high1 low2 high2 a = none
merge_from (suc fuel) low1 high1 low2 high2 a = elim (ltb low1 high1 && ltb low2 high2) [
  | true ↦ elim (ltb_ℤ (a low1) (a low2)) [
    | true ↦ elim (merge_from fuel (low1 + 1) high1 low2 high2 a) [
      | none ↦ none
      | some result ↦ some (a low1 ∷ result)
    ]
    | false ↦ elim (merge_from fuel low1 high1 (low2 + 1) high2 a) [
      | none ↦ none
      | some result ↦ some (a low2 ∷ result)
    ]
  ]
  | false ↦ some (copy_rest low1 high1 low2 high2 a)
]

pub merge_array : ℕ → (ℕ → ℤ) → Option (List ℤ)
merge_array array_size a =
    merge_from (suc array_size) 0 (array_size / 2) (array_size / 2) array_size a

-- Whether an integer is one of type `int`.
abbrev pub fits_int : ℤ → Bool
fits_int (pos n) = ltb n (2 ^ 31)
fits_int (negsuc n) = ltb n (2 ^ 31)

-- `none` is an overflow.
abbrev pub cmp : ℤ → ℤ → Option ℤ
cmp a b = if fits_int (a -ℤ b) then some (a -ℤ b) else none

-- The entries of a list are written from index `low` on.
unfoldable pub store_from : ℕ → List ℤ → (ℕ → ℤ) → ℕ → ℤ
store_from low [] a = a
store_from low (x ∷ l) a = store_from (low + 1) l (update a low x)

module _ (qsort : (ℤ → ℤ → Option ℤ) → List ℤ → List ℤ) where
  unfoldable pub runner : ℕ → ℕ → (ℕ → ℤ) → ℕ → ℤ
  runner low high a = store_from low (qsort cmp (copy_from (high - low) low a)) a

  -- The threads work on different entries, so that all that matters of their interleaving is which of
  -- the two comes first.
  unfoldable pub sort_halves : Bool → ℕ → (ℕ → ℤ) → ℕ → ℤ
  sort_halves in_order array_size a =
      let middle = array_size / 2 in
      if in_order
      then runner middle array_size (runner 0 middle a)
      else runner 0 middle (runner middle array_size a)

  -- What follows `init_array`, without the printing of the original array and of the halves.
  unfoldable pub main : Bool → ℕ → (ℕ → ℤ) → Option (List ℤ)
  main in_order array_size a = merge_array array_size (sort_halves in_order array_size a)
