-- ===== src/Sort/Qsort.antt =====
-- What Project-3-1 relies on of `qsort`, and that an insertion sort has it.
use learning_ei.Base.{◌≡◌, Option, some, List, length, ◌↔◌}
use learning_ei.Base.Int.{ℤ, pos, ◌≤ℤ◌}
use learning_ei.Sort.Sorted.{IsSorted, count}
use learning_ei.Sort.Store.{AllOf}

-- The comparison of two integers is defined, and has the sign that `qsort` asks for.
abbrev pub Agrees : (ℤ → ℤ → Option ℤ) → ℤ → ℤ → Type 0
Agrees compare x y =
    (d : ℤ) × (compare x y ≡ some d) × ((d ≤ℤ pos 0) ↔ (x ≤ℤ y)) × ((pos 0 ≤ℤ d) ↔ (y ≤ℤ x))

-- Where the comparison agrees with the order of the entries, they come out in this order.
pub record IsQsort (qsort : (ℤ → ℤ → Option ℤ) → List ℤ → List ℤ) : Type 0 where
  pub sorts :
      (compare : ℤ → ℤ → Option ℤ) (l : List ℤ)
      → AllOf (λ x. AllOf (λ y. Agrees compare x y) l) l
      → IsSorted (qsort compare l)
  pub counts :
      (compare : ℤ → ℤ → Option ℤ) (l : List ℤ)
      → AllOf (λ x. AllOf (λ y. Agrees compare x y) l) l
      → (v : ℤ) → count v (qsort compare l) ≡ count v l
  pub lengths :
      (compare : ℤ → ℤ → Option ℤ) (l : List ℤ)
      → AllOf (λ x. AllOf (λ y. Agrees compare x y) l) l
      → length (qsort compare l) ≡ length l
