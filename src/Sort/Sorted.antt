-- ===== src/Sort/Sorted.antt =====
-- Sorted lists, and how often a value stands in one.
use learning_ei.Base.{ℕ, zero, suc, ◌+◌, ◌≤◌, ◌<◌, ◌≡◌, arith, List, [], ◌∷◌, if◌then◌else◌}
use learning_ei.Base.Int.{ℤ, ltb_ℤ, ◌≤ℤ◌}
use learning_ei.Sort.{copy_from}

-- The entries from `low` up to `high` do not go down.
abbrev pub IsRising : (ℕ → ℤ) → ℕ → ℕ → Type 0
IsRising a low high = (i j : ℕ) → low ≤ i → i ≤ j → j < high → a i ≤ℤ a j

abbrev pub AllFrom : ℤ → List ℤ → Type 0
AllFrom b [] = Unit {0}
AllFrom b (x ∷ rest) = (b ≤ℤ x) × AllFrom b rest

abbrev pub IsSorted : List ℤ → Type 0
IsSorted [] = Unit {0}
IsSorted (x ∷ rest) = AllFrom x rest × IsSorted rest

-- Whether two integers are the same, as 1 or 0.
abbrev pub one_if_same : ℤ → ℤ → ℕ
one_if_same v x = if ltb_ℤ v x then 0 else if ltb_ℤ x v then 0 else 1

-- How often `v` stands in a list.
abbrev pub count : ℤ → List ℤ → ℕ
count v [] = 0
count v (x ∷ rest) = one_if_same v x + count v rest

pub copy_from-AllFrom :
    (a : ℕ → ℤ) (b : ℤ) (k low : ℕ)
    → ((i : ℕ) → low ≤ i → i < low + k → b ≤ℤ a i)
    → AllFrom b (copy_from k low a)
unfolding copy_from
copy_from-AllFrom a b zero low h = tt
copy_from-AllFrom a b (suc k) low h = (
  h low (omega arith) (omega arith),
  copy_from-AllFrom a b k (low + 1) (λ i p q. h i (omega arith) (omega arith)),
)

pub copy_from-IsSorted :
    (a : ℕ → ℤ) (k low : ℕ) → IsRising a low (low + k) → IsSorted (copy_from k low a)
unfolding copy_from
copy_from-IsSorted a zero low h = tt
copy_from-IsSorted a (suc k) low h = (
  copy_from-AllFrom a (a low) k (low + 1)
      (λ i p q. h low i (omega arith) (omega arith) (omega arith)),
  copy_from-IsSorted a k (low + 1) (λ i j p q s. h i j (omega arith) q (omega arith)),
)

pub count-copy_from :
    (v : ℤ) (k m low : ℕ) (a : ℕ → ℤ)
    → count v (copy_from (k + m) low a)
      ≡ count v (copy_from k low a) + count v (copy_from m (low + k) a)
unfolding copy_from
count-copy_from v zero m low a =
    let e : 0 + m ≡ m = omega arith in
    let e' : low + 0 ≡ low = omega arith in rw (e, e') (omega arith)
count-copy_from v (suc k) m low a =
    let e : suc k + m ≡ suc (k + m) = omega arith in
    let e' : low + suc k ≡ low + 1 + k = omega arith in
    rw (e, e') (omega (arith, count-copy_from v k m (low + 1) a))
