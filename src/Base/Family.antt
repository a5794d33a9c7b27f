-- ===== src/Base/Family.antt =====
-- Sums over the threads below a bound.
use learning_ei.Base.Arrays.{update}
use Prim.Native.Nat.{ℕ, zero, suc, ◌+◌, ◌≤◌, ◌<◌}
use mathlib.Core.Path.{◌≡◌, refl}
use mathlib.Core.Logic.{◌⊎◌, inl, inr}
use mathlib.Core.Bool.{Bool, true, false}
use native.Mathlib.Decide.{dec_lt, ℕ_discrete}
use native.Mathlib.Omega.{arith}
use learning_ei.Base.Tests.{Bool-cases}

module _ {ℓ} {A : Type ℓ} (weight : A → ℕ) where
  -- The weights of the first `n` members together.
  pub total : ℕ → (ℕ → A) → ℕ
  total zero f = 0
  total (suc n) f = weight (f n) + total n f

  total-update_above :
      (n : ℕ) (f : ℕ → A) (i : ℕ) (a : A) → n ≤ i → total n (update f i a) ≡ total n f
  unfolding total
  total-update_above zero f i a h = refl
  total-update_above (suc n) f i a h = ground (arith, total-update_above n f i a)

  pub total-update :
      (n : ℕ) (f : ℕ → A) (i : ℕ) (a : A)
      → i < n
      → total n (update f i a) + weight (f i) ≡ total n f + weight a
  unfolding total
  total-update zero f i a h = absurd (omega arith)
  total-update (suc n) f i a h = elim (dec_lt i n) [
    | yes lower ↦ ground (arith, total-update n f i a lower)
    | no top ↦ ground (arith, total-update_above n f i a)
  ]

  pub total-one : (n : ℕ) (f : ℕ → A) (i : ℕ) → i < n → weight (f i) ≤ total n f
  unfolding total
  total-one zero f i h = absurd (omega arith)
  total-one (suc n) f i h = elim (ℕ_discrete i n) [
    | yes e ↦ rw e (omega arith)
    | no ne ↦ omega (arith, total-one n f i (omega arith))
  ]

  pub total-zero : (n : ℕ) (f : ℕ → A) → ((i : ℕ) → i < n → weight (f i) ≡ 0) → total n f ≡ 0
  unfolding total
  total-zero zero f h = refl
  total-zero (suc n) f h =
      omega (arith, h n (omega arith), total-zero n f (λ i q. h i (omega arith)))

-- Either some member below `n` fails the test, or none does.
pub find_failing {ℓ} :
    {A : Type ℓ} (test : A → Bool) (n : ℕ) (f : ℕ → A)
    → ((i : ℕ) × (i < n) × (test (f i) ≡ false)) ⊎ ((i : ℕ) → i < n → test (f i) ≡ true)
find_failing test zero f = inr (λ i q. absurd (omega arith))
find_failing {A} test (suc n) f = elim (Bool-cases (test (f n))) [
  | inr fails ↦ inl (n, omega arith, fails)
  | inl passes ↦ elim (find_failing test n f) [
    | inl (i, lower, fails) ↦ inl (i, omega arith, fails)
    | inr all ↦
        inr (λ i q. elim (ℕ_discrete i n) [ yes e ↦ rw e passes | no ne ↦ all i (omega arith) ])
  ]
]
