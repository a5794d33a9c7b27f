-- ===== src/Base/Arrays.antt =====
-- C arrays of integers as functions of the index, and sums over the first entries of one.
use learning_ei.Base.Tests.{◌==◌, if◌then◌else◌}
use learning_ei.Base.Int.{ℤ, pos, ◌+ℤ◌, ◌-ℤ◌, ◌≤ℤ◌, int_laws}
use Prim.Native.Nat.{ℕ, zero, suc, ◌<◌}
use mathlib.Core.Path.{◌≡◌, refl}
use mathlib.Core.Logic.{◌≢◌}
use native.Mathlib.Decide.{ℕ_discrete}
use native.Mathlib.Omega.{arith}

-- `a[i] = v`.
abbrev pub update {ℓ} : {A : Type ℓ} → (ℕ → A) → ℕ → A → ℕ → A
update f i v j = if j == i then v else f j

pub update_self {ℓ} : {A : Type ℓ} (f : ℕ → A) (i : ℕ) (x : A) → update f i x i ≡ x
update_self f i x = ground arith

pub update_other {ℓ} :
    {A : Type ℓ} (f : ℕ → A) (i : ℕ) (x : A) (j : ℕ) → j ≢ i → update f i x j ≡ f j
update_other f i x j other = ground arith

-- `f 0 + ... + f (n - 1)`.
unfoldable pub sum_below : ℕ → (ℕ → ℤ) → ℤ
sum_below zero f = pos 0
sum_below (suc n) f = sum_below n f +ℤ f n

pub sum_below-congr :
    (n : ℕ) (f g : ℕ → ℤ) → ((i : ℕ) → i < n → f i ≡ g i) → sum_below n f ≡ sum_below n g
unfolding sum_below
sum_below-congr zero f g h = refl
sum_below-congr (suc n) f g h =
    cc (sum_below-congr n f g (λ i p. h i (omega arith)), h n (omega arith))

pub sum_below-mono :
    (n : ℕ) (f g : ℕ → ℤ) → ((i : ℕ) → i < n → f i ≤ℤ g i) → sum_below n f ≤ℤ sum_below n g
unfolding sum_below
sum_below-mono zero f g h = omega arith
sum_below-mono (suc n) f g h =
    omega (int_laws, sum_below-mono n f g (λ i p. h i (omega arith)), h n (omega arith))

regroup : (s a d : ℤ) → s +ℤ a +ℤ d ≡ s +ℤ d +ℤ a
regroup s a d = omega int_laws

replace_last : (s a b : ℤ) → s +ℤ b ≡ s +ℤ a +ℤ (b -ℤ a)
replace_last s a b = omega int_laws

-- Where one entry changes, the sum changes by as much.
pub sum_below-change :
    (n i : ℕ) (f g : ℕ → ℤ)
    → i < n
    → ((j : ℕ) → j ≢ i → g j ≡ f j)
    → sum_below n g ≡ sum_below n f +ℤ (g i -ℤ f i)
unfolding sum_below
sum_below-change zero i f g p h = elim p [ ]
sum_below-change (suc n) i f g p h = elim (ℕ_discrete n i) [
  | yes e ↦
      rw (sum_below-congr n g f (λ j q. h j (omega arith)), e)
        (replace_last (sum_below i f) (f i) (g i))
  | no ne ↦
      rw (sum_below-change n i f g (omega arith) h, h n ne)
        (regroup (sum_below n f) (g i -ℤ f i) (f n))
]
