-- ===== src/Banker/Completes.antt =====
-- Safe states of the bank of Project-6/banker.c, by definition: an order in which all customers can
-- finish.
use learning_ei.Base.{ℕ, ◌<◌, ◌≡◌, inl, inr, Bool, true, false, arith, if◌then◌else◌, Bool-cases}
use learning_ei.Base.Int.{ℤ, pos, ◌+ℤ◌, ◌-ℤ◌, ◌≤ℤ◌, int_laws}
use learning_ei.Base.Arrays.{update, sum_below, sum_below-mono, sum_below-change}
use learning_ei.Banker.{Bank, Row, number_of_customers, number_of_resources}

-- What a customer that has finished has given back.
abbrev pub returned : Bank → (ℕ → Bool) → ℕ → ℕ → ℤ
returned b finish r c = if finish c then b.allocation c r else pos 0

-- The resources at hand once the customers of `finish` have given theirs back.
unfoldable pub at_hand : Bank → (ℕ → Bool) → Row
at_hand b finish r = b.available r +ℤ sum_below number_of_customers (returned b finish r)

-- The remaining customers can finish one after the other, each within what is then at hand.
pub data Completes (b : Bank) : (ℕ → Bool) → Type 0 where
  finished :
      {finish : ℕ → Bool}
      → ((c : ℕ) → c < number_of_customers → finish c ≡ true)
      → Completes b finish
  next :
      {finish : ℕ → Bool} (c : ℕ)
      → c < number_of_customers
      → finish c ≡ false
      → ((r : ℕ) → r < number_of_resources → b.need c r ≤ℤ at_hand b finish r)
      → Completes b (update finish c true)
      → Completes b finish

-- No customer holds a negative amount.
abbrev pub HoldsNonnegative : Bank → Type 0
HoldsNonnegative b =
    (c r : ℕ) → c < number_of_customers → r < number_of_resources → pos 0 ≤ℤ b.allocation c r

pub at_hand-finish :
    (b : Bank) (finish : ℕ → Bool) (c r : ℕ)
    → c < number_of_customers
    → finish c ≡ false
    → at_hand b (update finish c true) r ≡ at_hand b finish r +ℤ b.allocation c r
unfolding at_hand
at_hand-finish b finish c r lt f =
    rw
      (sum_below-change number_of_customers c (returned b finish r)
        (returned b (update finish c true) r) lt (λ j ne. ground arith))
      (ground (
        arith,
        gain (b.available r) (sum_below number_of_customers (returned b finish r))
            (b.allocation c r),
      ))
  where
    gain : (a s x : ℤ) → a +ℤ (s +ℤ (x -ℤ pos 0)) ≡ a +ℤ s +ℤ x
    gain a s x = omega int_laws

-- More finished customers leave more at hand.
pub at_hand-mono :
    (b : Bank) (f g : ℕ → Bool) (r : ℕ)
    → HoldsNonnegative b
    → r < number_of_resources
    → ((c : ℕ) → f c ≡ true → g c ≡ true)
    → at_hand b f r ≤ℤ at_hand b g r
unfolding at_hand
at_hand-mono b f g r held lt more =
    omega (int_laws, sum_below-mono number_of_customers (returned b f r) (returned b g r) each)
  where
    each : (c : ℕ) → c < number_of_customers → returned b f r c ≤ℤ returned b g r c
    each c q = ground (arith, held c r q lt, more c)

-- Customers that have finished early do no harm.
pub Completes-mono :
    (b : Bank) {f : ℕ → Bool} (g : ℕ → Bool)
    → HoldsNonnegative b
    → Completes b f
    → ((c : ℕ) → f c ≡ true → g c ≡ true)
    → Completes b g
Completes-mono b g held (finished all) more = finished (λ c lt. more c (all c lt))
Completes-mono b g held (next {finish = f} c lt fc enough rest) more = elim (Bool-cases (g c)) [
  | inl early ↦ Completes-mono b g held rest (λ d e. ground (arith, more d))
  | inr late ↦
      next c lt late (λ r q. omega (arith, enough r q, at_hand-mono b f g r held q more))
        (Completes-mono b (update g c true) held rest (λ d e. ground (arith, more d)))
]
