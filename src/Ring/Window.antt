-- ===== src/Ring/Window.antt =====
-- The slots of a ring from an index on.
use learning_ei.Base.{
  ℕ, zero, suc, ◌+◌, ◌%◌, ◌≤◌, ◌<◌, ◌≡◌, refl, ap, arith, List, [], ◌∷◌, ◌++◌, ◌-◌, ◌==◌, false,
}
use learning_ei.Base.Arrays.{update}
use learning_ei.Ring.{ring_slots}

module _ {A : Type 0} where
  -- `n` slots from index `h` on, going round.
  unfoldable pub window : (ℕ → A) → ℕ → ℕ → List A
  window slots h zero = []
  window slots h (suc n) = slots h ∷ window slots ((h + 1) % ring_slots) n

  -- A write behind the window is not seen.
  pub window-update :
      (slots : ℕ → A) (x : A) (h n k : ℕ)
      → h < ring_slots
      → k < ring_slots
      → n ≤ (k + ring_slots - h) % ring_slots
      → window (update slots k x) h n ≡ window slots h n
  unfolding window
  window-update slots x h zero k small small' room = refl
  window-update slots x h (suc n) k small small' room =
      let later : n ≤ (k + ring_slots - (h + 1) % ring_slots) % ring_slots = omega arith in
      let elsewhere : (h == k) ≡ false = ground arith in
      rw (elsewhere, window-update slots x ((h + 1) % ring_slots) n k (omega arith) small' later)
        refl

  -- The window grows by the slot behind it.
  pub window-suc :
      (slots : ℕ → A) (h n : ℕ)
      → h < ring_slots
      → window slots h (suc n) ≡ window slots h n ++ (slots ((h + n) % ring_slots) ∷ [])
  unfolding window
  window-suc slots h zero small = let e : (h + 0) % ring_slots ≡ h = omega arith in rw e refl
  window-suc slots h (suc n) small =
      let h' = (h + 1) % ring_slots in
      let e : (h' + n) % ring_slots ≡ (h + suc n) % ring_slots = omega arith in
      ap (λ l. slots h ∷ l) (rw e at (window-suc slots h' n (omega arith)))
