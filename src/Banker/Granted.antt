-- ===== src/Banker/Granted.antt =====
-- The bank with part of a request granted: what the loops of `request_resources` do and undo.
use learning_ei.Base.{
  ℕ, zero, suc, ◌+◌, ◌≤◌, ◌<◌, ◌≡◌, refl, Bool, ◌&&◌, arith, ltb, leb, ◌==◌, if◌then◌else◌,
}
use learning_ei.Base.Int.{◌+ℤ◌, ◌-ℤ◌, +ℤ_cancel, -ℤ_cancel}
use learning_ei.Banker.{Bank, Row, grant, refund, rollback_down, rollback_up}

-- `lo <= j < hi`.
abbrev pub inside : ℕ → ℕ → ℕ → Bool
inside lo hi j = leb lo j && ltb j hi

-- The bank `b` after `request[lo..hi)` went to customer `c`.
unfoldable pub granted : ℕ → Row → ℕ → ℕ → Bank → Bank
granted c request lo hi b = record b {
  available = λ j. if inside lo hi j then b.available j -ℤ request j else b.available j;
  allocation =
      λ d j. if d == c && inside lo hi j then b.allocation d j +ℤ request j else b.allocation d j;
  need = λ d j. if d == c && inside lo hi j then b.need d j -ℤ request j else b.need d j;
}

-- Banks are equal when their arrays are, entry by entry.
pub Bank-eq :
    (b d : Bank)
    → ((j : ℕ) → b.available j ≡ d.available j)
    → ((c j : ℕ) → b.maximum c j ≡ d.maximum c j)
    → ((c j : ℕ) → b.allocation c j ≡ d.allocation c j)
    → ((c j : ℕ) → b.need c j ≡ d.need c j)
    → b ≡ d
Bank-eq b d pa pm pl pn = λ i. record {
  available = λ j. pa j i;
  maximum = λ c j. pm c j i;
  allocation = λ c j. pl c j i;
  need = λ c j. pn c j i;
}

module _ (c : ℕ) (request : Row) (b : Bank) where
  pub granted-none : (n : ℕ) → granted c request n n b ≡ b
  unfolding granted
  granted-none n =
      Bank-eq (granted c request n n b) b (λ j. ground arith) (λ d j. refl) (λ d j. ground arith)
        (λ d j. ground arith)

  pub grant-granted :
      (lo hi : ℕ)
      → lo ≤ hi
      → grant c request hi (granted c request lo hi b) ≡ granted c request lo (hi + 1) b
  unfolding granted grant
  grant-granted lo hi h =
      Bank-eq (grant c request hi (granted c request lo hi b)) (granted c request lo (hi + 1) b)
        (λ j. ground arith) (λ d j. refl) (λ d j. ground arith) (λ d j. ground arith)

  -- Giving the last entry back.
  pub refund-granted_last :
      (lo hi : ℕ)
      → lo ≤ hi
      → refund c request hi (granted c request lo (suc hi) b) ≡ granted c request lo hi b
  unfolding granted refund
  refund-granted_last lo hi h =
      Bank-eq (refund c request hi (granted c request lo (suc hi) b)) (granted c request lo hi b)
        (λ j. ground (arith, -ℤ_cancel (b.available j) (request j))) (λ d j. refl)
        (λ d j. ground (arith, +ℤ_cancel (b.allocation d j) (request j)))
        (λ d j. ground (arith, -ℤ_cancel (b.need d j) (request j)))

  -- Giving the first entry back.
  pub refund-granted_first :
      (lo hi : ℕ)
      → lo < hi
      → refund c request lo (granted c request lo hi b) ≡ granted c request (lo + 1) hi b
  unfolding granted refund
  refund-granted_first lo hi h =
      Bank-eq (refund c request lo (granted c request lo hi b)) (granted c request (lo + 1) hi b)
        (λ j. ground (arith, -ℤ_cancel (b.available j) (request j))) (λ d j. refl)
        (λ d j. ground (arith, +ℤ_cancel (b.allocation d j) (request j)))
        (λ d j. ground (arith, -ℤ_cancel (b.need d j) (request j)))

  -- The downward rollback undoes the entries before the one that failed.
  pub rollback_down-granted : (i : ℕ) → rollback_down i c request (granted c request 0 i b) ≡ b
  unfolding rollback_down
  rollback_down-granted zero = granted-none 0
  rollback_down-granted (suc i) =
      rw (refund-granted_last 0 i (omega arith)) (rollback_down-granted i)

  -- The upward rollback undoes a whole request.
  pub rollback_up-granted :
      (k i n : ℕ) → i + k ≡ n → rollback_up k i c request (granted c request i n b) ≡ b
  unfolding rollback_up
  rollback_up-granted zero i n e = let e' : n ≡ i = omega arith in rw e' (granted-none i)
  rollback_up-granted (suc k) i n e =
      rw (refund-granted_first i n (omega arith)) (rollback_up-granted k (i + 1) n (omega arith))
