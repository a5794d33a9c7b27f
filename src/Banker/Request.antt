-- ===== src/Banker/Request.antt =====
-- `request_resources` of Project-6/banker.c: when it grants, and that a refusal changes nothing.
use learning_ei.Base.{
  ℕ, zero, suc, ◌+◌, ◌≤◌, ◌<◌, ◌≡◌, ◌≢◌, ◌⊎◌, inl, inr, refl, subst, true, false, arith, Bool-cases,
  ℕ_discrete,
}
use learning_ei.Base.Int.{ℤ, pos, negsuc, pos_part, ◌≤ℤ◌, negsuc-ne-zero}
use learning_ei.Banker.{
  Bank, Row, number_of_resources, is_safe, valid_customer, is_zero, request_error, request_from,
  settle_request, request_resources,
}
use learning_ei.Banker.Granted.{
  granted, granted-none, grant-granted, rollback_down-granted, rollback_up-granted,
}

-- What one entry of a request must satisfy.
abbrev pub Fits : ℕ → Row → Bank → ℕ → Type 0
Fits c request b j = (pos 0 ≤ℤ request j) × (request j ≤ℤ b.need c j) × (request j ≤ℤ b.available j)

abbrev pub FitsFrom : ℕ → Row → Bank → ℕ → ℕ → Type 0
FitsFrom c request b i n = (j : ℕ) → i ≤ j → j < n → Fits c request b j

-- A request that the bank can grant: a customer, entries that fit, and a safe state behind it.
pub record IsGrantable (customer : ℤ) (request : Row) (b : Bank) : Type 0 where
  pub valid : valid_customer customer ≡ true
  pub fits : FitsFrom (pos_part customer) request b 0 number_of_resources
  pub safe : is_safe (granted (pos_part customer) request 0 number_of_resources b) ≡ true

is_zero→eq : (z : ℤ) → is_zero z ≡ true → z ≡ pos 0
is_zero→eq (pos n) h = ground arith
is_zero→eq (negsuc n) h = cc

module _ (c : ℕ) (request : Row) (b : Bank) where
  -- The tests at `i` read entries that the loop has not written yet.
  request_error-granted :
      (i : ℕ) → request_error c request i (granted c request 0 i b) ≡ request_error c request i b
  unfolding request_error granted
  request_error-granted i = ground arith

  Fits→error : (i : ℕ) → Fits c request b i → is_zero (request_error c request i b) ≡ true
  unfolding request_error
  Fits→error i h = ground arith

  error→Fits : (i : ℕ) → is_zero (request_error c request i b) ≡ true → Fits c request b i
  unfolding request_error
  error→Fits i h = ground arith

  -- How the allocating loop ends.
  data Outcome (n i : ℕ) (r : ℤ × Bank) : Type 0 where
    granted_all : FitsFrom c request b i n → r ≡ (pos 0, granted c request 0 n b) → Outcome n i r
    refused :
        ¬ FitsFrom c request b i n → (err : ℤ) → is_zero err ≡ false → r ≡ (err, b) → Outcome n i r

  FitsFrom-cons :
      (n i : ℕ) → Fits c request b i → FitsFrom c request b (i + 1) n → FitsFrom c request b i n
  FitsFrom-cons n i h rest j p q = elim (ℕ_discrete i j) [
    | yes e ↦ subst (Fits c request b) e h
    | no ne ↦ rest j (omega arith) q
  ]

  Outcome-cons : (n i : ℕ) {r : ℤ × Bank} → Fits c request b i → Outcome n (i + 1) r → Outcome n i r
  Outcome-cons n i h (granted_all all e) = granted_all (FitsFrom-cons n i h all) e
  Outcome-cons n i h (refused some_fail err z e) =
      refused (λ all. some_fail (λ j p q. all j (omega arith) q)) err z e

  request_loop-Outcome :
      (n k i : ℕ) → i + k ≡ n → Outcome n i (request_from k i c request (granted c request 0 i b))
  unfolding request_from
  request_loop-Outcome n zero i e =
      let e' : n ≡ i = omega arith in granted_all (λ j p q. absurd (omega arith)) (rw e' refl)
  request_loop-Outcome n (suc k) i e = elim (Bool-cases (is_zero (request_error c request i b))) [
    | inl ok ↦
        rw (request_error-granted i, ok, grant-granted c request b 0 i (omega arith))
          (Outcome-cons n i (error→Fits i ok) (request_loop-Outcome n k (i + 1) (omega arith)))
    | inr bad ↦
        rw (request_error-granted i, bad, rollback_down-granted c request b i)
          (refused (λ all. cc (Fits→error i (all i (omega arith) (omega arith))))
            (request_error c request i b) bad refl)
  ]

  request_from-Outcome :
      Outcome number_of_resources 0 (request_from number_of_resources 0 c request b)
  request_from-Outcome =
      rw (granted-none c request b 0) at
        (request_loop-Outcome number_of_resources 4 0 (omega arith))

  -- What the safety test makes of the loop's result.
  data Settled (r : ℤ × Bank) : Type 0 where
    done :
        FitsFrom c request b 0 number_of_resources
        → is_safe (granted c request 0 number_of_resources b) ≡ true
        → r ≡ (pos 0, granted c request 0 number_of_resources b)
        → Settled r
    denied :
        ¬ (
          FitsFrom c request b 0 number_of_resources
          × (is_safe (granted c request 0 number_of_resources b) ≡ true))
        → (err : ℤ) → is_zero err ≡ false
        → r ≡ (err, b)
        → Settled r

  settle-Settled :
      {r : ℤ × Bank} → Outcome number_of_resources 0 r → Settled (settle_request c request r)
  unfolding settle_request
  settle-Settled (granted_all all e) =
      elim (Bool-cases (is_safe (granted c request 0 number_of_resources b))) [
        | inl safe ↦ done all safe (rw (e, settle_request, safe) refl)
        | inr unsafe ↦
            denied (λ h. cc (h.1)) (negsuc 2) refl
              (rw (e, settle_request, unsafe, rollback_up-granted c request b 4 0 4 (omega arith))
                refl)
      ]
  settle-Settled (refused some_fail err z e) =
      denied (λ h. some_fail (h.0)) err z (rw (e, settle_request, z) refl)

is_zero-false→ne : (z : ℤ) → is_zero z ≡ false → z ≢ pos 0
is_zero-false→ne z h e = let h' : is_zero (pos 0) ≡ false = rw e at h in cc h'

module _ (customer : ℤ) (request : Row) (b : Bank) where
  settled :
      valid_customer customer ≡ true
      → Settled (pos_part customer) request b (request_resources customer request b)
  unfolding request_resources
  settled v = rw v (
      settle-Settled (pos_part customer) request b
        (request_from-Outcome (pos_part customer) request b))

  -- A grantable request returns 0, and moves exactly the requested amounts from the available
  -- resources and the needs to the customer's allocation.
  pub request_resources-granted :
      IsGrantable customer request b
      → request_resources customer request b
        ≡ (pos 0, granted (pos_part customer) request 0 number_of_resources b)
  request_resources-granted g = elim (settled g.valid) [
    | done all safe e ↦ e
    | denied not_both err z e ↦ absurd (not_both (g.fits, g.safe))
  ]

  -- A request that is not grantable returns an error code other than 0, and leaves all four arrays
  -- as they were: every rollback is complete.
  pub request_resources-refused :
      ¬ IsGrantable customer request b
      → ((request_resources customer request b).0 ≢ pos 0)
        × ((request_resources customer request b).1 ≡ b)
  request_resources-refused h = elim (Bool-cases (valid_customer customer)) [
    | inl v ↦ elim (settled v) [
      | done all safe e ↦ absurd (h (record { valid = v; fits = all; safe = safe }))
      | denied not_both err z e ↦ rw e (is_zero-false→ne err z, refl)
    ]
    | inr v ↦ unfold request_resources in rw (v, request_resources) (negsuc-ne-zero 0, refl)
  ]

  -- A request is granted, or leaves the bank as it was.
  pub request_resources-cases :
      IsGrantable customer request b ⊎ ((request_resources customer request b).1 ≡ b)
  request_resources-cases = elim (Bool-cases (valid_customer customer)) [
    | inl v ↦ elim (settled v) [
      | done all safe e ↦ inl (record { valid = v; fits = all; safe = safe })
      | denied not_both err z e ↦ inr (rw e refl)
    ]
    | inr v ↦ inr (unfold request_resources in rw (v, request_resources) refl)
  ]
