-- ===== src/Banker/Steady.antt =====
-- The bank of Project-6/banker.c stays safe once it is safe.
use learning_ei.Base.{ℕ, ◌<◌, ◌≡◌, inl, inr, Bool, true, arith, some}
use learning_ei.Base.Int.{ℤ, pos, pos_part, ◌+ℤ◌, ◌-ℤ◌, ◌≤ℤ◌, int_laws}
use learning_ei.Base.Arrays.{sum_below, sum_below-change}
use learning_ei.Banker.{
  Bank, Row, number_of_customers, number_of_resources, is_safe, request_resources,
  release_resources,
}
use learning_ei.Banker.Completes.{at_hand, returned, Completes, finished, next}
use learning_ei.Banker.Safety.{is_safe_iff_Completes}
use learning_ei.Banker.Request.{request_resources-granted, request_resources-cases}
use learning_ei.Banker.Release.{
  released, AllReturnable, release_resources-released, release_resources-cases,
}
use learning_ei.Banker.Invariant.{IsBalanced, valid→lt, released-IsBalanced}

gain_done : (a s x l : ℤ) → a +ℤ s ≤ℤ a +ℤ x +ℤ (s +ℤ (l -ℤ x -ℤ l))
gain_done a s x l = omega int_laws

gain_other : (a s x : ℤ) → pos 0 ≤ℤ x → a +ℤ s ≤ℤ a +ℤ x +ℤ (s +ℤ (pos 0 -ℤ pos 0))
gain_other a s x h = omega int_laws

module _ (c : ℕ) (release : Row) (b : Bank) (lt : c < number_of_customers)
    (all : AllReturnable c release b number_of_resources) where
  -- A release never leaves less at hand.
  at_hand-released :
      (finish : ℕ → Bool) (r : ℕ)
      → r < number_of_resources
      → at_hand b finish r ≤ℤ at_hand (released c release 4 b) finish r
  unfolding at_hand released
  at_hand-released finish r q =
      let f = returned b finish r in
      let g = returned (released c release 4 b) finish r in
      rw (sum_below-change number_of_customers c f g lt (λ d ne. ground arith)) (
        ground (
          arith,
          all r q,
          gain_done (b.available r) (sum_below number_of_customers f) (release r)
              (b.allocation c r),
          gain_other (b.available r) (sum_below number_of_customers f) (release r),
        ))

  Completes-released :
      {finish : ℕ → Bool} → Completes b finish → Completes (released c release 4 b) finish
  unfolding released
  Completes-released (finished done) = finished done
  Completes-released (next {finish = f} d p undone enough rest) =
      next d p undone (λ r q. omega (arith, enough r q, at_hand-released f r q))
        (Completes-released rest)

-- With balanced books a safe bank is safe after every request, granted or not.
pub request_resources-safe :
    {total : Row} {b : Bank} (customer : ℤ) (request : Row)
    → IsBalanced total b
    → is_safe b ≡ true
    → is_safe (request_resources customer request b).1 ≡ true
request_resources-safe {b = b} customer request v safe =
    elim (request_resources-cases customer request b) [
      | inl g ↦ rw (request_resources-granted customer request b g) g.safe
      | inr same ↦ rw same safe
    ]

-- With balanced books a safe bank is safe after every release whose behaviour is defined.
pub release_resources-safe :
    {total : Row} {b b' : Bank} (customer : ℤ) (release : Row) (code : ℤ)
    → IsBalanced total b
    → is_safe b ≡ true
    → release_resources customer release b ≡ some (code, b')
    → is_safe b' ≡ true
release_resources-safe {b = b} {b' = b'} customer release code v safe e =
    elim (release_resources-cases customer release b) [
      | inl (ok, all) ↦
          let c = pos_part customer in
          let lt = valid→lt customer ok in
          let after = released-IsBalanced c release b lt all v in
          let e' : released c release number_of_resources b ≡ b' =
            cc (release_resources-released customer release b ok all) in
          rw (← e') (
            (is_safe_iff_Completes (released c release number_of_resources b) after.held).1
              (Completes-released c release b lt all ((is_safe_iff_Completes b v.held).0 safe)))
      | inr (inl same) ↦ let e' : b ≡ b' = cc in rw (← e') safe
      | inr (inr fault) ↦ cc
    ]
