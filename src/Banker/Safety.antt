-- ===== src/Banker/Safety.antt =====
-- `is_safe` of Project-6/banker.c decides whether the state is safe.
use learning_ei.Base.{
  ℕ, zero, suc, ◌+◌, ◌<◌, ◌≡◌, ◌≢◌, ◌↔◌, subst, refl, Bool, true, false, arith, if◌then◌else◌,
  ℕ_discrete,
}
use learning_ei.Base.Int.{◌+ℤ◌, ◌≤ℤ◌}
use learning_ei.Base.Arrays.{update, sum_below}
use learning_ei.Banker.{
  Bank, Row, Progress, number_of_customers, number_of_resources, is_leq, finish_customer,
  can_finish, safe_rounds, is_safe,
}
use learning_ei.Banker.Loops.{
  leq_from-sound, leq_from_complete, add_from-eq, picked, stuck, pick_from-Picked,
}
use learning_ei.Banker.Completes.{
  at_hand, Completes, finished, next, HoldsNonnegative, at_hand-finish, Completes-mono,
}

-- `work` holds what is at hand.
abbrev Tracks : Bank → Progress → Type 0
Tracks b p = (r : ℕ) → r < number_of_resources → p.work r ≡ at_hand b p.finish r

finish_customer-Tracks :
    (b : Bank) (p : Progress) (c : ℕ)
    → c < number_of_customers
    → p.finish c ≡ false
    → Tracks b p
    → Tracks b (finish_customer b c p)
unfolding finish_customer
finish_customer-Tracks b p c lt f t r q =
    rw (add_from-eq 4 0 (b.allocation c) p.work r, at_hand-finish b p.finish c r lt f, ← t r q)
      (ground arith)

-- How many of the first `n` customers have not finished.
unfinished : ℕ → (ℕ → Bool) → ℕ
unfinished zero finish = 0
unfinished (suc n) finish = (if finish n then 0 else 1) + unfinished n finish

unfinished-past :
    (n c : ℕ) (finish : ℕ → Bool)
    → n < c + 1
    → unfinished n (update finish c true) ≡ unfinished n finish
unfolding unfinished
unfinished-past zero c finish h = refl
unfinished-past (suc n) c finish h = ground (arith, unfinished-past n c finish)

unfinished-update :
    (n c : ℕ) (finish : ℕ → Bool)
    → c < n
    → finish c ≡ false
    → unfinished n (update finish c true) + 1 ≡ unfinished n finish
unfolding unfinished
unfinished-update zero c finish h f = elim h [ ]
unfinished-update (suc n) c finish h f = elim (ℕ_discrete n c) [
  | yes e ↦ ground (arith, unfinished-past n c finish, f)
  | no ne ↦ ground (arith, unfinished-update n c finish)
]

unfinished-zero :
    (n : ℕ) (finish : ℕ → Bool) → unfinished n finish ≡ 0 → (c : ℕ) → c < n → finish c ≡ true
unfolding unfinished
unfinished-zero zero finish h c lt = elim lt [ ]
unfinished-zero (suc n) finish h c lt = elim (ℕ_discrete n c) [
  | yes e ↦ rw (← e) (ground arith)
  | no ne ↦ unfinished-zero n finish (ground arith) c (omega arith)
]

unfinished-all :
    (n : ℕ) (finish : ℕ → Bool) → ((c : ℕ) → c < n → finish c ≡ true) → unfinished n finish ≡ 0
unfolding unfinished
unfinished-all zero finish h = refl
unfinished-all (suc n) finish h =
    rw (h n (omega arith)) (omega (arith, unfinished-all n finish (λ c lt. h c (omega arith))))

finish-finish_customer :
    (b : Bank) (c : ℕ) (p : Progress) → (finish_customer b c p).finish ≡ update p.finish c true
unfolding finish_customer
finish-finish_customer b c p = refl

is_leq-sound :
    (a d : Row)
    → is_leq a d number_of_resources ≡ true
    → (r : ℕ) → r < number_of_resources
    → a r ≤ℤ d r
unfolding is_leq
is_leq-sound a d h r q = leq_from-sound 4 0 a d h r (omega arith) q

is_leq_complete :
    (a d : Row)
    → ((r : ℕ) → r < number_of_resources → a r ≤ℤ d r)
    → is_leq a d number_of_resources ≡ true
unfolding is_leq
is_leq_complete a d h = leq_from_complete 4 0 a d (λ j p q. h j q)

module _ (b : Bank) where
  safe_rounds_sound :
      (k : ℕ) (p : Progress)
      → unfinished number_of_customers p.finish ≡ k
      → Tracks b p
      → safe_rounds k b p ≡ true
      → Completes b p.finish
  unfolding safe_rounds
  safe_rounds_sound zero p u t h = finished (unfinished-zero number_of_customers p.finish u)
  safe_rounds_sound (suc k) p u t h = elim (pick_from-Picked b p number_of_customers 5 0 refl) [
    | picked c lt f leq e ↦
        next c lt f (λ r q. rw (← t r q) (is_leq-sound (b.need c) p.work leq r q))
          (subst (Completes b) (finish-finish_customer b c p) (
            safe_rounds_sound k (finish_customer b c p)
              (rw (finish-finish_customer b c p)
                (omega (arith, unfinished-update number_of_customers c p.finish lt f)))
              (finish_customer-Tracks b p c lt f t) (rw e at h)))
    | stuck all e ↦ cc (rw e at h)
  ]

  -- While customers remain that can complete, the inner loop finds one.
  not_stuck :
      (work : Row) (finish : ℕ → Bool)
      → Completes b finish
      → ((r : ℕ) → r < number_of_resources → work r ≡ at_hand b finish r)
      → unfinished number_of_customers finish ≢ 0
      → ¬ (
          (c : ℕ)
          → c < number_of_customers
          → can_finish b c (record { work = work; finish = finish }) ≡ false)
  not_stuck work finish (finished all) t u stuck_all =
      u (unfinished-all number_of_customers finish all)
  not_stuck work finish (next c lt f enough rest) t u stuck_all =
      let fits = is_leq_complete (b.need c) work (λ r q. rw (t r q) (enough r q)) in
      ground (arith, stuck_all c lt, fits, f)

  safe_rounds_complete :
      (k : ℕ) (p : Progress)
      → HoldsNonnegative b
      → unfinished number_of_customers p.finish ≡ k
      → Tracks b p
      → Completes b p.finish
      → safe_rounds k b p ≡ true
  unfolding safe_rounds
  safe_rounds_complete zero p held u t h = refl
  safe_rounds_complete (suc k) p held u t h =
      elim (pick_from-Picked b p number_of_customers 5 0 refl) [
        | picked c lt f leq e ↦ rw e (
            safe_rounds_complete k (finish_customer b c p) held
              (rw (finish-finish_customer b c p)
                (omega (arith, unfinished-update number_of_customers c p.finish lt f)))
              (finish_customer-Tracks b p c lt f t)
              (rw (finish-finish_customer b c p)
                (Completes-mono b (update p.finish c true) held h (λ d q. ground arith))))
        | stuck all e ↦
            absurd (not_stuck p.work p.finish h t (omega arith) (λ c lt. all c (omega arith) lt))
      ]

-- No customer has finished at the start.
abbrev pub nobody : ℕ → Bool
nobody c = false

at_hand-nobody : (b : Bank) (r : ℕ) → b.available r ≡ at_hand b nobody r
unfolding at_hand sum_below ◌+ℤ◌
at_hand-nobody b r = ground arith

-- Where no customer holds a negative amount, `is_safe` returns 1 exactly when there is an order in
-- which all five customers can finish, each within what is at hand by then.
pub is_safe_iff_Completes :
    (b : Bank) → HoldsNonnegative b → (is_safe b ≡ true) ↔ Completes b nobody
unfolding is_safe unfinished
is_safe_iff_Completes b held = (
  safe_rounds_sound b 5 start refl (λ r q. at_hand-nobody b r),
  safe_rounds_complete b 5 start held refl (λ r q. at_hand-nobody b r),
)
  where
    start : Progress
    start = record { work = b.available; finish = nobody }
