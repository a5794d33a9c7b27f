-- ===== src/Banker/Loops.antt =====
-- The loops of `is_leq` and `is_safe` in Project-6/banker.c: what each returns.
use learning_ei.Base.{
  ℕ, zero, suc, ◌+◌, ◌≤◌, ◌<◌, ◌≡◌, inl, inr, refl, Bool, true, false, arith, ltb, if◌then◌else◌,
  Bool-cases, ℕ_discrete,
}
use learning_ei.Base.Int.{◌+ℤ◌, ◌≤ℤ◌, ltb_ℤ, ltb_ℤ→le, le→ltb_ℤ}
use learning_ei.Base.Arrays.{update}
use learning_ei.Banker.{
  Bank, Row, Progress, number_of_resources, leq_from, is_leq, add_from, finish_customer, can_finish,
  pick_from,
}

pub leq_from-sound :
    (k i : ℕ) (a d : Row) → leq_from k i a d ≡ true → (j : ℕ) → i ≤ j → j < i + k → a j ≤ℤ d j
unfolding leq_from
leq_from-sound zero i a d h j p q = absurd (omega arith)
leq_from-sound (suc k) i a d h j p q = elim (Bool-cases (ltb_ℤ (d i) (a i))) [
  | inl lt ↦ cc
  | inr ge ↦ elim (ℕ_discrete i j) [
    | yes e ↦ rw (← e) (ltb_ℤ→le (d i) (a i) ge)
    | no ne ↦ leq_from-sound k (i + 1) a d (rw ge at h) j (omega arith) (omega arith)
  ]
]

pub leq_from_complete :
    (k i : ℕ) (a d : Row) → ((j : ℕ) → i ≤ j → j < i + k → a j ≤ℤ d j) → leq_from k i a d ≡ true
unfolding leq_from
leq_from_complete zero i a d h = refl
leq_from_complete (suc k) i a d h =
    rw (le→ltb_ℤ (d i) (a i) (h i (omega arith) (omega arith)))
      (leq_from_complete k (i + 1) a d (λ j p q. h j (omega arith) (omega arith)))

-- The row sum in `is_safe`, entry by entry.
pub add_from-eq :
    (k j : ℕ) (row work : Row) (r : ℕ)
    → add_from k j row work r
      ≡ (if ltb r j then work r else if ltb r (j + k) then work r +ℤ row r else work r)
unfolding add_from
add_from-eq zero j row work r = ground arith
add_from-eq (suc k) j row work r =
    ground (arith, add_from-eq k (j + 1) row (update work j (work j +ℤ row j)) r)

-- How the inner loop of `is_safe` ends.
pub data Picked (b : Bank) (p : Progress) (i n : ℕ) (r : Bool × Progress) : Type 0 where
  picked :
      (c : ℕ)
      → c < n
      → p.finish c ≡ false
      → is_leq (b.need c) p.work number_of_resources ≡ true
      → r ≡ (true, finish_customer b c p)
      → Picked b p i n r
  stuck : ((c : ℕ) → i ≤ c → c < n → can_finish b c p ≡ false) → r ≡ (false, p) → Picked b p i n r

Picked-cons :
    (b : Bank) (p : Progress) (i n : ℕ) {r : Bool × Progress}
    → can_finish b i p ≡ false
    → Picked b p (i + 1) n r
    → Picked b p i n r
Picked-cons b p i n h (picked c lt f leq e) = picked c lt f leq e
Picked-cons b p i n h (stuck all e) = stuck first e
  where
    first : (c : ℕ) → i ≤ c → c < n → can_finish b c p ≡ false
    first c le lt = elim (ℕ_discrete i c) [
      | yes same ↦ rw (← same) h
      | no ne ↦ all c (omega arith) lt
    ]

pub pick_from-Picked :
    (b : Bank) (p : Progress) (n k i : ℕ) → i + k ≡ n → Picked b p i n (pick_from k i b p)
unfolding pick_from
pick_from-Picked b p n zero i e = stuck (λ c le lt. absurd (omega arith)) refl
pick_from-Picked b p n (suc k) i e = elim (Bool-cases (can_finish b i p)) [
  | inl ok ↦ rw ok (picked i (omega arith) (ground arith) (ground arith) refl)
  | inr bad ↦ rw bad (Picked-cons b p i n bad (pick_from-Picked b p n k (i + 1) (omega arith)))
]
