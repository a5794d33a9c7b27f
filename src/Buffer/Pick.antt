-- ===== src/Buffer/Pick.antt =====
-- A pick of Project-5-2's scheduler, as the step of one thread.
use learning_ei.Base.{
  ℕ, ◌<◌, ◌≢◌, ◌≡◌, refl, arith, sym, true, some, ltb, ◌⊎◌, inl, inr, Bool-cases, Option-cases,
}
use learning_ei.Base.Int.{ℤ}
use learning_ei.Base.Arrays.{update, update_other}
use learning_ei.Buffer.{Shared, Pc, step, System, pick}

-- A pick makes the thread's step, if there is one.
pub pick-step :
    (threads i : ℕ) (x : ℤ) (s : System)
    → (pick threads i x s ≡ s)
      ⊎ ((m : Shared) × (p : Pc) × (i < threads)
          × (step i x s.mem (s.pc i) ≡ some (m, p))
          × (pick threads i x s ≡ record { mem = m; pc = update s.pc i p }))
unfolding pick
pick-step threads i x s = elim (Bool-cases (ltb i threads)) [
  | inr over ↦ inl (rw over refl)
  | inl lower ↦ elim (Option-cases (step i x s.mem (s.pc i))) [
    | inl waits ↦ inl (rw (lower, waits) refl)
    | inr ((m, p), e) ↦ inr (m, p, ground arith, e, rw (lower, e) refl)
  ]
]

pub pick-other :
    (threads i : ℕ) (x : ℤ) (s : System) (j : ℕ) → i ≢ j → (pick threads i x s).pc j ≡ s.pc j
pick-other threads i x s j other = elim (pick-step threads i x s) [
  | inl same ↦ rw same refl
  | inr (m, p, lower, e, stepped) ↦ rw stepped (update_other s.pc i p j (λ same. other (sym same)))
]

pub pick-some :
    (threads i : ℕ) (x : ℤ) (s : System) (m : Shared) (p : Pc)
    → i < threads
    → step i x s.mem (s.pc i) ≡ some (m, p)
    → pick threads i x s ≡ record { mem = m; pc = update s.pc i p }
unfolding pick
pick-some threads i x s m p lower e =
    let below : ltb i threads ≡ true = ground arith in rw (below, pick, e) refl
