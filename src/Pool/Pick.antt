-- ===== src/Pool/Pick.antt =====
-- A pick of Project-5-1's scheduler, as the step of one thread.
use learning_ei.Base.{
  ℕ, ◌<◌, ◌≢◌, ◌≡◌, refl, arith, sym, true, some, ltb, ◌⊎◌, inl, inr, Bool-cases, Option-cases,
}
use learning_ei.Base.Arrays.{update, update_other}
use learning_ei.Pool.{pool_threads, Shared, Pc, step, System, pick}

module _ {Task : Type 0} where
  -- A pick makes the thread's step, if there is one.
  pub pick-step :
      (i : ℕ) (s : System Task)
      → (pick i s ≡ s)
        ⊎ ((m : Shared Task) × (p : Pc Task) × (i < pool_threads)
            × (step i s.mem (s.pc i) ≡ some (m, p))
            × (pick i s ≡ record { mem = m; pc = update s.pc i p }))
  unfolding pick
  pick-step i s = elim (Bool-cases (ltb i pool_threads)) [
    | inr over ↦ inl (rw over refl)
    | inl lower ↦ elim (Option-cases (step i s.mem (s.pc i))) [
      | inl waits ↦ inl (rw (lower, waits) refl)
      | inr ((m, p), e) ↦ inr (m, p, ground arith, e, rw (lower, e) refl)
    ]
  ]

  pub pick-other : (i : ℕ) (s : System Task) (j : ℕ) → i ≢ j → (pick i s).pc j ≡ s.pc j
  pick-other i s j other = elim (pick-step i s) [
    | inl same ↦ rw same refl
    | inr (m, p, lower, e, stepped) ↦
        rw stepped (update_other s.pc i p j (λ same. other (sym same)))
  ]

  pub pick-some :
      (i : ℕ) (s : System Task) (m : Shared Task) (p : Pc Task)
      → i < pool_threads
      → step i s.mem (s.pc i) ≡ some (m, p)
      → pick i s ≡ record { mem = m; pc = update s.pc i p }
  unfolding pick
  pick-some i s m p lower e =
      let below : ltb i pool_threads ≡ true = ground arith in rw (below, pick, e) refl
