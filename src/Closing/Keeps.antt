-- ===== src/Closing/Keeps.antt =====
-- What the closing thread leaves of the other threads' state.
use learning_ei.Base.{
  ℕ, zero, suc, ◌≡◌, refl, arith, true, not, ◌&&◌, inl, inr, List, [], ◌∷◌, Bool-cases, dec_lt,
}
use learning_ei.Closing.{
  Crew, Phase, cancelling, joining, destroying, Closing, Event, works, ends, closes, close_at,
  close, end, work, or_stay, step, run,
}
use learning_ei.Closing.Laws.{IsCrew, IsClosing, destroying-gone}

module _ {S X : Type 0} (crew : Crew S X) where
  end-sys : (i : ℕ) (c : Closing S) → (or_stay c (end crew i c)).sys ≡ c.sys
  unfolding end or_stay
  end-sys i c = elim (Bool-cases (c.cancelled i && not (c.gone i) && crew.can_end i c.sys)) [
    | inl now ↦ rw now refl
    | inr not_now ↦ rw not_now refl
  ]

  close_at-sys : (c : Closing S) (p : Phase) → (or_stay c (close_at crew c p)).sys ≡ c.sys
  unfolding close_at or_stay
  close_at-sys c (cancelling i) = refl
  close_at-sys c (joining i) = elim (Bool-cases (c.gone i)) [
    | inl away ↦ rw away refl
    | inr there ↦ rw there refl
  ]
  close_at-sys c (destroying zero) = refl
  close_at-sys c (destroying (suc k)) = refl

  close-sys : (c : Closing S) → (or_stay c (close crew c)).sys ≡ c.sys
  unfolding close or_stay
  close-sys c = elim (Bool-cases (crew.ready c.sys)) [
    | inl yet ↦ rw yet (close_at-sys c c.phase)
    | inr early ↦ rw early refl
  ]

  -- While it destroys what they share, no thread touches that.
  pub destroying-sys :
      (c : Closing S) (k : ℕ)
      → IsCrew crew
      → IsClosing crew c
      → crew.ready c.sys ≡ true
      → c.phase ≡ destroying k
      → (e : Event X) → (step crew e c).sys ≡ c.sys
  unfolding step work
  destroying-sys c k laws v ready_now at (works x) = elim (Bool-cases (c.gone (crew.thread_of x))) [
    | inl away ↦ rw away refl
    | inr there ↦ rw there (
        laws.idle x c.sys ready_now (elim (dec_lt (crew.thread_of x) crew.first) [
          | yes before ↦ inl before
          | no from ↦ elim (dec_lt (crew.thread_of x) crew.last) [
            | no behind ↦ inr (omega arith)
            | yes below ↦
                let away = destroying-gone crew c k v at (crew.thread_of x) (omega arith) below in
                absurd (ground (arith, away, there))
          ]
        ]))
  ]
  destroying-sys c k laws v yet at (ends i) = end-sys i c
  destroying-sys c k laws v yet at closes = close-sys c

  -- A property of the threads' state that every pick keeps is kept.
  module _ (Keeps : S → Type 0) (kept : (x : X) (s : S) → Keeps s → Keeps (crew.pick x s)) where
    pub step-Keeps : (e : Event X) (c : Closing S) → Keeps c.sys → Keeps (step crew e c).sys
    unfolding step work
    step-Keeps (works x) c h = elim (Bool-cases (c.gone (crew.thread_of x))) [
      | inl away ↦ rw away h
      | inr there ↦ rw there (kept x c.sys h)
    ]
    step-Keeps (ends i) c h = rw (end-sys i c) h
    step-Keeps closes c h = rw (close-sys c) h

    pub run-Keeps :
        (events : List (Event X)) (c : Closing S) → Keeps c.sys → Keeps (run crew events c).sys
    unfolding run
    run-Keeps [] c h = h
    run-Keeps (e ∷ events) c h = run-Keeps events (step crew e c) (step-Keeps e c h)
