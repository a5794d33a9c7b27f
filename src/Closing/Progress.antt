-- ===== src/Closing/Progress.antt =====
-- That the closing thread never waits for ever.
use learning_ei.Base.{
  ℕ, zero, suc, ◌≤◌, ◌<◌, ◌≢◌, ◌≡◌, refl, arith, true, false, none, inl, inr, subst, Bool-cases,
}
use learning_ei.Closing.{
  Crew, Phase, cancelling, joining, destroying, Closing, close_at, close, end,
}
use learning_ei.Closing.Laws.{IsClosing, IsAsked}

-- What can happen next, where `Moves i s` says that thread `i` need not wait: the closing thread has
-- come to its end, or some thread can move or end.
pub data CanMove {S X : Type 0} (crew : Crew S X) (Moves : ℕ → S → Type 0) (c : Closing S)
    : Type 0 where
  all_destroyed : c.phase ≡ destroying 0 → CanMove crew Moves c
  can_close : close crew c ≢ none → CanMove crew Moves c
  can_leave : (i : ℕ) → end crew i c ≢ none → CanMove crew Moves c
  can_work : (i : ℕ) → c.gone i ≡ false → Moves i c.sys → CanMove crew Moves c

-- What keeps the closing thread waiting: it is not ready, or the thread that it joins cannot end yet.
pub data IsBusy {S X : Type 0} (crew : Crew S X) (s : S) : Type 0 where
  not_ready : crew.ready s ≡ false → IsBusy crew s
  not_ending : (i : ℕ) → crew.first ≤ i → i < crew.last → crew.can_end i s ≡ false → IsBusy crew s

module _ {S X : Type 0} (crew : Crew S X) (Moves : ℕ → S → Type 0) (c : Closing S)
    (v : IsClosing crew c)
    (moves : IsBusy crew c.sys → (k : ℕ) × Moves k c.sys × (crew.can_end k c.sys ≡ false)) where
  busy-CanMove : IsBusy crew c.sys → CanMove crew Moves c
  busy-CanMove busy =
      let (k, can, not_there) = moves busy in
      elim (Bool-cases (c.gone k)) [
        | inl away ↦ absurd (ground (arith, v.at_point k away, not_there))
        | inr there ↦ can_work k there can
      ]

  ready-CanMove : crew.ready c.sys ≡ true → (p : Phase) → c.phase ≡ p → CanMove crew Moves c
  unfolding close close_at end
  ready-CanMove yet (cancelling i) e = can_close (rw (yet, e) (λ q. cc))
  ready-CanMove yet (joining i) e =
      let (from, below, cancelled) = subst (λ p. IsAsked crew c.cancelled p) e v.asked in
      elim (Bool-cases (c.gone i)) [
        | inl away ↦ can_close (rw (yet, e, away) (λ q. cc))
        | inr there ↦ elim (Bool-cases (crew.can_end i c.sys)) [
          | inl now ↦ can_leave i (rw (cancelled, there, now) (λ q. cc))
          | inr not_now ↦ busy-CanMove (not_ending i from below not_now)
        ]
      ]
  ready-CanMove yet (destroying zero) e = all_destroyed e
  ready-CanMove yet (destroying (suc k)) e = can_close (rw (yet, e) (λ q. cc))

  pub closing-CanMove : CanMove crew Moves c
  closing-CanMove = elim (Bool-cases (crew.ready c.sys)) [
    | inl yet ↦ ready-CanMove yet c.phase refl
    | inr early ↦ busy-CanMove (not_ready early)
  ]
