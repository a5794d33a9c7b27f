-- ===== src/Closing/Finish.antt =====
-- That the closing thread can always be brought to its end.
use learning_ei.Base.{
  ℕ, zero, suc, ◌+◌, ◌-◌, ◌*◌, ◌≤◌, ◌<◌, ◌≡◌, refl, arith, Bool, true, false, List, [], ◌∷◌, ◌⊎◌,
  inl, inr, subst, Bool-cases, if◌then◌else◌,
}
use learning_ei.Base.Arrays.{update, update_self}
use learning_ei.Closing.{
  Crew, Phase, cancelling, joining, destroying, Closing, Event, works, ends, closes, onward,
  close_at, close, end, work, or_stay, step, run,
}
use learning_ei.Closing.Laws.{IsCrew, IsClosing, IsAsked, step-IsClosing}
use learning_ei.Closing.Keeps.{step-Keeps}

module _ {S X : Type 0} (crew : Crew S X) (away : S → ℕ) where
  -- The statements that are left to the closing thread.
  abbrev left : Phase → ℕ
  left (cancelling i) = 2 * (crew.last - i) + crew.shared
  left (joining i) = 2 * (crew.last - i) + crew.shared - 1
  left (destroying k) = k

  -- Whether it joins a thread that has not ended.
  abbrev waits : (ℕ → Bool) → Phase → ℕ
  waits gone (joining i) = if gone i then 0 else 1
  waits gone _ = 0

  abbrev measure : Closing S → ℕ
  measure c = 2 * left c.phase + waits c.gone c.phase + away c.sys

  left-onward : (i : ℕ) → i < crew.last → left (onward crew (i + 1)) < left (joining i)
  unfolding onward
  left-onward i lower = ground arith

  waits-onward : (gone : ℕ → Bool) (i : ℕ) → waits gone (onward crew i) ≡ 0
  unfolding onward
  waits-onward gone i = ground arith

  waits-joining : (gone : ℕ → Bool) (i : ℕ) → waits gone (joining i) ≤ 1
  waits-joining gone i = ground arith

  -- Some statement brings the closing thread nearer to its end.
  abbrev Nears : Closing S → Type 0
  Nears c = (e : Event X) × (measure (step crew e c) < measure c)

  close-Nears :
      (c : Closing S)
      → IsClosing crew c
      → crew.ready c.sys ≡ true
      → (p : Phase) → c.phase ≡ p
      → ((i : ℕ) → p ≡ joining i → c.gone i ≡ true)
      → (p ≡ destroying 0) ⊎ Nears c
  unfolding step or_stay close close_at
  close-Nears c v yet (cancelling i) e away_now =
      let (from, below) = subst (λ p. IsAsked crew c.cancelled p) e v.asked in
      inr (closes, rw (yet, e) (omega (arith, waits-joining c.gone i)))
  close-Nears c v yet (joining i) e away_now =
      let (from, below, asked) = subst (λ p. IsAsked crew c.cancelled p) e v.asked in
      inr (
        closes,
        rw (yet, e, away_now i refl)
            (omega (arith, left-onward i below, waits-onward c.gone (i + 1))),
      )
  close-Nears c v yet (destroying zero) e away_now = inl refl
  close-Nears c v yet (destroying (suc k)) e away_now = inr (closes, rw (yet, e) (omega arith))

  end-Nears :
      (c : Closing S) (i : ℕ)
      → c.phase ≡ joining i
      → c.cancelled i ≡ true
      → c.gone i ≡ false
      → crew.can_end i c.sys ≡ true
      → Nears c
  unfolding step or_stay end
  end-Nears c i e asked there now =
      let before : waits c.gone c.phase ≡ 1 = rw (e, there) refl in
      let after : waits (update c.gone i true) c.phase ≡ 0 =
        rw (e, update_self c.gone i true) refl in
      (ends i, rw (asked, there, now) (omega (arith, before, after)))

  work-Nears :
      (c : Closing S) (x : X)
      → c.gone (crew.thread_of x) ≡ false
      → away (crew.pick x c.sys) < away c.sys
      → Nears c
  unfolding step work
  work-Nears c x there nearer = (works x, rw there (omega (arith, nearer)))

module _ {S X : Type 0} (crew : Crew S X) (laws : IsCrew crew) (away : S → ℕ) (Keeps : S → Type 0)
    (kept : (x : X) (s : S) → Keeps s → Keeps (crew.pick x s))
    (nearer : (s : S)
      → Keeps s
      → crew.ready s ≡ true
      → (i : ℕ) → crew.first ≤ i
      → i < crew.last
      → crew.can_end i s ≡ false
      → (x : X) × (crew.can_end (crew.thread_of x) s ≡ false)
        × (away (crew.pick x s) < away s)) where
  joining-Nears :
      (c : Closing S)
      → IsClosing crew c
      → Keeps c.sys
      → crew.ready c.sys ≡ true
      → (i : ℕ) → c.phase ≡ joining i
      → c.gone i ≡ false
      → Nears crew away c
  joining-Nears c v keeps yet i e there =
      let (from, below, asked) = subst (λ p. IsAsked crew c.cancelled p) e v.asked in
      elim (Bool-cases (crew.can_end i c.sys)) [
        | inl now ↦ end-Nears crew away c i e asked there now
        | inr not_now ↦
            let (x, busy, less) = nearer c.sys keeps yet i from below not_now in
            elim (Bool-cases (c.gone (crew.thread_of x))) [
              | inl gone ↦ absurd (ground (arith, v.at_point (crew.thread_of x) gone, busy))
              | inr works_on ↦ work-Nears crew away c x works_on less
            ]
      ]

  phase-Nears :
      (c : Closing S)
      → IsClosing crew c
      → Keeps c.sys
      → crew.ready c.sys ≡ true
      → (p : Phase) → c.phase ≡ p
      → (p ≡ destroying 0) ⊎ Nears crew away c
  phase-Nears c v keeps yet (joining i) e = elim (Bool-cases (c.gone i)) [
    | inl gone ↦ close-Nears crew away c v yet (joining i) e (λ j same. cc)
    | inr there ↦ inr (joining-Nears c v keeps yet i e there)
  ]
  phase-Nears c v keeps yet p e = close-Nears crew away c v yet p e (λ j same. cc)

  finish :
      (fuel : ℕ) (c : Closing S)
      → measure crew away c ≤ fuel
      → IsClosing crew c
      → Keeps c.sys
      → crew.ready c.sys ≡ true
      → (events : List (Event X)) × ((run crew events c).phase ≡ destroying 0)
  unfolding run
  finish zero c enough v keeps yet = elim (phase-Nears c v keeps yet c.phase refl) [
    | inl done ↦ ([], done)
    | inr (e, less) ↦ absurd (omega arith)
  ]
  finish (suc fuel) c enough v keeps yet = elim (phase-Nears c v keeps yet c.phase refl) [
    | inl done ↦ ([], done)
    | inr (e, less) ↦
        let (events, done) =
          finish fuel (step crew e c) (omega (arith, less)) (step-IsClosing crew laws e c v)
            (step-Keeps crew Keeps kept e c keeps)
            (step-Keeps crew (λ s. crew.ready s ≡ true) laws.stays e c yet) in
        (e ∷ events, done)
  ]

  pub closing_finishes :
      (c : Closing S)
      → IsClosing crew c
      → Keeps c.sys
      → crew.ready c.sys ≡ true
      → (events : List (Event X)) × ((run crew events c).phase ≡ destroying 0)
  closing_finishes c = finish (measure crew away c) c (omega arith)
