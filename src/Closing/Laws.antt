-- ===== src/Closing/Laws.antt =====
-- What every interleaving keeps while one thread closes the others down.
use learning_ei.Base.{
  ℕ, zero, suc, ◌+◌, ◌≤◌, ◌<◌, ◌≢◌, ◌≡◌, refl, arith, ap, ◌∙◌, Bool, true, false, not, ◌&&◌, ◌⊎◌,
  inl, inr, List, [], ◌∷◌, ltb, Bool-cases, ℕ_discrete, subst,
}
use learning_ei.Base.Arrays.{update_self}
use learning_ei.Closing.{
  Crew, Phase, cancelling, joining, destroying, Closing, Event, works, ends, closes, onward, start,
  close_at, close, end, work, or_stay, step, run,
}

-- What a crew's picks have to keep: another thread's statement leaves a thread where it is, the closing
-- thread stays in its loop, and then no other thread does anything.
pub record IsCrew {S X : Type 0} (crew : Crew S X) : Type 0 where
  pub local :
      (x : X) (s : S) (i : ℕ)
      → crew.thread_of x ≢ i
      → crew.can_end i (crew.pick x s) ≡ crew.can_end i s
  pub stays : (x : X) (s : S) → crew.ready s ≡ true → crew.ready (crew.pick x s) ≡ true
  pub idle :
      (x : X) (s : S)
      → crew.ready s ≡ true
      → (crew.thread_of x < crew.first) ⊎ (crew.last ≤ crew.thread_of x)
      → crew.pick x s ≡ s

module _ {S X : Type 0} (crew : Crew S X) where
  -- The threads below it have been joined.
  abbrev joined_below : Phase → ℕ
  joined_below (cancelling i) = i
  joined_below (joining i) = i
  joined_below (destroying k) = crew.last

  abbrev pub IsAsked : (ℕ → Bool) → Phase → Type 0
  IsAsked cancelled (cancelling i) = (crew.first ≤ i) × (i < crew.last)
  IsAsked cancelled (joining i) = (crew.first ≤ i) × (i < crew.last) × (cancelled i ≡ true)
  IsAsked cancelled _ = Unit {0}

  pub record IsClosing (c : Closing S) : Type 0 where
    pub at_point : (i : ℕ) → c.gone i ≡ true → crew.can_end i c.sys ≡ true
    pub joined : (i : ℕ) → crew.first ≤ i → i < joined_below c.phase → c.gone i ≡ true
    pub asked : IsAsked c.cancelled c.phase
    pub begun : (crew.ready c.sys ≡ true) ⊎ (c.phase ≡ onward crew crew.first)

  at_onward :
      (P : ℕ → Phase → Type 0) (i : ℕ)
      → (i < crew.last → P i (cancelling i))
      → (crew.last ≤ i → P i (destroying crew.shared))
      → P i (onward crew i)
  unfolding onward
  at_onward P i below above = elim (Bool-cases (ltb i crew.last)) [
    | inl lower ↦ rw lower (below (ground arith))
    | inr over ↦ rw over (above (ground arith))
  ]

  start-IsClosing : (s : S) → IsClosing (start crew s)
  unfolding start
  start-IsClosing s = record {
    at_point = λ i e. ground arith;
    joined =
        at_onward (λ j p. (i : ℕ) → j ≤ i → i < joined_below p → false ≡ true) crew.first
          (λ lower i from below. absurd (omega arith)) (λ over i from below. absurd (omega arith));
    asked =
        at_onward (λ j p. IsAsked (λ i. false) p) crew.first (λ lower. (omega arith, lower))
          (λ over. tt);
    begun = inr refl;
  }

  end-IsClosing : (i : ℕ) (c : Closing S) → IsClosing c → IsClosing (or_stay c (end crew i c))
  unfolding end or_stay
  end-IsClosing i c v =
      elim (Bool-cases (c.cancelled i && not (c.gone i) && crew.can_end i c.sys)) [
        | inr not_now ↦ rw not_now v
        | inl now ↦ rw now (record {
          at_point = λ j. ground (arith, v.at_point j);
          joined = λ j from below. ground (arith, v.joined j from below);
          asked = v.asked;
          begun = v.begun;
        })
      ]

  close_at-IsClosing :
      (c : Closing S)
      → IsClosing c
      → crew.ready c.sys ≡ true
      → (p : Phase) → c.phase ≡ p
      → IsClosing (or_stay c (close_at crew c p))
  unfolding close_at or_stay
  close_at-IsClosing c v yet (cancelling i) e = record {
    at_point = v.at_point;
    joined = λ j from below. v.joined j from (rw e below);
    asked =
        let (from, below) = subst (λ p. IsAsked c.cancelled p) e v.asked in
        (from, below, update_self c.cancelled i true);
    begun = inl yet;
  }
  close_at-IsClosing c v yet (joining i) e = elim (Bool-cases (c.gone i)) [
    | inr there ↦ rw there v
    | inl away ↦
        let (from, below, cancelled) = subst (λ p. IsAsked c.cancelled p) e v.asked in
        let upto : (j : ℕ) → crew.first ≤ j → j < i + 1 → c.gone j ≡ true = λ j from lower.
          elim (ℕ_discrete j i) [
            | yes same ↦ rw same away
            | no other ↦ v.joined j from (rw e (omega arith))
          ] in
        rw away (record {
          at_point = v.at_point;
          joined =
              at_onward (λ k p. (j : ℕ) → crew.first ≤ j → j < joined_below p → c.gone j ≡ true)
                (i + 1) (λ lower j from below. upto j from below)
                (λ over j from below. upto j from (omega arith));
          asked =
              at_onward (λ j p. crew.first ≤ j → IsAsked c.cancelled p) (i + 1)
                (λ lower from. (from, lower)) (λ over from. tt) (omega arith);
          begun = inl yet;
        })
  ]
  close_at-IsClosing c v yet (destroying zero) e = v
  close_at-IsClosing c v yet (destroying (suc k)) e = record {
    at_point = v.at_point;
    joined = λ j from below. v.joined j from (rw e below);
    asked = tt;
    begun = inl yet;
  }

  close-IsClosing : (c : Closing S) → IsClosing c → IsClosing (or_stay c (close crew c))
  unfolding close or_stay
  close-IsClosing c v = elim (Bool-cases (crew.ready c.sys)) [
    | inr early ↦ rw early v
    | inl yet ↦ rw yet (close_at-IsClosing c v yet c.phase refl)
  ]

  -- Once the last thread is joined, all are gone.
  pub destroying-gone :
      (c : Closing S) (k : ℕ)
      → IsClosing c
      → c.phase ≡ destroying k
      → (i : ℕ) → crew.first ≤ i
      → i < crew.last
      → c.gone i ≡ true
  destroying-gone c k v e i from below = v.joined i from (rw e below)

module _ {S X : Type 0} (crew : Crew S X) (laws : IsCrew crew) where
  work-IsClosing : (x : X) (c : Closing S) → IsClosing crew c → IsClosing crew (work crew x c)
  unfolding work
  work-IsClosing x c v = elim (Bool-cases (c.gone (crew.thread_of x))) [
    | inl away ↦ rw away v
    | inr there ↦ rw there (record {
      at_point =
          λ i e. laws.local x c.sys i (λ same. ground (arith, ap c.gone same)) ∙ v.at_point i e;
      joined = v.joined;
      asked = v.asked;
      begun = elim (v.begun) [ inl yet ↦ inl (laws.stays x c.sys yet) | inr at ↦ inr at ];
    })
  ]

  pub step-IsClosing :
      (e : Event X) (c : Closing S) → IsClosing crew c → IsClosing crew (step crew e c)
  unfolding step
  step-IsClosing (works x) c v = work-IsClosing x c v
  step-IsClosing (ends i) c v = end-IsClosing crew i c v
  step-IsClosing closes c v = close-IsClosing crew c v

  run-IsClosing :
      (events : List (Event X)) (c : Closing S)
      → IsClosing crew c
      → IsClosing crew (run crew events c)
  unfolding run
  run-IsClosing [] c v = v
  run-IsClosing (e ∷ events) c v = run-IsClosing events (step crew e c) (step-IsClosing e c v)

  pub reached-IsClosing :
      (s : S) (events : List (Event X)) → IsClosing crew (run crew events (start crew s))
  reached-IsClosing s events = run-IsClosing events (start crew s) (start-IsClosing crew s)
