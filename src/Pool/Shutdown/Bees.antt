-- ===== src/Pool/Shutdown/Bees.antt =====
-- The bees of Project-5-1 as threads that are closed down.
use learning_ei.Base.{
  ℕ, ◌≤◌, ◌≡◌, refl, arith, ap, true, false, none, some, List, [], ◌∷◌, inl, inr, ℕ_discrete, subst,
}
use learning_ei.Closing.Laws.{IsCrew, IsClosing, reached-IsClosing}
use learning_ei.Closing.Keeps.{run-Keeps}
use learning_ei.Closing.{Event, start}
use learning_ei.Pool.{
  pool_threads, Shared, Pc, post_task, finished, next_submit, step, System, init, pick,
}
use learning_ei.Pool.Counts.{is_worker, IsCounted}
use learning_ei.Pool.Pick.{pick-step, pick-other}
use learning_ei.Pool.Invariant.{pick-IsCounted, init-IsCounted}
use learning_ei.Pool.Shutdown.{is_finished, is_cancellable, bees, shut_down}

module _ {Task : Type 0} where
  pub finished-step :
      (i : ℕ) (m : Shared Task) (p : Pc Task) → is_finished p ≡ true → step i m p ≡ none
  unfolding step
  finished-step i m finished done = refl
  finished-step i m p done = ground arith

  pick-finished : (s : System Task) → is_finished (s.pc 0) ≡ true → pick 0 s ≡ s
  unfolding pick
  pick-finished s done = rw (finished-step 0 s.mem (s.pc 0) done, pick) refl

  pick-beyond : (i : ℕ) (s : System Task) → pool_threads ≤ i → pick i s ≡ s
  unfolding pick
  pick-beyond i s beyond = ground arith

  pub bees-IsCrew : IsCrew {S = System Task} bees
  bees-IsCrew = record {
    local = λ i s j other. ap is_cancellable (pick-other i s j other);
    stays = λ i s done. elim (ℕ_discrete i 0) [
      | yes e ↦ rw (e, pick-finished s done) done
      | no other ↦ rw (pick-other i s 0 other) done
    ];
    idle = λ i s done outside. elim outside [
      | inl before ↦ let e : i ≡ 0 = omega arith in rw e (pick-finished s done)
      | inr beyond ↦ pick-beyond i s beyond
    ];
  }

  -- The client stays a client.
  step-is_worker :
      (i : ℕ) (m m' : Shared Task) (p p' : Pc Task)
      → is_worker p ≡ false
      → step i m p ≡ some (m', p')
      → is_worker p' ≡ false
  unfolding step next_submit
  step-is_worker i m m' (post_task []) p' client e = ground arith
  step-is_worker i m m' (post_task (t ∷ todo)) p' client e = ground arith
  step-is_worker i m m' p p' client e = ground arith

  -- What the picks keep.
  pub record IsPool (tasks : List Task) (s : System Task) : Type 0 where
    pub counted : IsCounted tasks s.mem s.pc
    pub client : is_worker (s.pc 0) ≡ false

  pick-client :
      (i : ℕ) (s : System Task) → is_worker (s.pc 0) ≡ false → is_worker ((pick i s).pc 0) ≡ false
  pick-client i s client = elim (pick-step i s) [
    | inl same ↦ rw same client
    | inr (m, p, lower, e, stepped) ↦ rw stepped (elim (ℕ_discrete i 0) [
      | yes is_client ↦
          let e' : step 0 s.mem (s.pc 0) ≡ some (m, p) =
            subst (λ k. step k s.mem (s.pc k) ≡ some (m, p)) is_client e in
          rw is_client (step-is_worker 0 s.mem m (s.pc 0) p client e')
      | no other ↦ ground arith
    ])
  ]

  pub pick-IsPool :
      {tasks : List Task} (i : ℕ) (s : System Task) → IsPool tasks s → IsPool tasks (pick i s)
  pick-IsPool i s v = record {
    counted = pick-IsCounted i s v.counted;
    client = pick-client i s v.client;
  }

  pub init-IsPool : (slots : ℕ → Task) (tasks : List Task) → IsPool tasks (init slots tasks)
  unfolding init next_submit
  init-IsPool slots [] = record { counted = init-IsCounted slots []; client = refl }
  init-IsPool slots (t ∷ tasks) = record {
    counted = init-IsCounted slots (t ∷ tasks);
    client = refl;
  }

  pub shut_down-IsClosing :
      (slots : ℕ → Task) (tasks : List Task) (events : List (Event ℕ))
      → IsClosing bees (shut_down slots tasks events)
  unfolding shut_down
  shut_down-IsClosing slots tasks events =
      reached-IsClosing bees bees-IsCrew (init slots tasks) events

  pub shut_down-IsPool :
      (slots : ℕ → Task) (tasks : List Task) (events : List (Event ℕ))
      → IsPool tasks (shut_down slots tasks events).sys
  unfolding shut_down start
  shut_down-IsPool slots tasks events =
      run-Keeps bees (IsPool tasks) pick-IsPool events (start bees (init slots tasks))
        (init-IsPool slots tasks)
