-- ===== src/Ring/Owner.antt =====
-- The mutex of a ring and the threads that hold it.
use learning_ei.Base.{ℕ, ◌<◌, ◌≢◌, ◌≡◌, arith, Bool, true, false, Option, none, some}
use learning_ei.Base.Arrays.{update}

-- The mutex is held by the one thread that is between lock and unlock.
module _ {A : Type 0} (inside : A → Bool) (threads : ℕ) where
  pub record IsOwned (lock : Option ℕ) (pc : ℕ → A) : Type 0 where
    pub owner : (i : ℕ) → inside (pc i) ≡ true → lock ≡ some i
    pub held : (i : ℕ) → lock ≡ some i → (i < threads) × (inside (pc i) ≡ true)

module _ {A : Type 0} {inside : A → Bool} {threads : ℕ} {lock : Option ℕ} {pc : ℕ → A}
    (v : IsOwned inside threads lock pc) (i : ℕ) (p : A) where
  pub stay-IsOwned : inside p ≡ inside (pc i) → IsOwned inside threads lock (update pc i p)
  stay-IsOwned same = record {
    owner = λ j. ground (arith, v.owner j, v.owner i);
    held = λ j. ground (arith, v.held j, v.held i);
  }

  pub take-IsOwned :
      lock ≡ none → i < threads → inside p ≡ true → IsOwned inside threads (some i) (update pc i p)
  take-IsOwned free lower enters = record {
    owner = λ j. ground (arith, v.owner j);
    held = λ j. ground (arith, v.held j);
  }

  pub give-IsOwned :
      inside (pc i) ≡ true → inside p ≡ false → IsOwned inside threads none (update pc i p)
  give-IsOwned within leaves = record {
    owner = λ j. ground (arith, v.owner j, v.owner i);
    held = λ j e. cc;
  }

  pub other-outside : inside (pc i) ≡ true → (j : ℕ) → j ≢ i → inside (pc j) ≡ false
  other-outside within j other = ground (arith, v.owner j, v.owner i)
