-- ===== src/Buffer/Invariant.antt =====
-- What every interleaving of Project-5-2 keeps.
use learning_ei.Base.{ℕ, ◌≡◌, refl, arith, List, [], ◌∷◌, inl, inr}
use learning_ei.Base.Int.{ℤ}
use learning_ei.Base.Family.{total, total-zero}
use learning_ei.Ring.Window.{window}
use learning_ei.Buffer.{Pc, System, pick, run, init, init_buffer}
use learning_ei.Buffer.Counts.{hides_item, hides_slot, IsCounted}
use learning_ei.Buffer.Pick.{pick-step}
use learning_ei.Buffer.Steps.{step-Leaves}

pub pick-IsCounted :
    {threads : ℕ} (i : ℕ) (x : ℤ) (s : System)
    → IsCounted threads s.mem s.pc
    → IsCounted threads (pick threads i x s).mem (pick threads i x s).pc
pick-IsCounted {threads} i x s v = elim (pick-step threads i x s) [
  | inl same ↦ rw same v
  | inr (m, p, lower, e, stepped) ↦
      let left = step-Leaves v i lower x (s.pc i) refl in rw stepped (rw e at left)
]

pub init-IsCounted :
    (threads producers : ℕ) → IsCounted threads (init producers).mem (init producers).pc
unfolding init init_buffer window
init-IsCounted threads producers =
    let pc : ℕ → Pc = (init producers).pc in
    let hidden : total hides_item threads pc ≡ 0 =
      total-zero hides_item threads pc (λ i q. ground arith) in
    let claimed : total hides_slot threads pc ≡ 0 =
      total-zero hides_slot threads pc (λ i q. ground arith) in
    record {
      fifo = record { head_in = omega arith; tail_in = omega arith; in_order = refl };
      items = omega arith;
      free = omega arith;
      owned = record { owner = λ i. ground arith; held = λ i e. cc };
      fresh = λ i. ground arith;
    }

-- Every interleaving keeps the counts.
pub run-IsCounted :
    {threads : ℕ} (picks : List (ℕ × ℤ)) (s : System)
    → IsCounted threads s.mem s.pc
    → IsCounted threads (run threads picks s).mem (run threads picks s).pc
unfolding run
run-IsCounted [] s v = v
run-IsCounted {threads} ((i, x) ∷ picks) s v =
    run-IsCounted picks (pick threads i x s) (pick-IsCounted i x s v)

pub reached-IsCounted :
    (threads producers : ℕ) (picks : List (ℕ × ℤ))
    → let s = run threads picks (init producers) in IsCounted threads s.mem s.pc
reached-IsCounted threads producers picks =
    run-IsCounted picks (init producers) (init-IsCounted threads producers)
