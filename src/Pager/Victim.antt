-- ===== src/Pager/Victim.antt =====
-- `select_victim_frame` of Project-8/vm_manager.c returns a frame that no valid page uses.
use learning_ei.Base.{
  ℕ, zero, suc, ◌+◌, ◌%◌, ◌^◌, ◌≤◌, ◌<◌, ◌≡◌, ◌≢◌, refl, sym, ◌∙◌, arith, Bool, true, false, ltb,
  ◌==◌, ◌&&◌, Bool-cases, ℕ_discrete, inl, inr,
}
use learning_ei.Base.Int.{ℤ}
use mathlib.Core.Bool.{false≢true}
use learning_ei.Pager.{Vm, number_of_pages, number_of_frames, invalidate_from, select_victim_frame}
use learning_ei.Pager.Coherent.{IsMapped}

module _ (victim : ℕ) (table : ℕ → ℕ) (valid : ℕ → Bool) where
  -- The loop makes no page valid.
  invalidate_from-valid :
      (k i p : ℕ) → invalidate_from k i victim table valid p ≡ true → valid p ≡ true
  unfolding invalidate_from
  invalidate_from-valid zero i p h = h
  invalidate_from-valid (suc k) i p h = ground (arith, invalidate_from-valid k (i + 1) p)

  -- Pages in other frames stay as they are.
  invalidate_from-other :
      (k i p : ℕ) → table p ≢ victim → invalidate_from k i victim table valid p ≡ valid p
  unfolding invalidate_from
  invalidate_from-other zero i p ne = refl
  invalidate_from-other (suc k) i p ne = ground (arith, invalidate_from-other k (i + 1) p ne)

  -- Where frames are not shared, no page of the range is left in the victim frame.
  invalidate_from-gone :
      (k i p : ℕ)
      → ((q : ℕ) → i ≤ q → q < i + k → valid q ≡ true → table q ≡ victim → q ≡ p)
      → i ≤ p
      → p < i + k
      → table p ≡ victim
      → invalidate_from k i victim table valid p ≡ false
  unfolding invalidate_from
  invalidate_from-gone zero i p own le lt e = absurd (omega arith)
  invalidate_from-gone (suc k) i p own le lt e =
      elim (Bool-cases (valid i && (table i == victim))) [
        | inl hit ↦ rw hit (ground (arith, own i (omega arith) (omega arith)))
        | inr no_hit ↦ elim (ℕ_discrete i p) [
          | no ne ↦ rw no_hit (
              invalidate_from-gone k (i + 1) p (λ q qle qlt. own q (omega arith) (omega arith))
                (omega arith) (omega arith) e)
          | yes same ↦
              rw no_hit (elim (Bool-cases (invalidate_from k (i + 1) victim table valid p)) [
                | inl still ↦ ground (arith, invalidate_from-valid k (i + 1) p still)
                | inr gone ↦ gone
              ])
        ]
      ]

-- What the choice of a frame leaves: a frame in range that no valid page has, and as many valid
-- pages as before but for the one that had it.
pub record IsChosen (v : Vm) (frame : ℕ) (v' : Vm) : Type 0 where
  pub in_range : frame < number_of_frames
  pub below : frame < v'.next_available_frame
  pub grows : v.next_available_frame ≤ v'.next_available_frame
  pub still : (p : ℕ) → v'.page_valid p ≡ true → v.page_valid p ≡ true
  pub unused : (p : ℕ) → p < number_of_pages → v'.page_valid p ≡ true → v.page_table p ≢ frame
  pub others :
      (p : ℕ)
      → p < number_of_pages
      → v.page_valid p ≡ true
      → v.page_table p ≢ frame
      → v'.page_valid p ≡ true
  pub same_table : v'.page_table ≡ v.page_table
  pub same_memory : v'.memory ≡ v.memory
  pub same_tlb : v'.tlb ≡ v.tlb

-- Below 128 frames a fresh one is chosen; from then on the oldest, whose page becomes invalid.
pub select_victim_frame-IsChosen :
    (store : ℕ → ℤ) (v : Vm)
    → IsMapped store v
    → v.next_available_frame + 1 < 2 ^ 32
    → IsChosen v (select_victim_frame v).0 (select_victim_frame v).1
unfolding select_victim_frame
select_victim_frame-IsChosen store v m small =
    elim (Bool-cases (ltb v.next_available_frame number_of_frames)) [
      | inl fresh ↦ rw fresh (record {
        in_range = ground arith;
        below = omega arith;
        grows = omega arith;
        still = λ p h. h;
        unused = λ p lt h e. omega (arith, m.handed_out p lt h, e);
        others = λ p lt h ne. h;
        same_table = refl;
        same_memory = refl;
        same_tlb = refl;
      })
      | inr full ↦
          let victim = v.next_available_frame % number_of_frames in
          rw full (record {
            in_range = omega arith;
            below = omega arith;
            grows = omega arith;
            still = λ p. invalidate_from-valid victim v.page_table v.page_valid number_of_pages 0 p;
            unused = λ p lt h e.
                let valid_p = invalidate_from-valid victim v.page_table v.page_valid 256 0 p h in
                let gone =
                  invalidate_from-gone victim v.page_table v.page_valid 256 0 p
                    (λ q qle qlt vq tq. m.own_frame q p qlt lt vq valid_p (tq ∙ sym e))
                    (omega arith) lt e in
                false≢true (sym gone ∙ h);
            others = λ p lt h ne.
                invalidate_from-other victim v.page_table v.page_valid number_of_pages 0 p ne ∙ h;
            same_table = refl;
            same_memory = refl;
            same_tlb = refl;
          })
    ]
