-- ===== src/Pager/Lookup.antt =====
-- `check_TLB` and `update_TLB` of Project-8/vm_manager.c.
use learning_ei.Base.{
  ℕ, zero, suc, ◌+◌, ◌≤◌, ◌<◌, ◌≡◌, ◌≢◌, refl, arith, true, none, some, ◌==◌, ◌&&◌, Bool-cases,
  ℕ_discrete, inl, inr,
}
use learning_ei.Pager.{Vm, Pair, number_of_pages, tlb_size, check_from, check_tlb, update_tlb}
use learning_ei.Pager.Coherent.{IsFaithful}

-- A hit comes from a valid entry for the page.
pub record IsHit (page : ℕ) (tlb : ℕ → Pair) (frame n : ℕ) : Type 0 where
  pub index : ℕ
  pub below : index < n
  pub valid : (tlb index).valid ≡ true
  pub same_page : (tlb index).page ≡ page
  pub same_frame : (tlb index).frame ≡ frame

check_from-IsHit :
    (k i n page frame : ℕ) (tlb : ℕ → Pair)
    → i + k ≡ n
    → check_from k i page tlb ≡ some frame
    → IsHit page tlb frame n
unfolding check_from
check_from-IsHit zero i n page frame tlb e h = cc
check_from-IsHit (suc k) i n page frame tlb e h =
    elim (Bool-cases ((tlb i).valid && ((tlb i).page == page))) [
      | inl hit ↦ record {
        index = i;
        below = omega arith;
        valid = ground arith;
        same_page = ground arith;
        same_frame = ground arith;
      }
      | inr no_hit ↦ check_from-IsHit k (i + 1) n page frame tlb (omega arith) (rw no_hit at h)
    ]

pub check_tlb-IsHit :
    (page frame : ℕ) (v : Vm) → check_tlb page v ≡ some frame → IsHit page v.tlb frame tlb_size
unfolding check_tlb
check_tlb-IsHit page frame v h = check_from-IsHit tlb_size 0 tlb_size page frame v.tlb refl h

-- A miss means that no valid entry is for the page.
check_from-none :
    (k i page : ℕ) (tlb : ℕ → Pair) (j : ℕ)
    → check_from k i page tlb ≡ none
    → i ≤ j
    → j < i + k
    → (tlb j).valid ≡ true
    → (tlb j).page ≢ page
unfolding check_from
check_from-none zero i page tlb j h le lt v e = absurd (omega arith)
check_from-none (suc k) i page tlb j h le lt v e = elim (ℕ_discrete i j) [
  | yes same ↦ ground (arith, same)
  | no ne ↦ check_from-none k (i + 1) page tlb j (ground arith) (omega arith) (omega arith) v e
]

pub check_tlb-none :
    (page : ℕ) (v : Vm) (j : ℕ)
    → check_tlb page v ≡ none
    → j < tlb_size
    → (v.tlb j).valid ≡ true
    → (v.tlb j).page ≢ page
unfolding check_tlb
check_tlb-none page v j h lt = check_from-none tlb_size 0 page v.tlb j h (omega arith) lt

-- A new entry that repeats the page table keeps the TLB faithful.
pub update_tlb-IsFaithful :
    (page : ℕ) (v : Vm)
    → IsFaithful v
    → page < number_of_pages
    → v.page_valid page ≡ true
    → IsFaithful (update_tlb page (v.page_table page) v)
unfolding update_tlb
update_tlb-IsFaithful page v f lt valid i li h = ground (arith, f i li)
