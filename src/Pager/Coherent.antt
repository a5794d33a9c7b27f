-- ===== src/Pager/Coherent.antt =====
-- The invariant of Project-8/vm_manager.c.
use learning_ei.Base.{ℕ, ◌+◌, ◌*◌, ◌<◌, ◌≡◌, true}
use learning_ei.Base.Int.{ℤ}
use learning_ei.Pager.{Vm, page_size, number_of_pages, number_of_frames, tlb_size}

-- Every valid page has a frame of its own, which was handed out and holds the page.
pub record IsMapped (store : ℕ → ℤ) (v : Vm) : Type 0 where
  pub in_frames :
      (p : ℕ) → p < number_of_pages → v.page_valid p ≡ true → v.page_table p < number_of_frames
  pub handed_out :
      (p : ℕ)
      → p < number_of_pages
      → v.page_valid p ≡ true
      → v.page_table p < v.next_available_frame
  pub own_frame :
      (p q : ℕ)
      → p < number_of_pages
      → q < number_of_pages
      → v.page_valid p ≡ true
      → v.page_valid q ≡ true
      → v.page_table p ≡ v.page_table q
      → p ≡ q
  pub loaded :
      (p o : ℕ)
      → p < number_of_pages
      → o < page_size
      → v.page_valid p ≡ true
      → v.memory (v.page_table p * page_size + o) ≡ store (p * page_size + o)

-- Every valid entry of the TLB repeats the page table.
abbrev pub IsFaithful : Vm → Type 0
IsFaithful v =
    (i : ℕ)
    → i < tlb_size
    → (v.tlb i).valid ≡ true
    → ((v.tlb i).page < number_of_pages)
      × (v.page_valid (v.tlb i).page ≡ true)
      × (v.page_table (v.tlb i).page ≡ (v.tlb i).frame)

pub record IsCoherent (store : ℕ → ℤ) (v : Vm) : Type 0 where
  pub mapped : IsMapped store v
  pub faithful : IsFaithful v
