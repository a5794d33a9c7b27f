-- ===== src/Pager/Fault.antt =====
-- `handle_page_fault` of Project-8/vm_manager.c loads the page and harms no other.
use learning_ei.Base.{ℕ, ◌+◌, ◌-◌, ◌*◌, ◌^◌, ◌<◌, ◌≡◌, ◌≢◌, ap, arith, true, ℕ_discrete}
use learning_ei.Base.Int.{ℤ}
use learning_ei.Base.Arrays.{update}
use learning_ei.Pager.{
  Vm, add32, number_of_pages, page_size, read_page, select_victim_frame, handle_page_fault,
}
use learning_ei.Pager.Coherent.{IsMapped}
use learning_ei.Pager.Victim.{IsChosen, select_victim_frame-IsChosen}

-- What a page fault at page `p` leaves.
pub record IsLoaded (store : ℕ → ℤ) (v : Vm) (p : ℕ) (v' : Vm) : Type 0 where
  pub mapped : IsMapped store v'
  pub valid : v'.page_valid p ≡ true
  pub table : v'.page_table p ≡ (select_victim_frame v).0
  pub others :
      (q : ℕ)
      → q < number_of_pages
      → q ≢ p
      → v.page_valid q ≡ true
      → v.page_table q ≢ (select_victim_frame v).0
      → (v'.page_valid q ≡ true) × (v'.page_table q ≡ v.page_table q)
  pub same_tlb : v'.tlb ≡ v.tlb

-- The state that a fault builds from the chosen frame.
abbrev filled : (ℕ → ℤ) → ℕ → ℕ → Vm → Vm
filled store p frame v = record v {
  page_table = update v.page_table p frame;
  memory = read_page store (p * page_size) (frame * page_size) v.memory;
  page_valid = update v.page_valid p true;
  page_fault_cnt = add32 v.page_fault_cnt 1;
}

-- The chosen state keeps the map, as all of its pages were valid before.
module _ (store : ℕ → ℤ) (v : Vm) (m : IsMapped store v) (frame : ℕ) (w : Vm)
    (c : IsChosen v frame w) (p : ℕ) (lt_p : p < number_of_pages) where
  table_of : (q : ℕ) → w.page_table q ≡ v.page_table q
  table_of q = ap (λ (t : ℕ → ℕ). t q) c.same_table

  memory_of : (a : ℕ) → w.memory a ≡ v.memory a
  memory_of a = ap (λ (t : ℕ → ℤ). t a) c.same_memory

  filled-loaded :
      (q o : ℕ)
      → q < number_of_pages
      → o < page_size
      → (filled store p frame w).page_valid q ≡ true
      → (filled store p frame w).memory ((filled store p frame w).page_table q * page_size + o)
        ≡ store (q * page_size + o)
  filled-loaded q o lt lo h = elim (ℕ_discrete q p) [
    | yes e ↦
        let here : page_size * p + (page_size * frame + o - page_size * frame) ≡ page_size * q + o =
          omega arith in
        ground (arith, e, ap store here)
    | no ne ↦ ground (
      arith,
      c.still q,
      c.unused q lt,
      m.loaded q o lt lo,
      table_of q,
      memory_of (w.page_table q * page_size + o),
    )
  ]

  filled-IsMapped : IsMapped store (filled store p frame w)
  filled-IsMapped = record {
    in_frames = λ q lt h. ground (arith, c.in_range, c.still q, m.in_frames q lt, table_of q);
    handed_out =
        λ q lt h. ground (arith, c.below, c.grows, c.still q, m.handed_out q lt, table_of q);
    own_frame = λ q r lq lr hq hr e. ground (
      arith,
      c.still q,
      c.still r,
      m.own_frame q r lq lr,
      table_of q,
      table_of r,
      c.unused q lq,
      c.unused r lr,
    );
    loaded = λ q o lt lo h. filled-loaded q o lt lo h;
  }

-- A fault leaves the page valid and loaded, the map intact, and every other page valid where it was
-- unless it was in the chosen frame.
pub handle_page_fault-IsLoaded :
    (store : ℕ → ℤ) (v : Vm) (p : ℕ)
    → IsMapped store v
    → v.next_available_frame + 1 < 2 ^ 32
    → p < number_of_pages
    → IsLoaded store v p (handle_page_fault store p v)
unfolding handle_page_fault
handle_page_fault-IsLoaded store v p m small lt =
    let frame = (select_victim_frame v).0 in
    let w = (select_victim_frame v).1 in
    let c = select_victim_frame-IsChosen store v m small in
    record {
      mapped = filled-IsMapped store v m frame w c p lt;
      valid = ground arith;
      table = ground arith;
      others =
          λ q lq ne vq tq. ground (arith, c.others q lq vq tq, table_of store v m frame w c p lt q);
      same_tlb = c.same_tlb;
    }
