-- ===== src/Pager/Translate.antt =====
-- `translate_address` of Project-8/vm_manager.c reads the byte that the backing file holds at the
-- logical address, as long as no TLB entry outlives its page.
use learning_ei.Base.{
  ℕ, ◌+◌, ◌*◌, ◌%◌, ◌^◌, ◌≤◌, ◌<◌, ◌≡◌, ◌≢◌, refl, sym, ap, ◌∙◌, arith, true, false, none,
  Bool-cases, Option-cases, inl, inr, subst,
}
use learning_ei.Base.Int.{ℤ}
use mathlib.Core.Bool.{false≢true}
use learning_ei.Pager.{
  Vm, Pair, add32, page_size, number_of_pages, number_of_frames, tlb_size, get_page_number,
  get_offset, get_physical_address, select_victim_frame, check_tlb, update_tlb, load_page,
  handle_page_fault, miss, find_frame, translate_address, access_memory,
}
use learning_ei.Pager.Coherent.{IsFaithful, IsCoherent}
use learning_ei.Pager.Fault.{IsLoaded, handle_page_fault-IsLoaded}
use learning_ei.Pager.Lookup.{check_tlb-IsHit, update_tlb-IsFaithful}

-- The frame that a page fault would take from another page is in no valid TLB entry.
abbrev pub SparesTlb : Vm → Type 0
SparesTlb v =
    number_of_frames ≤ v.next_available_frame
    → (i : ℕ) → i < tlb_size
    → (v.tlb i).valid ≡ true
    → (v.tlb i).frame ≢ v.next_available_frame % number_of_frames

-- An access to `page` is harmless: if it faults, the TLB is spared.
abbrev pub IsHarmless : ℕ → Vm → Type 0
IsHarmless page v = check_tlb page v ≡ none → v.page_valid page ≡ false → SparesTlb v

-- What finding a frame for `page` leaves.
record IsFound (store : ℕ → ℤ) (page frame : ℕ) (v' : Vm) : Type 0 where
  coherent : IsCoherent store v'
  valid : v'.page_valid page ≡ true
  table : v'.page_table page ≡ frame

-- The chosen frame is in no faithful entry.
chosen-spared :
    (store : ℕ → ℤ) (v : Vm) (i : ℕ)
    → IsCoherent store v
    → SparesTlb v
    → i < tlb_size
    → (v.tlb i).valid ≡ true
    → (v.tlb i).frame ≢ (select_victim_frame v).0
unfolding select_victim_frame
chosen-spared store v i c spares li h =
    let (in_range, valid, table) = c.faithful i li h in
    ground (
      arith,
      c.mapped.handed_out (v.tlb i).page in_range valid,
      table,
      λ (le : number_of_frames ≤ v.next_available_frame). spares le i li h,
    )

module _ (store : ℕ → ℤ) (page : ℕ) (lt : page < number_of_pages) where
  -- Under the conditions a fault leaves every TLB entry faithful.
  fault-IsFaithful :
      (v : Vm)
      → IsCoherent store v
      → v.next_available_frame + 1 < 2 ^ 32
      → v.page_valid page ≡ false
      → SparesTlb v
      → IsFaithful (handle_page_fault store page v)
  fault-IsFaithful v c small invalid spares =
      subst
        (λ (t : ℕ → Pair).
          (i : ℕ)
          → i < tlb_size
          → (t i).valid ≡ true
          → ((t i).page < number_of_pages)
            × ((handle_page_fault store page v).page_valid (t i).page ≡ true)
            × ((handle_page_fault store page v).page_table (t i).page ≡ (t i).frame))
        (sym l.same_tlb) entries
    where
      l : IsLoaded store v page (handle_page_fault store page v)
      l = handle_page_fault-IsLoaded store v page c.mapped small lt

      entries :
          (i : ℕ)
          → i < tlb_size
          → (v.tlb i).valid ≡ true
          → ((v.tlb i).page < number_of_pages)
            × ((handle_page_fault store page v).page_valid (v.tlb i).page ≡ true)
            × ((handle_page_fault store page v).page_table (v.tlb i).page ≡ (v.tlb i).frame)
      entries i li h =
          let (in_range, valid, table) = c.faithful i li h in
          let other : (v.tlb i).page ≢ page = λ e. false≢true (sym invalid ∙ (rw e at valid)) in
          let spared = chosen-spared store v i c spares li h in
          let (valid', table') =
            l.others (v.tlb i).page in_range other valid (λ e. spared (sym table ∙ e)) in
          (in_range, valid', table' ∙ table)

  load_page-IsCoherent :
      (v : Vm)
      → IsCoherent store v
      → v.next_available_frame + 1 < 2 ^ 32
      → (v.page_valid page ≡ false → SparesTlb v)
      → IsCoherent store (load_page store page v)
        × ((load_page store page v).page_valid page ≡ true)
  unfolding load_page
  load_page-IsCoherent v c small spares = elim (Bool-cases (v.page_valid page)) [
    | inl valid ↦ rw valid (c, valid)
    | inr invalid ↦
        let l = handle_page_fault-IsLoaded store v page c.mapped small lt in
        rw invalid (
          record {
            mapped = l.mapped;
            faithful = fault-IsFaithful v c small invalid (spares invalid);
          },
          l.valid,
        )
  ]

  -- The counters and the TLB do not matter to the map.
  update_tlb-IsCoherent :
      (v : Vm)
      → IsCoherent store v
      → v.page_valid page ≡ true
      → IsCoherent store (update_tlb page (v.page_table page) v)
  update_tlb-IsCoherent v c valid = record {
    mapped =
        unfold update_tlb in
        record {
          in_frames = c.mapped.in_frames;
          handed_out = c.mapped.handed_out;
          own_frame = c.mapped.own_frame;
          loaded = c.mapped.loaded;
        };
    faithful = update_tlb-IsFaithful page v c.faithful lt valid;
  }

  miss-IsFound :
      (v : Vm)
      → IsCoherent store v
      → v.next_available_frame + 1 < 2 ^ 32
      → (v.page_valid page ≡ false → SparesTlb v)
      → IsFound store page (miss store page v).0 (miss store page v).1
  unfolding miss
  miss-IsFound v c small spares =
      let counted : Vm = record v { tlb_miss_cnt = add32 v.tlb_miss_cnt 1 } in
      let c' : IsCoherent store counted = record {
        mapped = record {
          in_frames = c.mapped.in_frames;
          handed_out = c.mapped.handed_out;
          own_frame = c.mapped.own_frame;
          loaded = c.mapped.loaded;
        };
        faithful = c.faithful;
      } in
      let (loaded, valid) = load_page-IsCoherent counted c' small spares in
      record {
        coherent = update_tlb-IsCoherent (load_page store page counted) loaded valid;
        valid = unfold update_tlb in valid;
        table = unfold update_tlb in refl;
      }

  find_frame-IsFound :
      (v : Vm)
      → IsCoherent store v
      → v.next_available_frame + 1 < 2 ^ 32
      → IsHarmless page v
      → IsFound store page (find_frame store page v).0 (find_frame store page v).1
  unfolding find_frame
  find_frame-IsFound v c small harmless = elim (Option-cases (check_tlb page v)) [
    | inl absent ↦ rw (absent, find_frame) (miss-IsFound v c small (harmless absent))
    | inr (frame, found) ↦
        let hit = check_tlb-IsHit page frame v found in
        let (in_range, valid, table) = c.faithful hit.index hit.below hit.valid in
        rw (found, find_frame)
          (record {
            coherent = c;
            valid = subst (λ (q : ℕ). v.page_valid q ≡ true) hit.same_page valid;
            table =
                subst (λ (q : ℕ). v.page_table q ≡ frame) hit.same_page (table ∙ hit.same_frame);
          })
  ]

-- In a coherent state, and while the frame counter does not wrap, a harmless translation (one that,
-- if it faults, takes no frame that the TLB has an entry for) leads to the byte that the backing file
-- holds at the logical address (its low 16 bits), and leaves the state coherent.
pub translate_address-reads :
    (store : ℕ → ℤ) (logical : ℕ) (v : Vm)
    → IsCoherent store v
    → v.next_available_frame + 1 < 2 ^ 32
    → IsHarmless (get_page_number logical) v
    → let (physical, v') = translate_address store logical v in
      (access_memory physical v' ≡ store (logical % 2 ^ 16)) × IsCoherent store v'
unfolding translate_address access_memory
translate_address-reads store logical v c small harmless =
    let page = get_page_number logical in
    let counted : Vm = record v { total_cnt = add32 v.total_cnt 1 } in
    let c' : IsCoherent store counted = record {
      mapped = record {
        in_frames = c.mapped.in_frames;
        handed_out = c.mapped.handed_out;
        own_frame = c.mapped.own_frame;
        loaded = c.mapped.loaded;
      };
      faithful = c.faithful;
    } in
    let f =
      find_frame-IsFound store page (omega arith) counted c' small (unfold check_tlb in harmless) in
    let v' = (find_frame store page counted).1 in
    let frame = (find_frame store page counted).0 in
    let in_range = f.coherent.mapped.in_frames page (omega arith) f.valid in
    let at : get_physical_address frame (get_offset logical)
        ≡ v'.page_table page * page_size + get_offset logical =
      omega (arith, f.table, in_range) in
    let whole : page * page_size + get_offset logical ≡ logical % 2 ^ 16 = omega arith in
    (
      ap v'.memory at
          ∙ f.coherent.mapped.loaded page (get_offset logical) (omega arith) (omega arith) f.valid
          ∙ ap store whole,
      f.coherent,
    )
