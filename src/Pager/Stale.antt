-- ===== src/Pager/Stale.antt =====
-- The TLB of Project-8/vm_manager.c keeps an entry whose frame went to another page.
use learning_ei.Base.{
  ℕ, zero, suc, ◌+◌, ◌*◌, ◌%◌, ◌^◌, ◌≤◌, ◌<◌, ◌≡◌, ◌≢◌, refl, ap, ◌∙◌, arith, true, false, none,
  some,
}
use learning_ei.Base.Int.{ℤ}
use learning_ei.Base.Arrays.{update}
use learning_ei.Pager.{
  Vm, Pair, add32, page_size, number_of_pages, number_of_frames, tlb_size, get_page_number,
  get_offset, get_physical_address, select_victim_frame, check_from, check_tlb, update_tlb,
  load_page, handle_page_fault, miss, find_frame, translate_address, access_memory,
}
use learning_ei.Pager.Coherent.{IsMapped}
use learning_ei.Pager.Fault.{handle_page_fault-IsLoaded}

-- Replacing an entry that is not for `q` by another that is not leaves what is found for `q`.
check_from-update :
    (k i j q : ℕ) (tlb : ℕ → Pair) (e : Pair)
    → (tlb j).page ≢ q
    → e.page ≢ q
    → check_from k i q (update tlb j e) ≡ check_from k i q tlb
unfolding check_from
check_from-update zero i j q tlb e old new = refl
check_from-update (suc k) i j q tlb e old new =
    ground (arith, check_from-update k (i + 1) j q tlb e old new)

-- A hit does not look at anything but the TLB.
find_frame-hit :
    (store : ℕ → ℤ) (q frame : ℕ) (v : Vm)
    → check_tlb q v ≡ some frame
    → find_frame store q v ≡ (frame, v)
unfolding find_frame
find_frame-hit store q frame v h = rw (h, find_frame) refl

find_frame-fault :
    (store : ℕ → ℤ) (p : ℕ) (v : Vm)
    → check_tlb p v ≡ none
    → v.page_valid p ≡ false
    → find_frame store p v ≡ miss store p v
unfolding find_frame
find_frame-fault store p v h invalid = rw (h, find_frame) refl

fault-next_tlb :
    (store : ℕ → ℤ) (p : ℕ) (v : Vm)
    → (handle_page_fault store p v).next_available_tlb ≡ v.next_available_tlb
unfolding handle_page_fault select_victim_frame
fault-next_tlb store p v = ground arith

chosen-full :
    (v : Vm)
    → number_of_frames ≤ v.next_available_frame
    → (select_victim_frame v).0 ≡ v.next_available_frame % number_of_frames
unfolding select_victim_frame
chosen-full v full = ground arith

load_page-fault :
    (store : ℕ → ℤ) (p : ℕ) (v : Vm)
    → v.page_valid p ≡ false
    → load_page store p v ≡ handle_page_fault store p v
unfolding load_page
load_page-fault store p v invalid = rw invalid refl

check_tlb-update :
    (q p frame : ℕ) (v w : Vm)
    → w.tlb ≡ v.tlb
    → w.next_available_tlb ≡ v.next_available_tlb
    → p ≢ q
    → (v.tlb (v.next_available_tlb % tlb_size)).page ≢ q
    → check_tlb q (update_tlb p frame w) ≡ check_tlb q v
unfolding check_tlb update_tlb
check_tlb-update q p frame v w same_tlb same_next ne slot =
    rw (same_tlb, same_next)
      (check_from-update tlb_size 0 (v.next_available_tlb % tlb_size) q v.tlb
        (record { valid = true; page = p; frame = frame }) slot ne)

-- After the fault at page `p` in the frame that the TLB has for page `q`.
module _ (store : ℕ → ℤ) (p q : ℕ) (v : Vm) (m : IsMapped store v) (lt : p < number_of_pages)
    (full : number_of_frames ≤ v.next_available_frame) (small : v.next_available_frame + 1 < 2 ^ 32)
    (invalid : v.page_valid p ≡ false) where
  miss-keeps :
      p ≢ q
      → (v.tlb (v.next_available_tlb % tlb_size)).page ≢ q
      → check_tlb q (miss store p v).1 ≡ check_tlb q v
  unfolding miss
  miss-keeps ne slot =
      let counted : Vm = record v { tlb_miss_cnt = add32 v.tlb_miss_cnt 1 } in
      let m' : IsMapped store counted = record {
        in_frames = m.in_frames;
        handed_out = m.handed_out;
        own_frame = m.own_frame;
        loaded = m.loaded;
      } in
      let l = handle_page_fault-IsLoaded store counted p m' small lt in
      rw (load_page-fault store p counted invalid) (
        check_tlb-update q p _ v (handle_page_fault store p counted) l.same_tlb
          (fault-next_tlb store p counted) ne slot)

  miss-loads :
      (o : ℕ)
      → o < page_size
      → (miss store p v).1.memory (v.next_available_frame % number_of_frames * page_size + o)
        ≡ store (p * page_size + o)
  unfolding miss update_tlb
  miss-loads o lo =
      let counted : Vm = record v { tlb_miss_cnt = add32 v.tlb_miss_cnt 1 } in
      let m' : IsMapped store counted = record {
        in_frames = m.in_frames;
        handed_out = m.handed_out;
        own_frame = m.own_frame;
        loaded = m.loaded;
      } in
      let l = handle_page_fault-IsLoaded store counted p m' small lt in
      rw (load_page-fault store p counted invalid, ← chosen-full counted full, ← l.table)
        (l.mapped.loaded p o lt lo l.valid)

-- What makes an entry stale: all frames are handed out, page `p` is not in memory, and the frame that
-- its fault takes is the one that the TLB has for page `q`, in an entry that is not replaced by it.
pub record IsAboutToStale (store : ℕ → ℤ) (p q : ℕ) (v : Vm) : Type 0 where
  pub mapped : IsMapped store v
  pub full : number_of_frames ≤ v.next_available_frame
  pub small : v.next_available_frame + 1 < 2 ^ 32
  pub p_page : p < number_of_pages
  pub q_page : q < number_of_pages
  pub different : p ≢ q
  pub absent : check_tlb p v ≡ none
  pub invalid : v.page_valid p ≡ false
  pub hit : check_tlb q v ≡ some (v.next_available_frame % number_of_frames)
  pub slot : (v.tlb (v.next_available_tlb % tlb_size)).page ≢ q

translate_address-at :
    (store : ℕ → ℤ) (p o : ℕ) (v : Vm)
    → p < number_of_pages
    → o < page_size
    → let (frame, v') = find_frame store p (record v { total_cnt = add32 v.total_cnt 1 }) in
      translate_address store (p * page_size + o) v ≡ (get_physical_address frame o, v')
unfolding translate_address
translate_address-at store p o v lp lo =
    let e_page : get_page_number (p * page_size + o) ≡ p = omega arith in
    let e_offset : get_offset (p * page_size + o) ≡ o = omega arith in rw (e_page, e_offset) refl

check_tlb-counted : (q n : ℕ) (v : Vm) → check_tlb q (record v { total_cnt = n }) ≡ check_tlb q v
unfolding check_tlb
check_tlb-counted q n v = refl

-- Where all frames are handed out, the frame counter does not wrap, page `p` is neither in memory nor
-- in the TLB, and the frame that its fault takes is the one that the TLB has for another page `q`, in
-- an entry that the fault does not replace, an access to page `p`, followed by one to page `q`, reads
-- at `q` the byte that the backing file holds in page `p`.
pub translate_address-stale :
    (store : ℕ → ℤ) (p q o r : ℕ) (v : Vm)
    → IsAboutToStale store p q v
    → o < page_size
    → r < page_size
    → let v' = (translate_address store (p * page_size + o) v).1 in
      let (physical, v'') = translate_address store (q * page_size + r) v' in
      access_memory physical v'' ≡ store (p * page_size + r)
unfolding access_memory
translate_address-stale store p q o r v s lo lr =
    let counted : Vm = record v { total_cnt = add32 v.total_cnt 1 } in
    let frame : ℕ = v.next_available_frame % number_of_frames in
    let m : IsMapped store counted = record {
      in_frames = s.mapped.in_frames;
      handed_out = s.mapped.handed_out;
      own_frame = s.mapped.own_frame;
      loaded = s.mapped.loaded;
    } in
    let w : Vm = (miss store p counted).1 in
    let again : Vm = record w { total_cnt = add32 w.total_cnt 1 } in
    let absent : check_tlb p counted ≡ none = check_tlb-counted p _ v ∙ s.absent in
    let first_access : (translate_address store (p * page_size + o) v).1 ≡ w =
      ap (λ (t : ℕ × Vm). t.1) (translate_address-at store p o v s.p_page lo)
      ∙ ap (λ (t : ℕ × Vm). t.1) (find_frame-fault store p counted absent s.invalid) in
    let kept : check_tlb q again ≡ some frame =
      check_tlb-counted q _ w
      ∙ miss-keeps store p q counted m s.p_page s.full s.small s.invalid s.different s.slot
      ∙ check_tlb-counted q _ v
      ∙ s.hit in
    let second_access : translate_address store (q * page_size + r) w
        ≡ (get_physical_address frame r, again) =
      translate_address-at store q r w s.q_page lr
      ∙ ap (λ (t : ℕ × Vm). (get_physical_address t.0 r, t.1))
          (find_frame-hit store q frame again kept) in
    let at : get_physical_address frame r ≡ frame * page_size + r = omega arith in
    rw (first_access, second_access, at)
      (miss-loads store p q counted m s.p_page s.full s.small s.invalid r lr)
