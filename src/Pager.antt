-- ===== src/Pager.antt =====
-- Project-8/vm_manager.c: virtual addresses through a TLB and a page table, with pages loaded on
-- demand. The arrays are functions of the index, a `uint32_t` is a number below 2^32, and the
-- backing file is the parameter `store`, its byte at each offset.
pub mod Coherent
pub mod Victim
pub mod Lookup
pub mod Fault
pub mod Translate
pub mod Stale
pub mod Session
mod Tests
use learning_ei.Base.{
  ℕ, zero, suc, ◌+◌, ◌-◌, ◌*◌, ◌/◌, ◌%◌, ◌^◌, Bool, true, false, ◌&&◌, Option, none, some, ltb, leb,
  ◌==◌, if◌then◌else◌,
}
use learning_ei.Base.Int.{ℤ}
use learning_ei.Base.Arrays.{update}

abbrev pub page_size : ℕ
page_size = 2 ^ 8

abbrev pub number_of_pages : ℕ
number_of_pages = 2 ^ 8

abbrev pub number_of_frames : ℕ
number_of_frames = 2 ^ 7

abbrev pub tlb_size : ℕ
tlb_size = 16

-- `uint32_t` addition.
abbrev pub add32 : ℕ → ℕ → ℕ
add32 a b = (a + b) % 2 ^ 32

-- `(address & (2^16 - 2^8)) >> 8`
abbrev pub get_page_number : ℕ → ℕ
get_page_number address = address / 2 ^ 8 % 2 ^ 8

-- `address & (2^8 - 1)`
abbrev pub get_offset : ℕ → ℕ
get_offset address = address % 2 ^ 8

-- `(frame_number << 8) | offset`, for an offset below 2^8
abbrev pub get_physical_address : ℕ → ℕ → ℕ
get_physical_address frame_number offset = frame_number * 2 ^ 8 % 2 ^ 32 + offset

pub record Pair : Type 0 where
  pub valid : Bool
  pub page : ℕ
  pub frame : ℕ

pub record Vm : Type 0 where
  pub tlb : ℕ → Pair
  pub memory : ℕ → ℤ
  pub page_table : ℕ → ℕ
  pub page_valid : ℕ → Bool
  pub next_available_frame : ℕ
  pub next_available_tlb : ℕ
  pub total_cnt : ℕ
  pub page_fault_cnt : ℕ
  pub tlb_miss_cnt : ℕ

-- The loop of `select_victim_frame` from page `i`, with `k` pages left: it invalidates the first
-- page in frame `victim`.
pub invalidate_from : ℕ → ℕ → ℕ → (ℕ → ℕ) → (ℕ → Bool) → ℕ → Bool
invalidate_from zero i victim page_table page_valid = page_valid
invalidate_from (suc k) i victim page_table page_valid =
    let rest = invalidate_from k (i + 1) victim page_table page_valid in
    if page_valid i && (page_table i == victim) then update page_valid i false else rest

pub select_victim_frame : Vm → ℕ × Vm
select_victim_frame v =
    let next = v.next_available_frame in
    if ltb next number_of_frames
    then (next, record v { next_available_frame = add32 next 1 })
    else (
      next % number_of_frames,
      record v {
        next_available_frame = add32 next 1;
        page_valid =
            invalidate_from number_of_pages 0 (next % number_of_frames) v.page_table v.page_valid;
      },
    )

-- What `fseek` and `fread` leave in memory: `page_size` bytes of the file, from offset `from` on, at
-- address `to`.
abbrev pub read_page : (ℕ → ℤ) → ℕ → ℕ → (ℕ → ℤ) → ℕ → ℤ
read_page store from to memory a =
    if leb to a && ltb a (to + page_size) then store (from + (a - to)) else memory a

pub handle_page_fault : (ℕ → ℤ) → ℕ → Vm → Vm
handle_page_fault store page_number v =
    let (frame, v') = select_victim_frame v in
    record v' {
      page_table = update v'.page_table page_number frame;
      memory = read_page store (page_number * page_size) (frame * page_size) v'.memory;
      page_valid = update v'.page_valid page_number true;
      page_fault_cnt = add32 v'.page_fault_cnt 1;
    }

-- The loop of `check_TLB` from entry `i`, with `k` entries left: the frame of the first hit.
pub check_from : ℕ → ℕ → ℕ → (ℕ → Pair) → Option ℕ
check_from zero i page_number tlb = none
check_from (suc k) i page_number tlb =
    let rest = check_from k (i + 1) page_number tlb in
    if (tlb i).valid && ((tlb i).page == page_number) then some (tlb i).frame else rest

pub check_tlb : ℕ → Vm → Option ℕ
check_tlb page_number v = check_from tlb_size 0 page_number v.tlb

pub update_tlb : ℕ → ℕ → Vm → Vm
update_tlb page_number frame_number v = record v {
  next_available_tlb = add32 v.next_available_tlb 1 % tlb_size;
  tlb =
      update v.tlb (v.next_available_tlb % tlb_size)
        (record { valid = true; page = page_number; frame = frame_number });
}

-- The branch of a TLB miss.
pub load_page : (ℕ → ℤ) → ℕ → Vm → Vm
load_page store page_number v =
    if v.page_valid page_number then v else handle_page_fault store page_number v

pub miss : (ℕ → ℤ) → ℕ → Vm → ℕ × Vm
miss store page_number v =
    let v' = load_page store page_number (record v { tlb_miss_cnt = add32 v.tlb_miss_cnt 1 }) in
    let frame = v'.page_table page_number in (frame, update_tlb page_number frame v')

pub find_frame : (ℕ → ℤ) → ℕ → Vm → ℕ × Vm
find_frame store page_number v = elim (check_tlb page_number v) [
  | some frame ↦ (frame, v)
  | none ↦ miss store page_number v
]

pub translate_address : (ℕ → ℤ) → ℕ → Vm → ℕ × Vm
translate_address store logical v =
    let (frame, v') =
      find_frame store (get_page_number logical) (record v { total_cnt = add32 v.total_cnt 1 }) in
    (get_physical_address frame (get_offset logical), v')

pub access_memory : ℕ → Vm → ℤ
access_memory physical v = v.memory physical
