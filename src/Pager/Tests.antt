-- ===== src/Pager/Tests.antt =====
-- The virtual memory manager at small inputs: tests, and the theorems at concrete inputs.
use learning_ei.Base.{
  ℕ, zero, suc, ◌+◌, ◌*◌, ◌%◌, ◌^◌, ◌≡◌, refl, arith, true, List, [], ◌∷◌, ◌++◌, ltb, ◌==◌,
}
use learning_ei.Base.Int.{ℤ, pos}
use learning_ei.Pager.{
  Vm, page_size, invalidate_from, select_victim_frame, handle_page_fault, check_from, check_tlb,
  update_tlb, load_page, miss, find_frame, translate_address, access_memory,
}
use learning_ei.Pager.Coherent.{IsMapped, IsCoherent}
use learning_ei.Pager.Translate.{translate_address-reads}
use learning_ei.Pager.Stale.{IsAboutToStale, translate_address-stale}
use learning_ei.Pager.Session.{blank, init, run, Line, AllHarmless, AllRead, run-reads}

-- A backing file whose byte at each offset is the offset.
abbrev store : ℕ → ℤ
store a = pos a

program : Unit {0}
unfolding invalidate_from select_victim_frame handle_page_fault check_from check_tlb update_tlb
    load_page miss find_frame translate_address access_memory init run
program = tt

abbrev start : Vm
unfolding init
start = (init 2 true true blank).1

abbrev line : ℕ → ℕ → ℕ → Line
line logical physical value = record { logical = logical; physical = physical; value = pos value }

-- The first addresses of addresses.txt: the physical addresses are those of correct.txt.
run_starts :
    (run store (16916 ∷ 62493 ∷ 30198 ∷ 16917 ∷ []) (init 2 true true blank).1).0
    ≡ line 16916 20 16916 ∷ line 62493 285 62493 ∷ line 30198 758 30198 ∷ line 16917 21 16917 ∷ []
unfolding program
run_starts = refl

-- `256 * i` for `n` pages from page `i` on.
abbrev pages_from : ℕ → ℕ → List ℕ
pages_from zero i = []
pages_from (suc n) i = i * 256 ∷ pages_from n (i + 1)

abbrev last_value : List Line → ℤ
last_value [] = pos 0
last_value (l ∷ []) = l.value
last_value (l ∷ k ∷ rest) = last_value (k ∷ rest)

-- Pages 0 to 127 fill the memory; page 0 enters the TLB again; page 128 takes its frame; then address
-- 0 reads the byte of page 128.
stale_run :
    last_value (run store (pages_from 128 0 ++ 0 ∷ 32768 ∷ 0 ∷ []) (init 2 true true blank).1).0
    ≡ pos 32768
unfolding program
stale_run = refl

harmless : AllHarmless store (16916 ∷ 62493 ∷ []) (init 2 true true blank).1
unfolding program
harmless = (
  omega arith,
  λ _ _ full. absurd (omega arith),
  (omega arith, λ _ _ full. absurd (omega arith), tt),
)

run-reads_example :
    AllRead store (16916 ∷ 62493 ∷ []) (run store (16916 ∷ 62493 ∷ []) (init 2 true true blank).1).0
run-reads_example = run-reads store (16916 ∷ 62493 ∷ []) harmless

-- All 128 frames are handed out, page `p` in frame `p`; the TLB has page 0.
abbrev crowded : Vm
crowded = record {
  tlb = λ i. record { valid = i == 0; page = i; frame = 0 };
  memory = store;
  page_table = λ p. p;
  page_valid = λ p. ltb p 128;
  next_available_frame = 128;
  next_available_tlb = 1;
  total_cnt = 129;
  page_fault_cnt = 128;
  tlb_miss_cnt = 129;
}

crowded-IsMapped : IsMapped store crowded
crowded-IsMapped = record {
  in_frames = λ p lt h. ground arith;
  handed_out = λ p lt h. ground arith;
  own_frame = λ p q lp lq h k e. e;
  loaded = λ p o lt lo h. refl;
}

translate_address-reads_example :
    let (physical, v') = translate_address store 1027 crowded in
    (access_memory physical v' ≡ store (1027 % 2 ^ 16)) × IsCoherent store v'
translate_address-reads_example =
    translate_address-reads store 1027 crowded
      (record {
        mapped = crowded-IsMapped;
        faithful = λ i lt h. (omega arith, ground arith, ground arith);
      })
      (omega arith) (λ _ invalid. cc)

crowded-stale : IsAboutToStale store 128 0 crowded
unfolding program
crowded-stale = record {
  mapped = crowded-IsMapped;
  full = omega arith;
  small = omega arith;
  p_page = omega arith;
  q_page = omega arith;
  different = omega arith;
  absent = refl;
  invalid = refl;
  hit = refl;
  slot = omega arith;
}

translate_address-stale_example :
    let v' = (translate_address store (128 * page_size + 7) crowded).1 in
    let (physical, v'') = translate_address store (0 * page_size + 5) v' in
    access_memory physical v'' ≡ store (128 * page_size + 5)
translate_address-stale_example =
    translate_address-stale store 128 0 7 5 crowded crowded-stale (omega arith) (omega arith)
