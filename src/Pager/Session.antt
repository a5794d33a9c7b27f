-- ===== src/Pager/Session.antt =====
-- `init` and `main` of Project-8/vm_manager.c: the addresses of the input file, one after the other.
use learning_ei.Base.{
  ℕ, ◌+◌, ◌%◌, ◌^◌, ◌<◌, ◌≡◌, refl, Bool, true, false, List, [], ◌∷◌, ◌==◌, if◌then◌else◌,
}
use learning_ei.Base.Int.{ℤ, pos, negsuc}
use learning_ei.Pager.{Vm, translate_address, access_memory, get_page_number}
use learning_ei.Pager.Coherent.{IsCoherent}
use learning_ei.Pager.Translate.{IsHarmless, translate_address-reads}

-- The global variables before `main`.
abbrev pub blank : Vm
blank = record {
  tlb = λ i. record { valid = false; page = 0; frame = 0 };
  memory = λ a. pos 0;
  page_table = λ p. 0;
  page_valid = λ p. false;
  next_available_frame = 0;
  next_available_tlb = 0;
  total_cnt = 0;
  page_fault_cnt = 0;
  tlb_miss_cnt = 0;
}

-- `backing` and `input` say whether `fopen` opens the two files.
unfoldable pub init : ℕ → Bool → Bool → Vm → ℤ × Vm
init argc backing input v =
    if argc == 2
    then if backing
      then if input
        then (
          pos 0,
          record v { page_valid = λ p. false; next_available_frame = 0; next_available_tlb = 0 },
        )
        else (negsuc 2, v)
      else (negsuc 1, v)
    else (negsuc 0, v)

-- A line of the output.
pub record Line : Type 0 where
  pub logical : ℕ
  pub physical : ℕ
  pub value : ℤ

unfoldable pub run : (ℕ → ℤ) → List ℕ → Vm → List Line × Vm
run store [] v = ([], v)
run store (logical ∷ rest) v =
    let (physical, v') = translate_address store logical v in
    let (lines, last) = run store rest v' in
    (
      record { logical = logical; physical = physical; value = access_memory physical v' } ∷ lines,
      last,
    )

init-IsCoherent : (store : ℕ → ℤ) → IsCoherent store (init 2 true true blank).1
unfolding init
init-IsCoherent store = record {
  mapped = record {
    in_frames = λ p lt h. cc;
    handed_out = λ p lt h. cc;
    own_frame = λ p q lp lq h k e. cc;
    loaded = λ p o lt lo h. cc;
  };
  faithful = λ i lt h. cc;
}

-- Every access of the run is harmless, and the frame counter does not wrap.
abbrev pub AllHarmless : (ℕ → ℤ) → List ℕ → Vm → Type 0
AllHarmless store [] v = Unit {0}
AllHarmless store (logical ∷ rest) v =
    (v.next_available_frame + 1 < 2 ^ 32)
    × IsHarmless (get_page_number logical) v
    × AllHarmless store rest (translate_address store logical v).1

-- The lines are for the addresses in order, each with the byte that the backing file holds there.
abbrev pub AllRead : (ℕ → ℤ) → List ℕ → List Line → Type 0
AllRead store [] [] = Unit {0}
AllRead store (a ∷ rest) (line ∷ lines) =
    (line.logical ≡ a) × (line.value ≡ store (a % 2 ^ 16)) × AllRead store rest lines
AllRead store _ _ = ⊥

run-AllRead :
    (store : ℕ → ℤ) (addresses : List ℕ) (v : Vm)
    → IsCoherent store v
    → AllHarmless store addresses v
    → AllRead store addresses (run store addresses v).0
unfolding run
run-AllRead store [] v c h = tt
run-AllRead store (logical ∷ rest) v c h =
    let (reads, c') = translate_address-reads store logical v c h.0 h.1 in
    (refl, reads, run-AllRead store rest (translate_address store logical v).1 c' h.2)

-- After a successful `init`, a run whose accesses are all harmless (none that faults takes a frame
-- that the TLB has an entry for) and in which the frame counter does not wrap prints for every
-- address the byte that the backing file holds there.
pub run-reads :
    (store : ℕ → ℤ) (addresses : List ℕ)
    → AllHarmless store addresses (init 2 true true blank).1
    → AllRead store addresses (run store addresses (init 2 true true blank).1).0
run-reads store addresses h =
    run-AllRead store addresses (init 2 true true blank).1 (init-IsCoherent store) h
