-- ===== src/Allocator/Grant.antt =====
-- What `request_memory` of Project-7/memory_allocator.c promises its callers.
use learning_ei.Base.{
  ℕ, ◌-◌, ◌≤◌, ◌<◌, ◌≡◌, refl, ◌∙◌, ap, arith, true, Option, none, some, if◌then◌else◌, leb, inl,
  inr, Bool-cases,
}
use learning_ei.Base.Int.{ℤ, pos, negsuc}
use Prim.Native.String.{String}
use learning_ei.Allocator.{
  MemBlock, Memory, size_max, sub_size, hole_size, select_hole, request_memory,
}
use learning_ei.Allocator.Tiling.{Tiles, IsTiled, hole_size-eq}
use learning_ei.Allocator.Owner.{owner}
use learning_ei.Allocator.Select.{
  IsHole, First, missing, first, Best, kept, best, Worst, stayed, worst, first_fit-First,
}
use learning_ei.Allocator.Extreme.{best_fit-Best, worst_fit-Worst}
use learning_ei.Allocator.Request.{Tiles-at, owner-at, within, fill_at-IsFilled}

-- The strategies that the program knows.
pub data Strategy : Type 0 where
  first_strategy best_strategy worst_strategy : Strategy

abbrev pub char_of : Strategy → ℕ
char_of first_strategy = b'F'
char_of best_strategy = b'B'
char_of worst_strategy = b'W'

-- What each strategy prefers.
abbrev pub Prefers : Strategy → ℕ → Memory → ℕ → MemBlock → Type 0
Prefers first_strategy size mem k b = (j : ℕ) (d : MemBlock) → IsHole size mem j d → k ≤ j
Prefers best_strategy size mem k b =
    (j : ℕ) (d : MemBlock) → IsHole size mem j d → hole_size b ≤ hole_size d
Prefers worst_strategy size mem k b =
    (j : ℕ) (d : MemBlock) → IsHole size mem j d → hole_size d ≤ hole_size b

-- What a selection answers: the preferred hole, or that there is none.
pub data Selected (s : Strategy) (size : ℕ) (mem : Memory) (r : Option (Option ℕ)) : Type 0 where
  no_hole : ((j : ℕ) (b : MemBlock) → ¬ IsHole size mem j b) → r ≡ some none → Selected s size mem r
  hole :
      (k : ℕ) (b : MemBlock)
      → IsHole size mem k b
      → Prefers s size mem k b
      → r ≡ some (some k)
      → Selected s size mem r

-- No hole is larger than the memory.
hole_size-le :
    (mem : Memory) (total size j : ℕ) (b : MemBlock)
    → Tiles 0 mem total
    → total < size_max - 1
    → IsHole size mem j b
    → hole_size b < size_max - 1
hole_size-le mem total size j b t lt h =
    let (low, mid, high) = Tiles-at mem j 0 total b t (h.0) in omega (arith, hole_size-eq b mid)

select-First :
    (size : ℕ) (mem : Memory) {r : Option ℕ}
    → First size 0 mem r
    → Selected first_strategy size mem (some r)
select-First size mem (missing left e) = no_hole left (ap some e)
select-First size mem (first j b h before e) =
    hole j b h
      (λ k d hk. elim (Bool-cases (leb j k)) [
        | inl le ↦ ground arith
        | inr gt ↦ absurd (before k d (ground arith) hk)
      ])
      (ap some (e ∙ ap some (omega arith)))

select-Best :
    (size total : ℕ) (mem : Memory) {r : Option ℕ}
    → Tiles 0 mem total
    → total < size_max - 1
    → Best size (size_max - 1) 0 none mem r
    → Selected best_strategy size mem (some r)
select-Best size total mem t lt (kept low e) =
    no_hole (λ j b h. absurd (omega (arith, low j b h, hole_size-le mem total size j b t lt h)))
      (ap some e)
select-Best size total mem t lt (best j b h lower low e) =
    hole j b h low (ap some (e ∙ ap some (omega arith)))

select-Worst :
    (size : ℕ) (mem : Memory) {r : Option ℕ}
    → 0 < size
    → size < size_max
    → Worst (sub_size size 1) 0 none mem r
    → Selected worst_strategy size mem (some r)
select-Worst size mem ps small (stayed low e) =
    no_hole (λ j b (at, u, fits). absurd (omega (arith, low j b (at, u, omega arith)))) (ap some e)
select-Worst size mem ps small (worst j b (at, u, fits) above low e) =
    hole j b (at, u, omega arith) (λ k d (at', u', fits'). low k d (at', u', omega arith))
      (ap some (e ∙ ap some (omega arith)))

-- On a covered memory of fewer than 2^64 - 1 bytes, and for a size from 1 on and below 2^64, each of
-- the three strategies selects a hole with enough room exactly when there is one: `F` the first
-- such hole, `B` a smallest and `W` a largest.
pub select_hole-Selected :
    (s : Strategy) (size total : ℕ) (mem : Memory)
    → 0 < size
    → size < size_max
    → Tiles 0 mem total
    → total < size_max - 1
    → Selected s size mem (select_hole size (char_of s) mem)
unfolding select_hole
select_hole-Selected first_strategy size total mem ps small t lt =
    select-First size mem (first_fit-First size 0 mem)
select_hole-Selected best_strategy size total mem ps small t lt =
    select-Best size total mem t lt (best_fit-Best size (size_max - 1) 0 none mem)
select_hole-Selected worst_strategy size total mem ps small t lt =
    select-Worst size mem ps small (worst_fit-Worst (sub_size size 1) 0 none mem)

-- What `request_memory` answers.
pub data Answer (s : Strategy) (name : String) (size total : ℕ) (mem : Memory) (r : ℤ × Memory)
    : Type 0 where
  refused :
      ((j : ℕ) (b : MemBlock) → ¬ IsHole size mem j b)
      → r ≡ (negsuc 1, mem)
      → Answer s name size total mem r
  granted :
      (k : ℕ) (b : MemBlock) (mem' : Memory)
      → IsHole size mem k b
      → Prefers s size mem k b
      → IsTiled total mem'
      → ((a : ℕ) → within b.lo size a ≡ true → owner mem a ≡ none)
      → ((a : ℕ) → owner mem' a ≡ (if within b.lo size a then some name else owner mem a))
      → r ≡ (pos 0, mem')
      → Answer s name size total mem r

hole-free :
    (mem : Memory) (total size k a : ℕ) (b : MemBlock)
    → IsTiled total mem
    → IsHole size mem k b
    → within b.lo size a ≡ true
    → owner mem a ≡ none
hole-free mem total size k a b v (at, u, fits) h =
    let (low, mid, high) = Tiles-at mem k 0 total b v.tiles at in
    let small = v.small in
    owner-at mem k 0 total a b v.tiles at (ground (arith, hole_size-eq b mid)) ∙ ground arith

-- With a known strategy and a size from 1 on and below 2^64, a covered memory of fewer than 2^64 - 1
-- bytes without a large enough hole refuses with -2 and stays as it is; any other hands out the
-- first `size` addresses of the strategy's preferred hole, which nobody owned, changes no other
-- owner, and stays covered.
pub request_memory-Answer :
    (s : Strategy) (name : String) (size total : ℕ) (mem : Memory)
    → 0 < size
    → size < size_max
    → IsTiled total mem
    → total < size_max - 1
    → Answer s name size total mem (request_memory name size (char_of s) mem)
unfolding request_memory
request_memory-Answer s name size total mem ps small v lt =
    elim (select_hole-Selected s size total mem ps small v.tiles lt) [
      | no_hole left e ↦ refused left (rw (e, request_memory) refl)
      | hole k b h better e ↦
          let (mem', filled, f) = fill_at-IsFilled name size mem k 0 total b ps v.small v.tiles h in
          granted k b mem' h better (record { tiles = f.tiles; small = v.small })
            (λ a. hole-free mem total size k a b v h) f.owns (rw (e, request_memory, filled) refl)
    ]
