-- ===== src/Allocator/Select.antt =====
-- Which hole the three strategies of Project-7/memory_allocator.c select.
use learning_ei.Base.{
  ℕ, zero, suc, ◌+◌, ◌≤◌, ◌<◌, ◌≡◌, refl, ◌∙◌, ap, arith, true, [], ◌∷◌, Option, none, some,
  get_elem?, leb, ◌&&◌, inl, inr, Bool-cases,
}
use learning_ei.Allocator.{MemBlock, Memory, is_unused, hole_size, first_fit}

-- Block `b` stands at index `j`, is unused, and has room for `size` bytes.
abbrev pub IsHole : ℕ → Memory → ℕ → MemBlock → Type 0
IsHole size mem j b = (get_elem? mem j ≡ some b) × (is_unused b ≡ true) × (size ≤ hole_size b)

-- How `first_fit` ends: no hole, or the first one.
pub data First (size i : ℕ) (mem : Memory) (r : Option ℕ) : Type 0 where
  missing : ((j : ℕ) (b : MemBlock) → ¬ IsHole size mem j b) → r ≡ none → First size i mem r
  first :
      (j : ℕ) (b : MemBlock)
      → IsHole size mem j b
      → ((k : ℕ) (d : MemBlock) → k < j → ¬ IsHole size mem k d)
      → r ≡ some (i + j)
      → First size i mem r

-- How `best_fit` ends: it keeps its hole, where no other is smaller than `m`, or takes a smallest.
pub data Best (size m i : ℕ) (hole : Option ℕ) (mem : Memory) (r : Option ℕ) : Type 0 where
  kept :
      ((j : ℕ) (b : MemBlock) → IsHole size mem j b → m ≤ hole_size b)
      → r ≡ hole
      → Best size m i hole mem r
  best :
      (j : ℕ) (b : MemBlock)
      → IsHole size mem j b
      → hole_size b < m
      → ((k : ℕ) (d : MemBlock) → IsHole size mem k d → hole_size b ≤ hole_size d)
      → r ≡ some (i + j)
      → Best size m i hole mem r

-- How `worst_fit` ends: it keeps its hole, where no other is larger than `m`, or takes a largest.
pub data Worst (m i : ℕ) (hole : Option ℕ) (mem : Memory) (r : Option ℕ) : Type 0 where
  stayed :
      ((j : ℕ) (b : MemBlock) → IsHole 0 mem j b → hole_size b ≤ m)
      → r ≡ hole
      → Worst m i hole mem r
  worst :
      (j : ℕ) (b : MemBlock)
      → IsHole 0 mem j b
      → m < hole_size b
      → ((k : ℕ) (d : MemBlock) → IsHole 0 mem k d → hole_size d ≤ hole_size b)
      → r ≡ some (i + j)
      → Worst m i hole mem r

-- The same entry, seen from one block further on.
pub head-eq : {b d : MemBlock} (rest : Memory) → get_elem? (b ∷ rest) 0 ≡ some d → b ≡ d
head-eq rest e = cc

First-here :
    (size i : ℕ) (b : MemBlock) (rest : Memory)
    → is_unused b ≡ true
    → size ≤ hole_size b
    → First size i (b ∷ rest) (some i)
First-here size i b rest u le =
    first 0 b (refl, u, le) (λ k d lt. absurd (omega arith)) (ap some (omega arith))

First-later :
    (size i : ℕ) (b : MemBlock) (rest : Memory) {r : Option ℕ}
    → ¬ ((is_unused b ≡ true) × (size ≤ hole_size b))
    → First size (i + 1) rest r
    → First size i (b ∷ rest) r
First-later size i b rest not_b (missing none_left e) = missing step e
  where
    step : (j : ℕ) (d : MemBlock) → ¬ IsHole size (b ∷ rest) j d
    step zero d (at, u, le) = let same = head-eq rest at in not_b (rw same (u, le))
    step (suc j) d h = none_left j d h
First-later size i b rest not_b (first j d h before e) =
    first (suc j) d h step (e ∙ ap some (omega arith))
  where
    step : (k : ℕ) (d' : MemBlock) → k < suc j → ¬ IsHole size (b ∷ rest) k d'
    step zero d' lt (at, u, le) = let same = head-eq rest at in not_b (rw same (u, le))
    step (suc k) d' lt hk = before k d' (omega arith) hk

pub first_fit-First : (size i : ℕ) (mem : Memory) → First size i mem (first_fit size i mem)
unfolding first_fit
first_fit-First size i [] = missing (λ j b h. cc (h.0)) refl
first_fit-First size i (b ∷ rest) = elim (Bool-cases (is_unused b && leb size (hole_size b))) [
  | inl ok ↦ rw ok (First-here size i b rest (ground arith) (ground arith))
  | inr bad ↦
      rw bad (First-later size i b rest (λ h. ground arith) (first_fit-First size (i + 1) rest))
]
