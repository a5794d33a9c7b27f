-- ===== src/Allocator/Tiling.antt =====
-- The blocks of Project-7/memory_allocator.c cover the memory without a gap or an overlap.
use learning_ei.Base.{ℕ, ◌+◌, ◌-◌, ◌≤◌, ◌<◌, ◌≡◌, refl, arith, List, [], ◌∷◌}
use learning_ei.Allocator.{MemBlock, Memory, size_max, hole_size, unwind}

-- The blocks lie one behind the other from address `lo` up to `end`, none of them empty.
abbrev pub Tiles : ℕ → Memory → ℕ → Type 0
Tiles lo [] end = lo ≡ end
Tiles lo (b ∷ rest) end = (b.lo ≡ lo) × (b.lo ≤ b.hi) × Tiles (b.hi + 1) rest end

-- The same of blocks in front of address `end`, nearest first, down to address 0.
abbrev pub TilesBack : List MemBlock → ℕ → Type 0
TilesBack [] end = end ≡ 0
TilesBack (p ∷ before) end = (p.hi + 1 ≡ end) × (p.lo ≤ p.hi) × TilesBack before p.lo

-- The memory of `size` bytes is covered, and its addresses are of type `size_t`.
pub record IsTiled (size : ℕ) (mem : Memory) : Type 0 where
  pub tiles : Tiles 0 mem size
  pub small : size < size_max

pub Tiles-le : (lo : ℕ) (mem : Memory) (end : ℕ) → Tiles lo mem end → lo ≤ end
Tiles-le lo [] end t = omega arith
Tiles-le lo (b ∷ rest) end t = omega (arith, Tiles-le (b.hi + 1) rest end t.2)

pub Tiles-unwind :
    (before : List MemBlock) (mid : ℕ) (rest : Memory) (end : ℕ)
    → TilesBack before mid
    → Tiles mid rest end
    → Tiles 0 (unwind before rest) end
unfolding unwind
Tiles-unwind [] mid rest end b t = rw b at t
Tiles-unwind (p ∷ before) mid rest end b t =
    Tiles-unwind before p.lo (p ∷ rest) end b.2 (refl, b.1, rw (b.0) t)

-- The size of a block is what the code computes, and no sum wraps.
pub hole_size-eq :
    (b : MemBlock) → b.lo ≤ b.hi → b.hi + 1 < size_max → hole_size b ≡ b.hi + 1 - b.lo
unfolding hole_size
hole_size-eq b le lt = omega arith
