-- ===== src/Allocator/Owner.antt =====
-- The abstract view of the memory of Project-7/memory_allocator.c: who owns each address.
use learning_ei.Base.{
  ℕ, ◌+◌, ◌<◌, ◌≡◌, refl, arith, Bool, List, [], ◌∷◌, Option, none, if◌then◌else◌, ltb, leb, ◌&&◌,
}
use Prim.Native.String.{String}
use learning_ei.Allocator.{MemBlock, Memory, unwind}
use learning_ei.Allocator.Tiling.{Tiles, TilesBack}

abbrev pub holds : MemBlock → ℕ → Bool
holds b a = leb b.lo a && leb a b.hi

-- The process that owns address `a`.
unfoldable pub owner : Memory → ℕ → Option String
owner [] a = none
owner (b ∷ rest) a = if holds b a then b.name else owner rest a

pub owner-cons :
    (b : MemBlock) (rest : Memory) (a : ℕ)
    → owner (b ∷ rest) a ≡ (if holds b a then b.name else owner rest a)
unfolding owner
owner-cons b rest a = refl

pub owner-below :
    (lo : ℕ) (mem : Memory) (end a : ℕ) → Tiles lo mem end → a < lo → owner mem a ≡ none
unfolding owner
owner-below lo [] end a t h = refl
owner-below lo (b ∷ rest) end a t h = ground (arith, owner-below (b.hi + 1) rest end a t.2)

-- Below `mid` the blocks before it decide, above it the blocks behind it.
pub owner-unwind :
    (before : List MemBlock) (mid : ℕ) (rest : Memory) (end a : ℕ)
    → TilesBack before mid
    → Tiles mid rest end
    → owner (unwind before rest) a ≡ (if ltb a mid then owner before a else owner rest a)
unfolding owner unwind
owner-unwind [] mid rest end a b t = ground arith
owner-unwind (p ∷ before) mid rest end a b t =
    ground (arith, owner-unwind before p.lo (p ∷ rest) end a b.2)
