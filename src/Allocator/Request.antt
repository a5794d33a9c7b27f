-- ===== src/Allocator/Request.antt =====
-- `request_memory` of Project-7/memory_allocator.c: when it succeeds, and what it hands out.
use learning_ei.Base.{
  ℕ, zero, suc, ◌+◌, ◌≤◌, ◌<◌, ◌≡◌, refl, arith, Bool, true, [], ◌∷◌, some, get_elem?,
  if◌then◌else◌, ltb, leb, ◌&&◌, subst,
}
use Prim.Native.String.{String}
use learning_ei.Allocator.{
  MemBlock, Memory, size_max, is_unused, hole_size, make_block, fill, fill_at,
}
use learning_ei.Allocator.Tiling.{Tiles, Tiles-le, hole_size-eq}
use learning_ei.Allocator.Owner.{holds, owner, owner-cons}
use learning_ei.Allocator.Select.{IsHole}

-- A block lies inside what its memory covers.
pub Tiles-at :
    (mem : Memory) (k lo end : ℕ) (b : MemBlock)
    → Tiles lo mem end
    → get_elem? mem k ≡ some b
    → (lo ≤ b.lo) × (b.lo ≤ b.hi) × (b.hi + 1 ≤ end)
Tiles-at [] k lo end b t e = cc
Tiles-at (d ∷ rest) zero lo end b t e =
    let same : d ≡ b = cc in rw (← same) (omega arith, t.1, Tiles-le (d.hi + 1) rest end t.2)
Tiles-at (d ∷ rest) (suc k) lo end b t e =
    let (low, mid, high) = Tiles-at rest k (d.hi + 1) end b t.2 e in (omega arith, mid, high)

-- A block owns its addresses.
pub owner-at :
    (mem : Memory) (k lo end a : ℕ) (b : MemBlock)
    → Tiles lo mem end
    → get_elem? mem k ≡ some b
    → holds b a ≡ true
    → owner mem a ≡ b.name
owner-at [] k lo end a b t e h = cc
owner-at (d ∷ rest) zero lo end a b t e h = ground (arith, owner-cons d rest a)
owner-at (d ∷ rest) (suc k) lo end a b t e h = ground (
  arith,
  owner-cons d rest a,
  owner-at rest k (d.hi + 1) end a b t.2 e h,
  Tiles-at rest k (d.hi + 1) end b t.2 e,
)

-- `lo <= a < lo + size`.
abbrev pub within : ℕ → ℕ → ℕ → Bool
within lo size a = leb lo a && ltb a (lo + size)

fill-Tiles :
    (name : String) (size : ℕ) (b : MemBlock) (rest : Memory) (end : ℕ)
    → 0 < size
    → size ≤ hole_size b
    → b.lo ≤ b.hi
    → Tiles (b.hi + 1) rest end
    → end < size_max
    → Tiles b.lo (fill name size b rest) end
unfolding fill make_block
fill-Tiles name size b rest end pos_size fits le t small =
    let high = Tiles-le (b.hi + 1) rest end t in ground (arith, hole_size-eq b le)

owner-fill :
    (name : String) (size : ℕ) (b : MemBlock) (rest : Memory) (end a : ℕ)
    → 0 < size
    → size ≤ hole_size b
    → is_unused b ≡ true
    → b.lo ≤ b.hi
    → Tiles (b.hi + 1) rest end
    → end < size_max
    → owner (fill name size b rest) a
      ≡ (if within b.lo size a then some name else owner (b ∷ rest) a)
unfolding fill make_block owner
owner-fill name size b rest end a pos_size fits unused le t small =
    let high = Tiles-le (b.hi + 1) rest end t in ground (arith, hole_size-eq b le)

-- What filling the hole `b` at index `k` makes of a memory.
pub record IsFilled (name : String) (size lo end : ℕ) (b : MemBlock) (mem mem' : Memory)
    : Type 0 where
  pub tiles : Tiles lo mem' end
  pub owns : (a : ℕ) → owner mem' a ≡ (if within b.lo size a then some name else owner mem a)

pub fill_at-IsFilled :
    (name : String) (size : ℕ) (mem : Memory) (k lo end : ℕ) (b : MemBlock)
    → 0 < size
    → end < size_max
    → Tiles lo mem end
    → IsHole size mem k b
    → (mem' : Memory) × (fill_at name size k mem ≡ some mem') × IsFilled name size lo end b mem mem'
unfolding fill_at
fill_at-IsFilled name size [] k lo end b ps small t h = cc (h.0)
fill_at-IsFilled name size (d ∷ rest) zero lo end b ps small t (at, u, fits) =
    let same : d ≡ b = cc in
    let u' : is_unused d ≡ true = rw same u in
    let fits' : size ≤ hole_size d = rw same fits in
    (
      fill name size d rest,
      ground (arith, u'),
      record {
        tiles =
            subst (λ (n : ℕ). Tiles n (fill name size d rest) end) (t.0)
              (fill-Tiles name size d rest end ps fits' t.1 t.2 small);
        owns = λ a. rw (← same) (owner-fill name size d rest end a ps fits' u' t.1 t.2 small);
      },
    )
fill_at-IsFilled name size (d ∷ rest) (suc k) lo end b ps small t (at, u, fits) =
    let (rest', e, f) =
      fill_at-IsFilled name size rest k (d.hi + 1) end b ps small t.2 (at, u, fits) in
    let beyond = Tiles-at rest k (d.hi + 1) end b t.2 at in
    (
      d ∷ rest',
      rw e refl,
      record {
        tiles = (t.0, t.1, f.tiles);
        owns = λ a. ground (arith, owner-cons d rest a, owner-cons d rest' a, f.owns a, beyond);
      },
    )
