-- ===== src/Allocator/Zero.antt =====
-- The one request of Project-7/memory_allocator.c that breaks the memory: for 0 bytes.
use learning_ei.Base.{
  ℕ, zero, suc, ◌+◌, ◌≤◌, ◌<◌, ◌≡◌, ap, sym, ◌∙◌, arith, [], ◌∷◌, some, inl, inr, Bool-cases, subst,
  Option-cases,
}
use learning_ei.Base.Int.{pos}
use Prim.Native.String.{String}
use learning_ei.Allocator.{
  MemBlock, Memory, size_max, is_unused, make_block, fill, fill_at, select_hole, request_memory,
}
use learning_ei.Allocator.Tiling.{Tiles, IsTiled, hole_size-eq, Tiles-le}

fill_zero :
    (name : String) (b : MemBlock) (rest : Memory) (end : ℕ)
    → b.lo ≤ b.hi
    → Tiles (b.hi + 1) rest end
    → end < size_max
    → ¬ Tiles b.lo (fill name 0 b rest) end
unfolding fill make_block
fill_zero name b rest end le t small bad =
    let high = Tiles-le (b.hi + 1) rest end t in ground (arith, hole_size-eq b le)

fill_at_zero :
    (name : String) (mem mem' : Memory) (k lo end : ℕ)
    → end < size_max
    → Tiles lo mem end
    → fill_at name 0 k mem ≡ some mem'
    → ¬ Tiles lo mem' end
unfolding fill_at
fill_at_zero name [] mem' k lo end small t e bad = cc
fill_at_zero name (b ∷ rest) mem' zero lo end small t e bad = elim (Bool-cases (is_unused b)) [
  | inl u ↦
      let now : mem' ≡ fill name 0 b rest = ground arith in
      let bad' : Tiles b.lo (fill name 0 b rest) end =
        subst (λ (n : ℕ). Tiles n (fill name 0 b rest) end) (sym (t.0)) (rw now at bad) in
      fill_zero name b rest end t.1 t.2 small bad'
  | inr used ↦ absurd (ground arith)
]
fill_at_zero name (b ∷ rest) mem' (suc k) lo end small t e bad =
    elim (Option-cases (fill_at name 0 k rest)) [
      | inl fault ↦ cc (rw (fault, fill_at) at e)
      | inr (rest', ok) ↦
          let now : mem' ≡ b ∷ rest' = cc (rw (ok, fill_at) at e) in
          let bad' : Tiles lo (b ∷ rest') end = rw now at bad in
          fill_at_zero name rest rest' k (b.hi + 1) end small t.2 ok bad'.2
    ]

-- On a covered memory, a request for 0 bytes that succeeds leaves a memory that its blocks no longer
-- cover.
pub request_memory-zero :
    (name : String) (strategy total : ℕ) (mem mem' : Memory)
    → IsTiled total mem
    → request_memory name 0 strategy mem ≡ (pos 0, mem')
    → ¬ IsTiled total mem'
unfolding request_memory
request_memory-zero name strategy total mem mem' v e bad =
    elim (Option-cases (select_hole 0 strategy mem)) [
      | inl unknown ↦ cc (rw (unknown, request_memory) at e)
      | inr (found, s) ↦ elim (Option-cases found) [
        | inl full ↦ cc (rw (s, full, request_memory) at e)
        | inr (k, at) ↦ elim (Option-cases (fill_at name 0 k mem)) [
          | inl used ↦ cc (rw (s, at, used, request_memory) at e)
          | inr (now, filled) ↦
              let same : now ≡ mem' = cc (rw (s, at, filled, request_memory) at e) in
              fill_at_zero name mem mem' k 0 total v.small v.tiles (filled ∙ ap some same) bad.tiles
        ]
      ]
    ]
