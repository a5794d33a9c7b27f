-- ===== src/Allocator/Compact.antt =====
-- `compact_memory` of Project-7/memory_allocator.c: what it moves and what it keeps.
use learning_ei.Base.{
  ℕ, ◌+◌, ◌-◌, ◌≤◌, ◌<◌, ◌≡◌, refl, ◌∙◌, arith, true, false, List, [], ◌∷◌, none, some, inl, inr,
  Bool-cases,
}
use Prim.Native.String.{String}
use learning_ei.Allocator.{
  MemBlock, Memory, size_max, is_unused, unwind, exchange, swap_back, merge_kept, compact_from,
  compact_memory,
}
use learning_ei.Allocator.Tiling.{Tiles, TilesBack, IsTiled, Tiles-le, Tiles-unwind}
use learning_ei.Allocator.Spacing.{Apart, IsSpaced}

-- The processes in the order of their addresses, each with the size of its block.
abbrev pub Entries : Type 0
Entries = List (String × ℕ)

abbrev pub entry_onto : MemBlock → Entries → Entries
entry_onto b later = elim b.name [ none ↦ later | some n ↦ (n, b.hi + 1 - b.lo) ∷ later ]

unfoldable pub entries : Memory → Entries
entries [] = []
entries (b ∷ rest) = entry_onto b (entries rest)

entries_onto : List MemBlock → Entries → Entries
entries_onto [] later = later
entries_onto (p ∷ before) later = entries_onto before (entry_onto p later)

entries-unwind :
    (before : List MemBlock) (rest : Memory)
    → entries (unwind before rest) ≡ entries_onto before (entries rest)
unfolding entries entries_onto unwind
entries-unwind [] rest = refl
entries-unwind (p ∷ before) rest = entries-unwind before (p ∷ rest)

abbrev pub AllUsed : List MemBlock → Type 0
AllUsed [] = Unit {0}
AllUsed (b ∷ rest) = (is_unused b ≡ false) × AllUsed rest

-- All used blocks stand first, and at most one unused block behind them.
abbrev pub IsCompact : Memory → Type 0
IsCompact [] = Unit {0}
IsCompact (b ∷ []) = Unit {0}
IsCompact (b ∷ c ∷ rest) = (is_unused b ≡ false) × IsCompact (c ∷ rest)

abbrev CompactBack : List MemBlock → Type 0
CompactBack [] = Unit {0}
CompactBack (b ∷ before) = AllUsed before

-- Where one block has been passed, the next is not unused as well.
abbrev Fresh : List MemBlock → List MemBlock → Type 0
Fresh [] rest = Unit {0}
Fresh (p ∷ []) rest = Apart p rest
Fresh (p ∷ q ∷ before) rest = Unit {0}

-- What one round of the loop makes of the blocks before the cursor.
record Round (before : List MemBlock) (b : MemBlock) (rest : Memory) (next : List MemBlock)
    : Type 0 where
  kept : merge_kept (swap_back before b) ≡ some next
  tiles : TilesBack next (b.hi + 1)
  compact : CompactBack next
  fresh : Fresh next rest
  same : (later : Entries) → entries_onto next later ≡ entries_onto (b ∷ before) later

module _ (b : MemBlock) (rest : Memory) (le : b.lo ≤ b.hi) (small : b.hi + 1 < size_max)
    (apart : Apart b rest) where
  Round-first : b.lo ≡ 0 → Round [] b rest (b ∷ [])
  Round-first zero_lo = record {
    kept = refl;
    tiles = ground arith;
    compact = tt;
    fresh = apart;
    same = λ later. refl;
  }

  -- A used block behind an unused one: they change places.
  Round-exchange :
      (p : MemBlock) (before : List MemBlock)
      → TilesBack (p ∷ before) b.lo
      → AllUsed before
      → is_unused b ≡ false
      → is_unused p ≡ true
      → Round (p ∷ before) b rest (exchange p b before)
  unfolding entries_onto
  Round-exchange p [] t used ub up = record {
    kept = ground arith;
    tiles = ground arith;
    compact = ground arith;
    fresh = tt;
    same = λ later. ground arith;
  }
  Round-exchange p (q ∷ before) t used ub up = record {
    kept = ground arith;
    tiles = ground arith;
    compact = ground arith;
    fresh = tt;
    same = λ later. ground arith;
  }

  -- Two unused blocks: they become one.
  Round-merge :
      (p q : MemBlock) (before : List MemBlock)
      → TilesBack (p ∷ q ∷ before) b.lo
      → AllUsed (q ∷ before)
      → is_unused b ≡ true
      → is_unused p ≡ true
      → Round (p ∷ q ∷ before) b rest (record b { lo = p.lo } ∷ q ∷ before)
  unfolding entries_onto
  Round-merge p q before t used ub up = record {
    kept = ground arith;
    tiles = ground arith;
    compact = used;
    fresh = tt;
    same = λ later. ground arith;
  }

  -- A used block before the cursor: nothing moves.
  Round-pass :
      (p : MemBlock) (before : List MemBlock)
      → TilesBack (p ∷ before) b.lo
      → AllUsed before
      → is_unused p ≡ false
      → Round (p ∷ before) b rest (b ∷ p ∷ before)
  Round-pass p [] t used up = record {
    kept = ground arith;
    tiles = (refl, le, t);
    compact = (up, used);
    fresh = tt;
    same = λ later. refl;
  }
  Round-pass p (q ∷ before) t used up = record {
    kept = ground arith;
    tiles = (refl, le, t);
    compact = (up, used);
    fresh = tt;
    same = λ later. refl;
  }

  round :
      (before : List MemBlock)
      → TilesBack before b.lo
      → CompactBack before
      → Fresh before (b ∷ rest)
      → (next : List MemBlock) × Round before b rest next
  round [] t c f = (b ∷ [], Round-first t)
  round (p ∷ before) t c f = elim (Bool-cases (is_unused p)) [
    | inr up ↦ (b ∷ p ∷ before, Round-pass p before t c up)
    | inl up ↦ elim (Bool-cases (is_unused b)) [
      | inr ub ↦ (exchange p b before, Round-exchange p before t c ub up)
      | inl ub ↦ round_unused p before t c f ub up
    ]
  ]
    where
      round_unused :
          (p : MemBlock) (before : List MemBlock)
          → TilesBack (p ∷ before) b.lo
          → AllUsed before
          → Fresh (p ∷ before) (b ∷ rest)
          → is_unused b ≡ true
          → is_unused p ≡ true
          → (next : List MemBlock) × Round (p ∷ before) b rest next
      round_unused p [] t c f ub up = absurd (ground arith)
      round_unused p (q ∷ before) t c f ub up =
          (record b { lo = p.lo } ∷ q ∷ before, Round-merge p q before t c ub up)

IsCompact-unwind :
    (before : List MemBlock) (rest : Memory)
    → AllUsed before
    → IsCompact rest
    → IsCompact (unwind before rest)
unfolding unwind
IsCompact-unwind [] rest used c = c
IsCompact-unwind (p ∷ before) [] used c = IsCompact-unwind before (p ∷ []) used.1 tt
IsCompact-unwind (p ∷ before) (b ∷ rest) used c =
    IsCompact-unwind before (p ∷ b ∷ rest) used.1 (used.0, c)

IsCompact-unwind_last : (before : List MemBlock) → CompactBack before → IsCompact (unwind before [])
unfolding unwind
IsCompact-unwind_last [] c = tt
IsCompact-unwind_last (b ∷ before) c = IsCompact-unwind before (b ∷ []) c tt

-- What compaction makes of a memory.
pub record IsCompacted (size : ℕ) (all : Entries) (mem' : Memory) : Type 0 where
  pub tiled : IsTiled size mem'
  pub compact : IsCompact mem'
  pub same : entries mem' ≡ all

compact_from-IsCompacted :
    (rest before : List MemBlock) (mid size : ℕ)
    → size < size_max
    → TilesBack before mid
    → Tiles mid rest size
    → CompactBack before
    → Fresh before rest
    → IsSpaced rest
    → (mem' : Memory) × (compact_from before rest ≡ some mem')
      × IsCompacted size (entries_onto before (entries rest)) mem'
unfolding compact_from entries entries_onto
compact_from-IsCompacted [] before mid size small tb t c f s = (
  unwind before [],
  refl,
  record {
    tiled = record { tiles = Tiles-unwind before mid [] size tb t; small = small };
    compact = IsCompact-unwind_last before c;
    same = entries-unwind before [];
  },
)
compact_from-IsCompacted (b ∷ rest) before mid size small tb t c f s =
    let high = Tiles-le (b.hi + 1) rest size t.2 in
    let (next, r) = round b rest (t.1) (omega arith) (s.0) before (rw (t.0) tb) c f in
    let (mem', e, done) =
      compact_from-IsCompacted rest next (b.hi + 1) size small r.tiles t.2 r.compact r.fresh s.1 in
    (
      mem',
      rw (r.kept, compact_from) e,
      record {
        tiled = done.tiled;
        compact = done.compact;
        same = done.same ∙ r.same (entries rest);
      },
    )

-- On a covered memory without two unused blocks side by side, compaction never loses its first
-- block: the result is covered, keeps every process with its block size and in the same order, and
-- has all used blocks first with at most one unused block behind them.
pub compact_memory-IsCompacted :
    (mem : Memory) (size : ℕ)
    → IsTiled size mem
    → IsSpaced mem
    → (mem' : Memory) × (compact_memory mem ≡ some mem') × IsCompacted size (entries mem) mem'
unfolding compact_memory entries_onto
compact_memory-IsCompacted mem size v s =
    compact_from-IsCompacted mem [] 0 size v.small refl v.tiles tt tt s
