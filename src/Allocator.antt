-- ===== src/Allocator.antt =====
-- Project-7/memory_allocator.c: a contiguous memory that processes ask for and give back.
-- The doubly linked list of blocks is a list, `mem` being its first block. A loop with a cursor
-- keeps the blocks before the cursor, nearest first, and the blocks from the cursor on. A `size_t` is
-- a number below 2^64.
pub mod Tiling
pub mod Owner
pub mod Spacing
pub mod Release
pub mod Select
pub mod Extreme
pub mod Request
pub mod Grant
pub mod Compact
pub mod Session
pub mod History
pub mod Zero
mod Tests
use learning_ei.Base.{
  ℕ, zero, suc, ◌+◌, ◌-◌, ◌%◌, ◌^◌, Bool, true, false, ◌&&◌, Option, none, some, List, [], ◌∷◌, ltb,
  leb, ◌==◌, if◌then◌else◌,
}
use learning_ei.Base.Int.{ℤ, pos, negsuc}
use Prim.Native.String.{String}
use text.Mathlib.Text.{◌==◌ as str_eq}

abbrev pub size_max : ℕ
size_max = 2 ^ 64

-- `size_t` addition and subtraction.
abbrev pub add_size : ℕ → ℕ → ℕ
add_size a b = (a + b) % size_max

abbrev pub sub_size : ℕ → ℕ → ℕ
sub_size a b = (a + size_max - b) % size_max

-- A block without a name is unused.
pub record MemBlock : Type 0 where
  pub lo : ℕ
  pub hi : ℕ
  pub name : Option String

abbrev pub Memory : Type 0
Memory = List MemBlock

abbrev pub is_unused : MemBlock → Bool
is_unused b = elim b.name [ none ↦ true | some _ ↦ false ]

-- The links are set by where the block is put.
pub make_block : ℕ → ℕ → String → MemBlock
make_block lo hi name = record {
  lo = lo;
  hi = hi;
  name = if str_eq name "" then none else some name;
}

-- `hi - lo + 1`
pub hole_size : MemBlock → ℕ
hole_size b = add_size (sub_size b.hi b.lo) 1

-- The three loops that select a hole, as its index; `i` is the index of the cursor.
pub first_fit : ℕ → ℕ → Memory → Option ℕ
first_fit size i [] = none
first_fit size i (b ∷ rest) =
    let later = first_fit size (i + 1) rest in
    if is_unused b && leb size (hole_size b) then some i else later

pub best_fit : ℕ → ℕ → Option ℕ → ℕ → Memory → Option ℕ
best_fit size min_size hole i [] = hole
best_fit size min_size hole i (b ∷ rest) =
    let found = best_fit size (hole_size b) (some i) (i + 1) rest in
    let other = best_fit size min_size hole (i + 1) rest in
    if is_unused b && (leb size (hole_size b) && ltb (hole_size b) min_size) then found else other

pub worst_fit : ℕ → Option ℕ → ℕ → Memory → Option ℕ
worst_fit max_size hole i [] = hole
worst_fit max_size hole i (b ∷ rest) =
    let found = worst_fit (hole_size b) (some i) (i + 1) rest in
    let other = worst_fit max_size hole (i + 1) rest in
    if is_unused b && ltb max_size (hole_size b) then found else other

-- The `switch` of `request_memory`: `none` for an unknown strategy, else the hole, if any.
pub select_hole : ℕ → ℕ → Memory → Option (Option ℕ)
select_hole size strategy mem =
    if strategy == b'F'
    then some (first_fit size 0 mem)
    else if strategy == b'B'
    then some (best_fit size (size_max - 1) none 0 mem)
    else if strategy == b'W'
    then some (worst_fit (sub_size size 1) none 0 mem)
    else none

-- What becomes of the hole.
pub fill : String → ℕ → MemBlock → Memory → Memory
fill name size b rest =
    if hole_size b == size
    then record b { name = some name } ∷ rest
    else record { lo = b.lo; hi = sub_size (add_size b.lo size) 1; name = some name }
      ∷ make_block (add_size b.lo size) b.hi ""
      ∷ rest

-- The part of `request_memory` behind the `switch`: `none` where the hole has a name.
pub fill_at : String → ℕ → ℕ → Memory → Option Memory
fill_at name size i [] = none
fill_at name size zero (b ∷ rest) = if is_unused b then some (fill name size b rest) else none
fill_at name size (suc i) (b ∷ rest) = elim (fill_at name size i rest) [
  | none ↦ none
  | some rest' ↦ some (b ∷ rest')
]

pub request_memory : String → ℕ → ℕ → Memory → ℤ × Memory
request_memory name size strategy mem = elim (select_hole size strategy mem) [
  | none ↦ (negsuc 0, mem)
  | some none ↦ (negsuc 1, mem)
  | some (some i) ↦ elim (fill_at name size i mem) [
    | none ↦ (negsuc 1, mem)
    | some mem' ↦ (pos 0, mem')
  ]
]

-- `cursor->name && strcmp(cursor->name, name) == 0`
abbrev pub is_named : String → MemBlock → Bool
is_named name b = elim b.name [ none ↦ false | some n ↦ str_eq n name ]

-- The body of the loop at the cursor: marks it unused, if it has the name.
abbrev pub unname : String → MemBlock → MemBlock
unname name b = if is_named name b then record b { name = none } else b

-- Merges an unused cursor with an unused block before it: the blocks from the cursor back.
abbrev pub merge_back : List MemBlock → MemBlock → List MemBlock
merge_back [] b = b ∷ []
merge_back (p ∷ before) b =
    if is_unused b && is_unused p then record b { lo = p.lo } ∷ before else b ∷ p ∷ before

-- The blocks of `before`, nearest first, in front of `rest`.
pub unwind : List MemBlock → Memory → Memory
unwind [] rest = rest
unwind (p ∷ before) rest = unwind before (p ∷ rest)

-- The loop of `release_memory`: the list, and whether `flag` is still set.
pub release_from : String → List MemBlock → Bool → Memory → Bool × Memory
release_from name before flag [] = (flag, unwind before [])
release_from name before flag (b ∷ rest) =
    release_from name (merge_back before (unname name b)) (if is_named name b then false else flag)
      rest

pub release_memory : String → Memory → ℤ × Memory
release_memory name mem =
    let (flag, mem') = release_from name [] true mem in (if flag then pos 1 else pos 0, mem')

-- Exchanges an unused block `p` with the used block `b` behind it: the later one first.
abbrev pub exchange : MemBlock → MemBlock → List MemBlock → List MemBlock
exchange p b before =
    let hi = add_size p.lo (sub_size b.hi b.lo) in
    record b { lo = add_size hi 1; name = none } ∷ record p { hi = hi; name = b.name } ∷ before

-- The first `if` of `compact_memory`.
abbrev pub swap_back : List MemBlock → MemBlock → List MemBlock
swap_back [] b = b ∷ []
swap_back (p ∷ before) b =
    if is_unused b
    then b ∷ p ∷ before
    else if is_unused p
    then exchange p b before
    else b ∷ p ∷ before

-- The second `if` of `compact_memory`. It does not move `mem`: where the block that it frees is the
-- first one, `mem` is left dangling (`none`).
abbrev pub merge_kept : List MemBlock → Option (List MemBlock)
merge_kept [] = some []
merge_kept (b ∷ []) = some (b ∷ [])
merge_kept (b ∷ p ∷ []) = if is_unused b && is_unused p then none else some (b ∷ p ∷ [])
merge_kept (b ∷ p ∷ q ∷ before) =
    if is_unused b && is_unused p
    then some (record b { lo = p.lo } ∷ q ∷ before)
    else some (b ∷ p ∷ q ∷ before)

pub compact_from : List MemBlock → Memory → Option Memory
compact_from before [] = some (unwind before [])
compact_from before (b ∷ rest) = elim (merge_kept (swap_back before b)) [
  | none ↦ none
  | some before' ↦ compact_from before' rest
]

pub compact_memory : Memory → Option Memory
compact_memory mem = compact_from [] mem
