-- ===== src/Allocator/Release.antt =====
-- `release_memory` of Project-7/memory_allocator.c against the view of who owns each address.
use learning_ei.Base.{
  ℕ, ◌+◌, ◌≤◌, ◌<◌, ◌≡◌, refl, arith, Bool, true, false, List, [], ◌∷◌, Option, none, some,
  if◌then◌else◌, ltb, ◌||◌, ◌∙◌, subst,
}
use learning_ei.Base.Int.{pos}
use Prim.Native.String.{String}
use text.Mathlib.Text.{◌==◌ as str_eq}
use learning_ei.Allocator.{
  MemBlock, Memory, is_named, unname, merge_back, release_from, release_memory,
}
use learning_ei.Allocator.Tiling.{Tiles, TilesBack, IsTiled, Tiles-unwind}
use learning_ei.Allocator.Owner.{owner, owner-cons, owner-unwind}
use learning_ei.Allocator.Spacing.{IsSpaced, IsSpaced-unwind, Meet-nil}

-- Ownership after the process `name` has given everything back.
abbrev pub disowned : String → Option String → Option String
disowned name none = none
disowned name (some n) = if str_eq n name then none else some n

merge_back-TilesBack :
    (before : List MemBlock) (b : MemBlock)
    → TilesBack before b.lo
    → b.lo ≤ b.hi
    → TilesBack (merge_back before b) (b.hi + 1)
merge_back-TilesBack [] b t le = ground arith
merge_back-TilesBack (p ∷ before) b t le = ground arith

-- A merged block owns what its two parts did: nothing.
merge_back-owner :
    (before : List MemBlock) (b : MemBlock) (a : ℕ)
    → TilesBack before b.lo
    → a < b.hi + 1
    → owner (merge_back before b) a ≡ (if ltb a b.lo then owner before a else b.name)
unfolding owner
merge_back-owner [] b a t lt = ground arith
merge_back-owner (p ∷ before) b a t lt = ground arith

merge_back-IsSpaced :
    (before : List MemBlock) (b : MemBlock) → IsSpaced before → IsSpaced (merge_back before b)
merge_back-IsSpaced [] b s = (tt, tt)
merge_back-IsSpaced (p ∷ []) b s = ground arith
merge_back-IsSpaced (p ∷ q ∷ before) b s = ground arith

unname_lem :
    (name : String) (b : MemBlock)
    → ((unname name b).lo ≡ b.lo)
      × ((unname name b).hi ≡ b.hi)
      × ((unname name b).name ≡ disowned name b.name)
unname_lem name b = ground arith

-- One round of the loop changes nothing but the owner of the cursor's block.
step_owner :
    (name : String) (before : List MemBlock) (b b' : MemBlock) (rest : Memory) (mid end a : ℕ)
    → TilesBack before mid
    → Tiles mid (b ∷ rest) end
    → b'.lo ≡ b.lo
    → b'.hi ≡ b.hi
    → b'.name ≡ disowned name b.name
    → (if ltb a (b.hi + 1) then owner (merge_back before b') a else disowned name (owner rest a))
      ≡ (if ltb a mid then owner before a else disowned name (owner (b ∷ rest) a))
step_owner name before b b' rest mid end a tb t lo_same hi_same now =
    let at_lo : b'.lo ≡ mid = lo_same ∙ t.0 in
    let tb' : TilesBack before b'.lo = rw at_lo tb in
    ground (arith, merge_back-owner before b' a tb', owner-cons b rest a)

module _ (name : String) where
  -- The loop frees the blocks from the cursor on, and keeps the memory covered.
  release_from-owner :
      (rest before : List MemBlock) (flag : Bool) (mid end a : ℕ)
      → TilesBack before mid
      → Tiles mid rest end
      → Tiles 0 (release_from name before flag rest).1 end
        × (owner (release_from name before flag rest).1 a
            ≡ (if ltb a mid then owner before a else disowned name (owner rest a)))
  unfolding release_from
  release_from-owner [] before flag mid end a tb t =
      (Tiles-unwind before mid [] end tb t, unfold owner in owner-unwind before mid [] end a tb t)
  release_from-owner (b ∷ rest) before flag mid end a tb t =
      let b' = unname name b in
      let (lo_same, hi_same, now) = unname_lem name b in
      let at_lo : b'.lo ≡ mid = lo_same ∙ t.0 in
      let tb' : TilesBack before b'.lo = rw at_lo tb in
      let le' : b'.lo ≤ b'.hi = omega (arith, lo_same, hi_same) in
      let tiled : TilesBack (merge_back before b') (b.hi + 1) =
        subst (λ (h : ℕ). TilesBack (merge_back before b') (h + 1)) hi_same
          (merge_back-TilesBack before b' tb' le') in
      let (tiles, owns) =
        release_from-owner rest (merge_back before b') (if is_named name b then false else flag)
          (b.hi + 1) end a tiled t.2 in
      (tiles, owns ∙ step_owner name before b b' rest mid end a tb t lo_same hi_same now)

  release_from-IsSpaced :
      (rest before : List MemBlock) (flag : Bool)
      → IsSpaced before
      → IsSpaced (release_from name before flag rest).1
  unfolding release_from
  release_from-IsSpaced [] before flag s = IsSpaced-unwind before [] s tt (Meet-nil before)
  release_from-IsSpaced (b ∷ rest) before flag s =
      release_from-IsSpaced rest (merge_back before (unname name b))
        (if is_named name b then false else flag) (merge_back-IsSpaced before (unname name b) s)

  -- Some block has the name.
  unfoldable pub any_named : Memory → Bool
  any_named [] = false
  any_named (b ∷ rest) = is_named name b || any_named rest

  release_from-flag :
      (rest before : List MemBlock) (flag : Bool)
      → (release_from name before flag rest).0 ≡ (if any_named rest then false else flag)
  unfolding release_from any_named
  release_from-flag [] before flag = refl
  release_from-flag (b ∷ rest) before flag = ground (
    arith,
    release_from-flag rest (merge_back before (unname name b))
        (if is_named name b then false else flag),
  )

-- Releasing a name keeps the memory covered, takes exactly the addresses of that process away from
-- it and leaves every other owner, leaves no two unused blocks side by side, and returns 0 exactly
-- when some block had the name, else 1.
pub release_memory-owner :
    (name : String) (mem : Memory) (size : ℕ)
    → IsTiled size mem
    → IsTiled size (release_memory name mem).1
      × ((a : ℕ) → owner (release_memory name mem).1 a ≡ disowned name (owner mem a))
      × IsSpaced (release_memory name mem).1
      × ((release_memory name mem).0 ≡ (if any_named name mem then pos 0 else pos 1))
unfolding release_memory
release_memory-owner name mem size v = (
  record { tiles = (all 0).0; small = v.small },
  λ a. (all a).1 ∙ ground arith,
  release_from-IsSpaced name mem [] true tt,
  rw (release_from-flag name mem [] true) (ground arith),
)
  where
    all :
        (a : ℕ)
        → Tiles 0 (release_from name [] true mem).1 size
          × (owner (release_from name [] true mem).1 a
              ≡ (if ltb a 0 then owner [] a else disowned name (owner mem a)))
    all a = release_from-owner name mem [] true 0 size a refl v.tiles
