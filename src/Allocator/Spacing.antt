-- ===== src/Allocator/Spacing.antt =====
-- Memories of Project-7/memory_allocator.c without two unused blocks side by side.
use learning_ei.Base.{◌≡◌, arith, false, List, [], ◌∷◌, ◌&&◌}
use learning_ei.Allocator.{MemBlock, is_unused, unwind}

-- A block does not stand before one that is unused as well.
abbrev pub Apart : MemBlock → List MemBlock → Type 0
Apart b [] = Unit {0}
Apart b (c ∷ rest) = (is_unused b && is_unused c) ≡ false

abbrev pub IsSpaced : List MemBlock → Type 0
IsSpaced [] = Unit {0}
IsSpaced (b ∷ rest) = Apart b rest × IsSpaced rest

abbrev pub Meet : List MemBlock → List MemBlock → Type 0
Meet [] rest = Unit {0}
Meet (p ∷ before) rest = Apart p rest

Meet-cons : (p : MemBlock) (before rest : List MemBlock) → Apart p before → Meet before (p ∷ rest)
Meet-cons p [] rest h = tt
Meet-cons p (q ∷ before) rest h = ground arith

pub IsSpaced-unwind :
    (before rest : List MemBlock)
    → IsSpaced before
    → IsSpaced rest
    → Meet before rest
    → IsSpaced (unwind before rest)
unfolding unwind
IsSpaced-unwind [] rest b r m = r
IsSpaced-unwind (p ∷ before) rest b r m =
    IsSpaced-unwind before (p ∷ rest) b.1 (m, r) (Meet-cons p before rest b.0)

pub Meet-nil : (before : List MemBlock) → Meet before []
Meet-nil [] = tt
Meet-nil (p ∷ before) = tt
