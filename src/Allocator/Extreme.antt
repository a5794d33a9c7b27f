-- ===== src/Allocator/Extreme.antt =====
-- The smallest hole of best fit and the largest hole of worst fit in
-- Project-7/memory_allocator.c.
use learning_ei.Base.{
  ℕ, zero, suc, ◌+◌, ◌≤◌, ◌<◌, ◌≡◌, refl, ◌∙◌, ap, arith, true, [], ◌∷◌, Option, some, ltb, leb,
  ◌&&◌, inl, inr, Bool-cases,
}
use learning_ei.Allocator.{MemBlock, Memory, is_unused, hole_size, best_fit, worst_fit}
use learning_ei.Allocator.Select.{IsHole, Best, kept, best, Worst, stayed, worst, head-eq}

-- A bound on the first block and on the holes behind it bounds all holes.
bound-cons :
    (size m : ℕ) (b : MemBlock) (rest : Memory)
    → (is_unused b ≡ true → size ≤ hole_size b → m ≤ hole_size b)
    → ((j : ℕ) (d : MemBlock) → IsHole size rest j d → m ≤ hole_size d)
    → (j : ℕ) (d : MemBlock) → IsHole size (b ∷ rest) j d
    → m ≤ hole_size d
bound-cons size m b rest here later zero d (at, u, le) =
    let same = head-eq rest at in rw (← same) (here (rw same u) (rw same le))
bound-cons size m b rest here later (suc j) d h = later j d h

limit-cons :
    (m : ℕ) (b : MemBlock) (rest : Memory)
    → (is_unused b ≡ true → hole_size b ≤ m)
    → ((j : ℕ) (d : MemBlock) → IsHole 0 rest j d → hole_size d ≤ m)
    → (j : ℕ) (d : MemBlock) → IsHole 0 (b ∷ rest) j d
    → hole_size d ≤ m
limit-cons m b rest here later zero d (at, u, le) =
    let same = head-eq rest at in rw (← same) (here (rw same u))
limit-cons m b rest here later (suc j) d h = later j d h

Best-take :
    (size m i : ℕ) (hole : Option ℕ) (b : MemBlock) (rest : Memory) {r : Option ℕ}
    → is_unused b ≡ true
    → size ≤ hole_size b
    → hole_size b < m
    → Best size (hole_size b) (i + 1) (some i) rest r
    → Best size m i hole (b ∷ rest) r
Best-take size m i hole b rest u le lt (kept low e) =
    best 0 b (refl, u, le) lt (bound-cons size (hole_size b) b rest (λ _ _. omega arith) low)
      (e ∙ ap some (omega arith))
Best-take size m i hole b rest u le lt (best j d h lower low e) =
    best (suc j) d h (omega arith) (bound-cons size (hole_size d) b rest (λ _ _. omega arith) low)
      (e ∙ ap some (omega arith))

Best-skip :
    (size m i : ℕ) (hole : Option ℕ) (b : MemBlock) (rest : Memory) {r : Option ℕ}
    → (is_unused b ≡ true → size ≤ hole_size b → m ≤ hole_size b)
    → Best size m (i + 1) hole rest r
    → Best size m i hole (b ∷ rest) r
Best-skip size m i hole b rest high (kept low e) = kept (bound-cons size m b rest high low) e
Best-skip size m i hole b rest high (best j d h lower low e) =
    best (suc j) d h lower
      (bound-cons size (hole_size d) b rest (λ u le. omega (arith, high u le)) low)
      (e ∙ ap some (omega arith))

pub best_fit-Best :
    (size m i : ℕ) (hole : Option ℕ) (mem : Memory)
    → Best size m i hole mem (best_fit size m hole i mem)
unfolding best_fit
best_fit-Best size m i hole [] = kept (λ j b h. cc (h.0)) refl
best_fit-Best size m i hole (b ∷ rest) =
    elim (Bool-cases (is_unused b && (leb size (hole_size b) && ltb (hole_size b) m))) [
      | inl ok ↦ rw ok (
          Best-take size m i hole b rest (ground arith) (ground arith) (ground arith)
            (best_fit-Best size (hole_size b) (i + 1) (some i) rest))
      | inr bad ↦ rw bad (
          Best-skip size m i hole b rest (λ u le. ground arith)
            (best_fit-Best size m (i + 1) hole rest))
    ]

Worst-take :
    (m i : ℕ) (hole : Option ℕ) (b : MemBlock) (rest : Memory) {r : Option ℕ}
    → is_unused b ≡ true
    → m < hole_size b
    → Worst (hole_size b) (i + 1) (some i) rest r
    → Worst m i hole (b ∷ rest) r
Worst-take m i hole b rest u lt (stayed low e) =
    worst 0 b (refl, u, omega arith) lt (limit-cons (hole_size b) b rest (λ _. omega arith) low)
      (e ∙ ap some (omega arith))
Worst-take m i hole b rest u lt (worst j d h lower low e) =
    worst (suc j) d h (omega arith) (limit-cons (hole_size d) b rest (λ _. omega arith) low)
      (e ∙ ap some (omega arith))

Worst-skip :
    (m i : ℕ) (hole : Option ℕ) (b : MemBlock) (rest : Memory) {r : Option ℕ}
    → (is_unused b ≡ true → hole_size b ≤ m)
    → Worst m (i + 1) hole rest r
    → Worst m i hole (b ∷ rest) r
Worst-skip m i hole b rest low_b (stayed low e) = stayed (limit-cons m b rest low_b low) e
Worst-skip m i hole b rest low_b (worst j d h lower low e) =
    worst (suc j) d h lower (limit-cons (hole_size d) b rest (λ u. omega (arith, low_b u)) low)
      (e ∙ ap some (omega arith))

pub worst_fit-Worst :
    (m i : ℕ) (hole : Option ℕ) (mem : Memory) → Worst m i hole mem (worst_fit m hole i mem)
unfolding worst_fit
worst_fit-Worst m i hole [] = stayed (λ j b h. cc (h.0)) refl
worst_fit-Worst m i hole (b ∷ rest) = elim (Bool-cases (is_unused b && ltb m (hole_size b))) [
  | inl ok ↦ rw ok (
      Worst-take m i hole b rest (ground arith) (ground arith)
        (worst_fit-Worst (hole_size b) (i + 1) (some i) rest))
  | inr bad ↦
      rw bad (Worst-skip m i hole b rest (λ u. ground arith) (worst_fit-Worst m (i + 1) hole rest))
]
