-- ===== src/Allocator/History.antt =====
-- What every run of the program of Project-7/memory_allocator.c keeps.
use learning_ei.Base.{
  ℕ, zero, suc, ◌-◌, ◌<◌, ◌≡◌, refl, arith, true, List, [], ◌∷◌, none, some, ◌==◌, ◌⊎◌, inl, inr,
  Bool-cases, subst, Option-cases,
}
use Prim.Native.String.{String}
use learning_ei.Allocator.{
  MemBlock, Memory, size_max, is_unused, make_block, fill, fill_at, select_hole, request_memory,
  release_memory,
}
use learning_ei.Allocator.Session.{Command, rq, rl, c, stat, other, exec, run}
use learning_ei.Allocator.Tiling.{IsTiled}
use learning_ei.Allocator.Spacing.{Apart, IsSpaced}
use learning_ei.Allocator.Grant.{
  Strategy, first_strategy, best_strategy, worst_strategy, char_of, refused, granted,
  request_memory-Answer,
}
use learning_ei.Allocator.Release.{release_memory-owner}
use learning_ei.Allocator.Compact.{IsCompact, compact_memory-IsCompacted}

-- A covered memory without two unused blocks side by side.
pub record IsTidy (size : ℕ) (mem : Memory) : Type 0 where
  pub tiled : IsTiled size mem
  pub spaced : IsSpaced mem

-- Filling an unused block keeps the blocks apart: what is left of it stands between two used ones.
fill-IsSpaced :
    (name : String) (size : ℕ) (b : MemBlock) (rest : Memory)
    → is_unused b ≡ true
    → IsSpaced (b ∷ rest)
    → IsSpaced (fill name size b rest)
unfolding fill make_block
fill-IsSpaced name size b [] u s = ground arith
fill-IsSpaced name size b (d ∷ rest) u s = ground arith

fill_at-Apart :
    (name : String) (size k : ℕ) (p : MemBlock) (mem mem' : Memory)
    → Apart p mem
    → fill_at name size k mem ≡ some mem'
    → Apart p mem'
unfolding fill_at fill
fill_at-Apart name size k p [] mem' a e = cc
fill_at-Apart name size zero p (b ∷ rest) mem' a e = elim (Bool-cases (is_unused b)) [
  | inl u ↦
      let now : fill name size b rest ≡ mem' = ground arith in subst (Apart p) now (ground arith)
  | inr used ↦ absurd (ground arith)
]
fill_at-Apart name size (suc k) p (b ∷ rest) mem' a e =
    elim (Option-cases (fill_at name size k rest)) [
      | inl fault ↦ cc (rw (fault, fill_at) at e)
      | inr (rest', ok) ↦
          let now : b ∷ rest' ≡ mem' = cc (rw (ok, fill_at) at e) in subst (Apart p) now a
    ]

fill_at-IsSpaced :
    (name : String) (size k : ℕ) (mem mem' : Memory)
    → IsSpaced mem
    → fill_at name size k mem ≡ some mem'
    → IsSpaced mem'
unfolding fill_at
fill_at-IsSpaced name size k [] mem' s e = cc
fill_at-IsSpaced name size zero (b ∷ rest) mem' s e = elim (Bool-cases (is_unused b)) [
  | inl u ↦ subst IsSpaced (ground arith) (fill-IsSpaced name size b rest u s)
  | inr used ↦ absurd (ground arith)
]
fill_at-IsSpaced name size (suc k) (b ∷ rest) mem' s e =
    elim (Option-cases (fill_at name size k rest)) [
      | inl fault ↦ cc (rw (fault, fill_at) at e)
      | inr (rest', ok) ↦
          let now : b ∷ rest' ≡ mem' = cc (rw (ok, fill_at) at e) in
          subst IsSpaced now (
            fill_at-Apart name size k b rest rest' s.0 ok,
            fill_at-IsSpaced name size k rest rest' s.1 ok,
          )
    ]

request_memory-IsSpaced :
    (name : String) (size strategy : ℕ) (mem : Memory)
    → IsSpaced mem
    → IsSpaced (request_memory name size strategy mem).1
unfolding request_memory
request_memory-IsSpaced name size strategy mem s =
    elim (Option-cases (select_hole size strategy mem)) [
      | inl unknown ↦ rw (unknown, request_memory) s
      | inr (found, e) ↦ elim (Option-cases found) [
        | inl full ↦ rw (e, full, request_memory) s
        | inr (k, at) ↦ elim (Option-cases (fill_at name size k mem)) [
          | inl used ↦ rw (e, at, used, request_memory) s
          | inr (mem', filled) ↦
              rw (e, at, filled, request_memory) (fill_at-IsSpaced name size k mem mem' s filled)
        ]
      ]
    ]

-- Compacted blocks are apart.
IsCompact-IsSpaced : (mem : Memory) → IsCompact mem → IsSpaced mem
IsCompact-IsSpaced [] k = tt
IsCompact-IsSpaced (b ∷ []) k = (tt, tt)
IsCompact-IsSpaced (b ∷ d ∷ rest) k = (ground arith, IsCompact-IsSpaced (d ∷ rest) k.1)

strategy_cases :
    (strategy : ℕ)
    → ((s : Strategy) × (strategy ≡ char_of s))
      ⊎ ((size : ℕ) (mem : Memory) → select_hole size strategy mem ≡ none)
unfolding select_hole
strategy_cases strategy = elim (Bool-cases (strategy == b'F')) [
  | inl f ↦ inl (first_strategy, ground arith)
  | inr not_f ↦ elim (Bool-cases (strategy == b'B')) [
    | inl b ↦ inl (best_strategy, ground arith)
    | inr not_b ↦ elim (Bool-cases (strategy == b'W')) [
      | inl w ↦ inl (worst_strategy, ground arith)
      | inr not_w ↦ inr (λ size mem. rw (not_f, not_b, not_w) refl)
    ]
  ]
]

request_memory-IsTiled :
    (name : String) (size strategy total : ℕ) (mem : Memory)
    → 0 < size
    → size < size_max
    → IsTiled total mem
    → total < size_max - 1
    → IsTiled total (request_memory name size strategy mem).1
request_memory-IsTiled name size strategy total mem ps small v lt = elim (strategy_cases strategy) [
  | inl (s, e) ↦ rw e (elim (request_memory-Answer s name size total mem ps small v lt) [
    | refused left r ↦ rw r v
    | granted k b mem' h better v' free owns r ↦ rw r v'
  ])
  | inr unknown ↦ unfold request_memory in rw (unknown size mem, request_memory) v
]

-- The sizes that requests ask for are from 1 on, and of type `size_t`.
abbrev pub IsAsked : List Command → Type 0
IsAsked [] = Unit {0}
IsAsked (rq name size strategy ∷ rest) = (0 < size) × (size < size_max) × IsAsked rest
IsAsked (rl name ∷ rest) = IsAsked rest
IsAsked (c ∷ rest) = IsAsked rest
IsAsked (stat ∷ rest) = IsAsked rest
IsAsked (other ∷ rest) = IsAsked rest

-- Whatever operations arrive, if every request has a size from 1 on and below 2^64, then from a
-- memory of fewer than 2^64 - 1 bytes, covered without a gap or an overlap and without two unused
-- blocks side by side, `mem` never dangles, and the memory stays so.
pub run-IsTidy :
    (commands : List Command) (total : ℕ) (mem : Memory)
    → total < size_max - 1
    → IsAsked commands
    → IsTidy total mem
    → (mem' : Memory) × (run commands mem ≡ some mem') × IsTidy total mem'
unfolding run exec
run-IsTidy [] total mem lt asked v = (mem, refl, v)
run-IsTidy (rq name size strategy ∷ rest) total mem lt asked v =
    run-IsTidy rest total (request_memory name size strategy mem).1 lt asked.2 (record {
      tiled = request_memory-IsTiled name size strategy total mem asked.0 asked.1 v.tiled lt;
      spaced = request_memory-IsSpaced name size strategy mem v.spaced;
    })
run-IsTidy (rl name ∷ rest) total mem lt asked v =
    let (tiled, owns, spaced, code) = release_memory-owner name mem total v.tiled in
    run-IsTidy rest total (release_memory name mem).1 lt asked
      (record { tiled = tiled; spaced = spaced })
run-IsTidy (c ∷ rest) total mem lt asked v =
    let (mem', e, done) = compact_memory-IsCompacted mem total v.tiled v.spaced in
    let (last, ends, v') =
      run-IsTidy rest total mem' lt asked
        (record { tiled = done.tiled; spaced = IsCompact-IsSpaced mem' done.compact }) in
    (last, rw (e, run) ends, v')
run-IsTidy (stat ∷ rest) total mem lt asked v = run-IsTidy rest total mem lt asked v
run-IsTidy (other ∷ rest) total mem lt asked v = run-IsTidy rest total mem lt asked v
