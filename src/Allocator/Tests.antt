-- ===== src/Allocator/Tests.antt =====
-- The memory allocator at a small memory: tests, and the theorems at concrete inputs.
use learning_ei.Base.{ℕ, ◌≡◌, refl, arith, List, [], ◌∷◌, Option, none, some, if◌then◌else◌}
use learning_ei.Base.Int.{pos}
use Prim.Native.String.{String}
use learning_ei.Allocator.{
  MemBlock, Memory, hole_size, make_block, first_fit, best_fit, worst_fit, select_hole, fill,
  fill_at, request_memory, unwind, release_from, release_memory, compact_from, compact_memory,
}
use learning_ei.Allocator.Session.{init, Command, rq, rl, c, exec, run}
use learning_ei.Allocator.Tiling.{IsTiled}
use learning_ei.Allocator.Spacing.{IsSpaced}
use learning_ei.Allocator.Owner.{owner}
use learning_ei.Allocator.Release.{disowned, any_named, release_memory-owner}
use learning_ei.Allocator.Grant.{best_strategy, Answer, request_memory-Answer}
use learning_ei.Allocator.Compact.{entries, IsCompacted, compact_memory-IsCompacted}
use learning_ei.Allocator.History.{IsTidy, run-IsTidy}
use learning_ei.Allocator.Zero.{request_memory-zero}

abbrev block : ℕ → ℕ → Option String → MemBlock
block lo hi name = record { lo = lo; hi = hi; name = name }

-- 100 bytes: two processes, a hole of 30 bytes between them and one of 40 behind.
abbrev sample : Memory
sample = block 0 9 (some "P1") ∷ block 10 39 none ∷ block 40 59 (some "P2") ∷ block 60 99 none ∷ []

program : Unit {0}
unfolding hole_size make_block first_fit best_fit worst_fit select_hole fill fill_at request_memory
    unwind release_from release_memory compact_from compact_memory init exec run
program = tt

init_runs : init 2 100 ≡ (pos 0, block 0 99 none ∷ [])
unfolding program
init_runs = refl

best_runs : request_memory "P3" 30 b'B' sample ≡ (
  pos 0,
  block 0 9 (some "P1") ∷ block 10 39 (some "P3") ∷ block 40 59 (some "P2") ∷ block 60 99 none ∷ [],
)
unfolding program
best_runs = refl

worst_runs :
    (request_memory "P3" 30 b'W' sample).1
    ≡ block 0 9 (some "P1")
      ∷ block 10 39 none
      ∷ block 40 59 (some "P2")
      ∷ block 60 89 (some "P3")
      ∷ block 90 99 none
      ∷ []
unfolding program
worst_runs = refl

release_runs : release_memory "P2" sample ≡ (pos 0, block 0 9 (some "P1") ∷ block 10 99 none ∷ [])
unfolding program
release_runs = refl

compact_runs :
    compact_memory sample
    ≡ some (block 0 9 (some "P1") ∷ block 10 29 (some "P2") ∷ block 30 99 none ∷ [])
unfolding program
compact_runs = refl

-- Two unused blocks at the front, which no run reaches, would leave `mem` dangling.
compact_dangles : compact_memory (block 0 9 none ∷ block 10 19 none ∷ []) ≡ none
unfolding program
compact_dangles = refl

sample-IsTiled : IsTiled 100 sample
sample-IsTiled = omega arith

sample-IsSpaced : IsSpaced sample
sample-IsSpaced = (refl, (refl, (refl, (tt, tt))))

request_memory-Answer_example :
    Answer best_strategy "P3" 30 100 sample (request_memory "P3" 30 b'B' sample)
request_memory-Answer_example =
    request_memory-Answer best_strategy "P3" 30 100 sample (omega arith) (omega arith)
      sample-IsTiled (omega arith)

release_memory-owner_example :
    IsTiled 100 (release_memory "P2" sample).1
    × ((a : ℕ) → owner (release_memory "P2" sample).1 a ≡ disowned "P2" (owner sample a))
    × IsSpaced (release_memory "P2" sample).1
    × ((release_memory "P2" sample).0 ≡ (if any_named "P2" sample then pos 0 else pos 1))
release_memory-owner_example = release_memory-owner "P2" sample 100 sample-IsTiled

compact_memory-IsCompacted_example :
    (mem' : Memory) × (compact_memory sample ≡ some mem') × IsCompacted 100 (entries sample) mem'
compact_memory-IsCompacted_example =
    compact_memory-IsCompacted sample 100 sample-IsTiled sample-IsSpaced

abbrev script : List Command
script = rq "P3" 12 b'W' ∷ rl "P1" ∷ c ∷ rq "P4" 70 b'F' ∷ []

run-IsTidy_example : (mem' : Memory) × (run script sample ≡ some mem') × IsTidy 100 mem'
run-IsTidy_example =
    run-IsTidy script 100 sample (omega arith)
      (omega arith, omega arith, (omega arith, omega arith, tt))
      (record { tiled = sample-IsTiled; spaced = sample-IsSpaced })

abbrev zero_sized : Memory
zero_sized =
    block 0 9 (some "P1")
    ∷ block 10 9 (some "P3")
    ∷ block 10 39 none
    ∷ block 40 59 (some "P2")
    ∷ block 60 99 none
    ∷ []

zero_runs : request_memory "P3" 0 b'F' sample ≡ (pos 0, zero_sized)
unfolding program
zero_runs = refl

request_memory-zero_example : ¬ IsTiled 100 zero_sized
request_memory-zero_example =
    request_memory-zero "P3" b'F' 100 sample zero_sized sample-IsTiled zero_runs
