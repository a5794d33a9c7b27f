-- ===== src/Allocator/Session.antt =====
-- `init` and `main` of Project-7/memory_allocator.c: the memory at the start, and the operations that
-- it serves.
use learning_ei.Base.{ℕ, ◌==◌, Option, none, some, List, [], ◌∷◌, if◌then◌else◌}
use learning_ei.Base.Int.{ℤ, pos, negsuc}
use Prim.Native.String.{String}
use learning_ei.Allocator.{
  Memory, sub_size, make_block, request_memory, release_memory, compact_memory,
}

-- `mem_size` is what `sscanf` reads from the argument: the code, and the memory.
unfoldable pub init : ℕ → ℕ → ℤ × Memory
init argc mem_size =
    if argc == 2 then (pos 0, make_block 0 (sub_size mem_size 1) "" ∷ []) else (negsuc 0, [])

-- What `main` reads: an operation with what the wrapper scans.
pub data Command : Type 0 where
  rq : String → ℕ → ℕ → Command
  rl : String → Command
  c stat other : Command

-- One round of the loop of `main`; `X` ends it. `none` is a dangling `mem`.
unfoldable pub exec : Command → Memory → Option Memory
exec (rq name size strategy) mem = some (request_memory name size strategy mem).1
exec (rl name) mem = some (release_memory name mem).1
exec c mem = compact_memory mem
exec stat mem = some mem
exec other mem = some mem

unfoldable pub run : List Command → Memory → Option Memory
run [] mem = some mem
run (command ∷ rest) mem = elim (exec command mem) [ none ↦ none | some mem' ↦ run rest mem' ]
