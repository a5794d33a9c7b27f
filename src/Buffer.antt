-- ===== src/Buffer.antt =====
-- Project-5-2: producers and consumers on a bounded buffer (buffer.c), started by main.c, one thread
-- for each number below the number of threads. A step of a thread is one statement of
-- `insert_item` or `remove_item`; the threads are interleaved in any order.
pub mod Counts
pub mod Steps
pub mod Pick
pub mod Invariant
pub mod Safety
pub mod Progress
pub mod Shutdown
mod Tests
use learning_ei.Base.{
  ℕ, zero, suc, ◌+◌, ◌-◌, Bool, true, false, Option, none, some, List, [], ◌∷◌, ltb, if◌then◌else◌,
}
use learning_ei.Base.Int.{ℤ, pos}
use learning_ei.Base.Arrays.{update}
use learning_ei.Ring.{Ring, acquire, release, write, advance_tail, advance_head}

abbrev pub buffer_size : ℕ
buffer_size = 10

-- The buffer with its indices and `lock`, and the counts of the two semaphores.
pub record Shared : Type 0 where
  pub ring : Ring ℤ
  pub full : ℕ
  pub empty : ℕ

-- The next statement of a thread, with its local `item`. `producer` and `consumer` start over; the
-- others are named for the statement.
pub data Pc : Type 0 where
  producer : Pc
  wait_empty lock_insert store_item move_tail : ℤ → Pc
  unlock_insert post_full : Pc
  consumer lock_remove load_item : Pc
  move_head : ℤ → Pc
  unlock_remove post_empty : Pc

-- One statement of thread `i`, where `rand` gives `x`: `none` where the thread has to wait.
pub step : ℕ → ℤ → Shared → Pc → Option (Shared × Pc)
step i x m producer = some (m, wait_empty x)
step i x m (wait_empty item) =
    if ltb 0 m.empty then some (record m { empty = m.empty - 1 }, lock_insert item) else none
step i x m (lock_insert item) = elim (acquire i m.ring) [
  | none ↦ none
  | some ring ↦ some (record m { ring = ring }, store_item item)
]
step i x m (store_item item) = some (record m { ring = write item m.ring }, move_tail item)
step i x m (move_tail item) = some (record m { ring = advance_tail item m.ring }, unlock_insert)
step i x m unlock_insert = some (record m { ring = release m.ring }, post_full)
step i x m post_full = some (record m { full = m.full + 1 }, producer)
step i x m consumer =
    if ltb 0 m.full then some (record m { full = m.full - 1 }, lock_remove) else none
step i x m lock_remove = elim (acquire i m.ring) [
  | none ↦ none
  | some ring ↦ some (record m { ring = ring }, load_item)
]
step i x m load_item = some (m, move_head (m.ring.slots m.ring.head))
step i x m (move_head item) = some (record m { ring = advance_head item m.ring }, unlock_remove)
step i x m unlock_remove = some (record m { ring = release m.ring }, post_empty)
step i x m post_empty = some (record m { empty = m.empty + 1 }, consumer)

pub record System : Type 0 where
  pub mem : Shared
  pub pc : ℕ → Pc

-- `init_buffer`.
pub init_buffer : Shared
init_buffer = record {
  ring = record { slots = λ _. pos 0; head = 0; tail = 0; lock = none; added = []; taken = [] };
  full = 0;
  empty = buffer_size;
}

-- `main` with its first `producers` threads as producers.
pub init : ℕ → System
init producers = record {
  mem = init_buffer;
  pc = λ i. if ltb i producers then producer else consumer;
}

-- The scheduler picks thread `i`, if there is one and it need not wait.
pub pick : ℕ → ℕ → ℤ → System → System
pick threads i x s =
    if ltb i threads
    then elim (step i x s.mem (s.pc i)) [
      | none ↦ s
      | some (mem, p) ↦ record { mem = mem; pc = update s.pc i p }
    ]
    else s

-- Any interleaving of the threads, as the picks of the scheduler with the values of `rand`.
pub run : ℕ → List (ℕ × ℤ) → System → System
run threads [] s = s
run threads ((i, x) ∷ picks) s = run threads picks (pick threads i x s)
