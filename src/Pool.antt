-- ===== src/Pool.antt =====
-- Project-5-1: the thread pool (threadpool.c) with its client (client.c). Thread 0 is `main` of the
-- client, which submits a list of tasks, and the threads from 1 on are the worker bees. A step of a
-- thread is one statement; the threads are interleaved in any order.
pub mod Counts
pub mod Pick
pub mod Steps
pub mod Enqueue
pub mod Dequeue
pub mod Invariant
pub mod Safety
pub mod Rest
pub mod Shutdown
mod Tests
use learning_ei.Base.{
  ℕ, zero, suc, ◌+◌, ◌-◌, ◌%◌, Bool, true, false, Option, none, some, List, [], ◌∷◌, ◌++◌, ltb,
  ◌==◌, if◌then◌else◌,
}
use learning_ei.Base.Arrays.{update}
use learning_ei.Ring.{Ring, ring_slots, acquire, release, write, advance_tail, advance_head}

-- `main` of the client and the bees.
abbrev pub pool_threads : ℕ
pool_threads = 1 + 3

-- A task is a function with its argument, of which the pool knows nothing. `executed` is no variable
-- of the source: it lists the tasks that `execute` has called.
pub record Shared (Task : Type 0) : Type 0 where
  pub ring : Ring Task
  pub task_cnt : ℕ
  pub executed : List Task

-- The next statement of a thread, with its local task. A client also has the tasks that it has
-- still to submit after this one.
pub data Pc (Task : Type 0) : Type 0 where
  lock_enqueue check_full store_task move_tail unlock_full : Task → List Task → Pc Task
  unlock_added post_task : List Task → Pc Task
  finished : Pc Task
  wait_task lock_dequeue load_task : Pc Task
  move_head unlock_task execute : Task → Pc Task

module _ {Task : Type 0} where
  -- The loop of the client's `main` goes on to the next task.
  pub next_submit : List Task → Pc Task
  next_submit [] = finished
  next_submit (t ∷ todo) = lock_enqueue t todo

  -- One statement of thread `i`: `none` where the thread has to wait, or has finished.
  pub step : ℕ → Shared Task → Pc Task → Option (Shared Task × Pc Task)
  step i m (lock_enqueue t todo) = elim (acquire i m.ring) [
    | none ↦ none
    | some ring ↦ some (record m { ring = ring }, check_full t todo)
  ]
  step i m (check_full t todo) =
      if (m.ring.tail + 1) % ring_slots == m.ring.head
      then some (m, unlock_full t todo)
      else some (m, store_task t todo)
  step i m (store_task t todo) = some (record m { ring = write t m.ring }, move_tail t todo)
  step i m (move_tail t todo) = some (record m { ring = advance_tail t m.ring }, unlock_added todo)
  step i m (unlock_full t todo) = some (record m { ring = release m.ring }, lock_enqueue t todo)
  step i m (unlock_added todo) = some (record m { ring = release m.ring }, post_task todo)
  step i m (post_task todo) = some (record m { task_cnt = m.task_cnt + 1 }, next_submit todo)
  step i m finished = none
  step i m wait_task =
      if ltb 0 m.task_cnt then some (record m { task_cnt = m.task_cnt - 1 }, lock_dequeue) else none
  step i m lock_dequeue = elim (acquire i m.ring) [
    | none ↦ none
    | some ring ↦ some (record m { ring = ring }, load_task)
  ]
  step i m load_task = some (m, move_head (m.ring.slots m.ring.head))
  step i m (move_head t) = some (record m { ring = advance_head t m.ring }, unlock_task t)
  step i m (unlock_task t) = some (record m { ring = release m.ring }, execute t)
  step i m (execute t) = some (record m { executed = m.executed ++ (t ∷ []) }, wait_task)

pub record System (Task : Type 0) : Type 0 where
  pub mem : Shared Task
  pub pc : ℕ → Pc Task

module _ {Task : Type 0} where
  -- `pool_init`, from the slots that the queue has at the start.
  pub pool_init : (ℕ → Task) → Shared Task
  pool_init slots = record {
    ring = record { slots = slots; head = 0; tail = 0; lock = none; added = []; taken = [] };
    task_cnt = 0;
    executed = [];
  }

  -- The client has the tasks to submit.
  pub init : (ℕ → Task) → List Task → System Task
  init slots tasks = record {
    mem = pool_init slots;
    pc = λ i. if i == 0 then next_submit tasks else wait_task;
  }

  -- The scheduler picks thread `i`, if there is one and it need not wait.
  pub pick : ℕ → System Task → System Task
  pick i s =
      if ltb i pool_threads
      then elim (step i s.mem (s.pc i)) [
        | none ↦ s
        | some (mem, p) ↦ record { mem = mem; pc = update s.pc i p }
      ]
      else s

  -- Any interleaving of the threads, as the picks of the scheduler.
  pub run : List ℕ → System Task → System Task
  run [] s = s
  run (i ∷ picks) s = run picks (pick i s)
