-- ===== src/Buffer/Counts.antt =====
-- What counts in an interleaving of Project-5-2: the two semaphores count the items and the free
-- slots, less what threads have claimed or not yet posted.
use learning_ei.Base.{ℕ, ◌+◌, ◌≡◌, Bool, true, false, Option, none, some}
use learning_ei.Base.Int.{ℤ}
use learning_ei.Base.Arrays.{update}
use learning_ei.Base.Family.{total}
use learning_ei.Ring.{Ring, len}
use learning_ei.Ring.Laws.{IsFifo}
use learning_ei.Ring.Owner.{IsOwned}
use learning_ei.Buffer.{
  Shared, Pc, lock_insert, store_item, move_tail, unlock_insert, post_full, lock_remove, load_item,
  move_head, unlock_remove, post_empty,
}

-- 1 for an item in the ring that `full` does not count: a consumer has claimed it, or its producer
-- has not posted it.
abbrev pub hides_item : Pc → ℕ
hides_item unlock_insert = 1
hides_item post_full = 1
hides_item lock_remove = 1
hides_item load_item = 1
hides_item (move_head _) = 1
hides_item _ = 0

-- 1 for a free slot that `empty` does not count.
abbrev pub hides_slot : Pc → ℕ
hides_slot (lock_insert _) = 1
hides_slot (store_item _) = 1
hides_slot (move_tail _) = 1
hides_slot unlock_remove = 1
hides_slot post_empty = 1
hides_slot _ = 0

-- Whether the thread is between `pthread_mutex_lock` and `pthread_mutex_unlock`.
abbrev pub is_inside : Pc → Bool
is_inside (store_item _) = true
is_inside (move_tail _) = true
is_inside unlock_insert = true
is_inside load_item = true
is_inside (move_head _) = true
is_inside unlock_remove = true
is_inside _ = false

-- What the local `item` says about the ring.
abbrev pub IsFresh : Ring ℤ → Pc → Type 0
IsFresh r (move_tail item) = r.slots r.tail ≡ item
IsFresh r (move_head item) = r.slots r.head ≡ item
IsFresh r _ = Unit {0}

pub record IsCounted (threads : ℕ) (m : Shared) (pc : ℕ → Pc) : Type 0 where
  pub fifo : IsFifo m.ring
  pub items : m.full + total hides_item threads pc ≡ len m.ring
  pub free : m.empty + total hides_slot threads pc + len m.ring ≡ 10
  pub owned : IsOwned is_inside threads m.ring.lock pc
  pub fresh : (i : ℕ) → IsFresh m.ring (pc i)

-- What a step of thread `i` leaves, unless it waits.
abbrev pub Leaves : ℕ → (ℕ → Pc) → ℕ → Option (Shared × Pc) → Type 0
Leaves threads pc i none = Unit {0}
Leaves threads pc i (some (m, p)) = IsCounted threads m (update pc i p)
