-- ===== src/Ring.antt =====
-- The circular array of 11 slots with a mutex that Project-5-1/threadpool.c (`taskQueue`) and
-- Project-5-2/buffer.c (`buffer`) each have, with the same statements on its indices. An owner of the
-- mutex is the number of a thread.
pub mod Window
pub mod Laws
pub mod Owner
use learning_ei.Base.{ℕ, zero, suc, ◌+◌, ◌-◌, ◌%◌, Option, none, some, List, [], ◌∷◌, ◌++◌}
use learning_ei.Base.Arrays.{update}

-- One more than the queue holds.
abbrev pub ring_slots : ℕ
ring_slots = 10 + 1

-- `added` and `taken` are no variables of the source: they list what has been put into the ring, and
-- what has been taken out, so far.
pub record Ring (A : Type 0) : Type 0 where
  pub slots : ℕ → A
  pub head : ℕ
  pub tail : ℕ
  pub lock : Option ℕ
  pub added : List A
  pub taken : List A

-- The number of items from `head` to `tail`.
abbrev pub len : {A : Type 0} → Ring A → ℕ
len r = (r.tail + ring_slots - r.head) % ring_slots

module _ {A : Type 0} where
  -- `pthread_mutex_lock`: `none` while another thread holds the mutex.
  unfoldable pub acquire : ℕ → Ring A → Option (Ring A)
  acquire i r = elim r.lock [ none ↦ some (record r { lock = some i }) | some owner ↦ none ]

  unfoldable pub release : Ring A → Ring A
  release r = record r { lock = none }

  -- `slots[tail] = x`
  unfoldable pub write : A → Ring A → Ring A
  write x r = record r { slots = update r.slots r.tail x }

  -- `tail = (tail + 1) % slots`, which makes `x` an item.
  unfoldable pub advance_tail : A → Ring A → Ring A
  advance_tail x r = record r { tail = (r.tail + 1) % ring_slots; added = r.added ++ (x ∷ []) }

  -- `head = (head + 1) % slots`, which ends `x`.
  unfoldable pub advance_head : A → Ring A → Ring A
  advance_head x r = record r { head = (r.head + 1) % ring_slots; taken = r.taken ++ (x ∷ []) }
