-- ===== src/Kernel.antt =====
-- The kernel modules: Project-1/jiffies_module.c, Project-1/seconds_module.c and
-- Project-2-2/pid_module.c. What the kernel and its library give is an argument: `jiffies`, `HZ`, the
-- printed text, the task of a pid, the room of an allocation, and whether a copy fails.
pub mod Read
pub mod Elapsed
mod Tests
use learning_ei.Base.{
  ℕ, zero, suc, ◌+◌, ◌-◌, ◌/◌, ◌%◌, ◌^◌, Bool, true, false, Option, none, some, List, [], ◌∷◌,
  length, ltb, if◌then◌else◌,
}
use learning_ei.Base.Int.{ℤ, pos, negsuc}

abbrev pub Text : Type 0
Text = List ℕ

-- What a read returns, and what it copies to the user.
pub record Answer : Type 0 where
  pub rv : ℤ
  pub copied : Text

abbrev pub nothing : Answer
nothing = record { rv = pos 0; copied = [] }

-- `proc_read` of jiffies_module.c, with `completed`.
unfoldable pub read_jiffies : (ℕ → Text) → ℕ → Bool → Answer × Bool
read_jiffies sprintf jiffies completed =
    if completed
    then (nothing, false)
    else (record { rv = pos (length (sprintf jiffies)); copied = sprintf jiffies }, true)

-- The two variables of seconds_module.c.
pub record Clock : Type 0 where
  pub start_jiffies : ℕ
  pub completed : Bool

-- `proc_init` of seconds_module.c.
unfoldable pub init_seconds : ℕ → Clock
init_seconds jiffies = record { start_jiffies = jiffies; completed = false }

-- The difference of two of type `unsigned long`.
abbrev pub sub_long : ℕ → ℕ → ℕ
sub_long a b = (a + 2 ^ 64 - b) % 2 ^ 64

-- `proc_read` of seconds_module.c.
unfoldable pub read_seconds : (ℕ → Text) → ℕ → ℕ → Clock → Answer × Clock
read_seconds sprintf hz jiffies c =
    if c.completed then (nothing, record c { completed = false }) else (
      record {
        rv = pos (length (sprintf (sub_long jiffies c.start_jiffies / hz)));
        copied = sprintf (sub_long jiffies c.start_jiffies / hz);
      },
      record c { completed = true },
    )

-- The two variables of pid_module.c.
pub record PidState : Type 0 where
  pub current_pid : ℤ
  pub completed : Bool

-- `proc_read` of pid_module.c: `task_line` is what is printed of the task with a pid, if there is one.
unfoldable pub read_pid : (ℤ → Option Text) → Bool → PidState → Answer × PidState
read_pid task_line copy_fails s =
    if s.completed
    then (nothing, record s { completed = false })
    else elim (task_line s.current_pid) [
      | none ↦ (nothing, s)
      | some line ↦
          if copy_fails
          then (record { rv = negsuc 0; copied = [] }, record s { completed = true })
          else (record { rv = pos (length line); copied = line }, record s { completed = true })
    ]

-- The pid behind `kstrtoint`, which leaves it as it is where the text is no number.
abbrev pub pid_or : Option ℤ → ℤ → ℤ
pid_or none pid = pid
pid_or (some p) pid = p

-- `proc_write` of pid_module.c on `usr_buf` of `count` characters: `room count` is the number of
-- bytes that `kmalloc` really gives for `count`, and `none` is the write of the 0 behind them.
unfoldable pub write_pid :
    (ℕ → ℕ) → (Text → Option ℤ) → Bool → Text → PidState → Option (ℤ × PidState)
write_pid room kstrtoint copy_fails usr_buf s =
    let count = length usr_buf in
    if copy_fails
    then some (negsuc 0, s)
    else if ltb count (room count)
    then some (pos count, record s { current_pid = pid_or (kstrtoint usr_buf) s.current_pid })
    else none
