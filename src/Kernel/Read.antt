-- ===== src/Kernel/Read.antt =====
-- What a reader of /proc/pid gets from Project-2-2/pid_module.c.
use learning_ei.Base.{
  ℕ, zero, suc, ◌<◌, ◌≤◌, ◌≡◌, refl, arith, ◌∙◌, ap, true, false, Option, none, some, [], ◌∷◌, ◌++◌,
  length, ltb,
}
use learning_ei.Base.Int.{ℤ, pos, negsuc}
use mathlib.Core.List.{append-nil}
use learning_ei.Kernel.{Text, Answer, nothing, PidState, read_pid, write_pid}

abbrev pub append_copied : Text → Option (Text × PidState) → Option (Text × PidState)
append_copied copied none = none
append_copied copied (some (text, s)) = some (copied ++ text, s)

-- A reader goes on until `proc_read` returns 0, and gives up where it fails.
abbrev pub after_read :
    Answer × PidState → (PidState → Option (Text × PidState)) → Option (Text × PidState)
after_read (answer, s) go_on = elim answer.rv [
  | negsuc _ ↦ none
  | pos zero ↦ some ([], s)
  | pos (suc _) ↦ append_copied answer.copied (go_on s)
]

-- All that a reader gets, with fuel, and the state behind; `none` without fuel.
unfoldable pub read_all : ℕ → (ℤ → Option Text) → PidState → Option (Text × PidState)
read_all zero task_line s = none
read_all (suc fuel) task_line s = after_read (read_pid task_line false s) (read_all fuel task_line)

read_pid-line :
    (task_line : ℤ → Option Text) (p : ℤ) (line : Text)
    → task_line p ≡ some line
    → read_pid task_line false (record { current_pid = p; completed = false }) ≡ (
      record { rv = pos (length line); copied = line },
      record { current_pid = p; completed = true },
    )
unfolding read_pid
read_pid-line task_line p line e = rw e refl

read_pid-nothing :
    (task_line : ℤ → Option Text) (p : ℤ)
    → read_pid task_line false (record { current_pid = p; completed = true })
      ≡ (nothing, record { current_pid = p; completed = false })
unfolding read_pid
read_pid-nothing task_line p = refl

-- The two reads that a reader of a live task makes.
read_all-line :
    (fuel : ℕ) (task_line : ℤ → Option Text) (p : ℤ) (c : ℕ) (line : Text)
    → task_line p ≡ some (c ∷ line)
    → let s : PidState = record { current_pid = p; completed = false } in
      read_all (suc (suc fuel)) task_line s ≡ some ((c ∷ line) ++ [], s)
unfolding read_all
read_all-line fuel task_line p c line e =
    let read : PidState = record { current_pid = p; completed = true } in
    let last : read_all (suc fuel) task_line read
        ≡ some ([], record { current_pid = p; completed = false }) =
      ap (λ r. after_read r (read_all fuel task_line)) (read_pid-nothing task_line p) in
    ap (λ r. after_read r (read_all (suc fuel) task_line)) (read_pid-line task_line p (c ∷ line) e)
    ∙ ap (append_copied (c ∷ line)) last

-- Let the last reader have read to the end, and let the text of a number be written that `kmalloc` gives
-- more room for than it asks for. Then the write returns the length of the text, and where a task has
-- that number, every reader gets its line, once, and leaves the state as it was before the reading.
pub write_pid-read_all :
    (room : ℕ → ℕ) (kstrtoint : Text → Option ℤ) (task_line : ℤ → Option Text) (usr_buf : Text)
    (s : PidState) (p : ℤ) (c : ℕ) (line : Text)
    → s.completed ≡ false
    → length usr_buf < room (length usr_buf)
    → kstrtoint usr_buf ≡ some p
    → task_line p ≡ some (c ∷ line)
    → (s' : PidState) × (write_pid room kstrtoint false usr_buf s ≡ some (pos (length usr_buf), s'))
      × ((fuel : ℕ) → 2 ≤ fuel → read_all fuel task_line s' ≡ some (c ∷ line, s'))
unfolding write_pid
write_pid-read_all room kstrtoint task_line usr_buf s p c line idle larger number live =
    let s' : PidState = record { current_pid = p; completed = false } in
    let fits : ltb (length usr_buf) (room (length usr_buf)) ≡ true = ground arith in
    let written : write_pid room kstrtoint false usr_buf s ≡ some (pos (length usr_buf), s') =
      rw (fits, number, idle) refl in
    (s', written, enough)
  where
    enough :
        (fuel : ℕ)
        → 2 ≤ fuel
        → read_all fuel task_line (record { current_pid = p; completed = false })
          ≡ some (c ∷ line, record { current_pid = p; completed = false })
    enough zero e = absurd (omega arith)
    enough (suc zero) e = absurd (omega arith)
    enough (suc (suc fuel)) e =
        read_all-line fuel task_line p c line live
        ∙ ap (λ l. some (l, record { current_pid = p; completed = false })) (append-nil (c ∷ line))
