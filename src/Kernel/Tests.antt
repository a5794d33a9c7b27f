-- ===== src/Kernel/Tests.antt =====
-- The kernel modules of Project-1 and Project-2-2 on short texts.
use learning_ei.Base.{ℕ, ◌+◌, ◌≤◌, ◌≡◌, refl, arith, true, false, Option, some, [], ◌∷◌, length}
use learning_ei.Base.Int.{ℤ, pos}
use learning_ei.Kernel.{
  Text, nothing, PidState, write_pid, read_seconds, init_seconds, read_jiffies,
}
use learning_ei.Kernel.Read.{read_all, write_pid-read_all}

-- One digit is written, and the text of a number is the number.
abbrev typed : Text
typed = 55 ∷ []

abbrev as_number : Text → Option ℤ
as_number s = some (pos (length s))

abbrev room : ℕ → ℕ
room n = n + 8

abbrev task_line : ℤ → Option Text
task_line p = some (b'c' ∷ b'\n' ∷ [])

abbrev idle : PidState
idle = record { current_pid = pos 0; completed = false }

-- The clock wraps around between the two calls.
seconds_wrap :
    (read_seconds (λ n. n ∷ []) 100 84 (init_seconds 18446744073709551400)).0.copied ≡ 3 ∷ []
unfolding read_seconds init_seconds
seconds_wrap = refl

jiffies_twice : (read_jiffies (λ n. n ∷ []) 7 true).0 ≡ nothing
unfolding read_jiffies
jiffies_twice = refl

write_pid-read_all_example :
    (s' : PidState) × (write_pid room as_number false typed idle ≡ some (pos 1, s'))
    × ((fuel : ℕ) → 2 ≤ fuel → read_all fuel task_line s' ≡ some (b'c' ∷ b'\n' ∷ [], s'))
write_pid-read_all_example =
    write_pid-read_all room as_number task_line typed idle (pos 1) b'c' (b'\n' ∷ []) refl
      (omega arith) refl refl
