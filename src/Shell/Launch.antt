-- ===== src/Shell/Launch.antt =====
-- Project-2-1/simple_shell.c: the children of `run_command`, up to their calls of `execvp`.
use learning_ei.Base.{
  ℕ, ◌+◌, ◌-◌, Bool, not, Option, none, some, List, [], ◌∷◌, ◌==◌, if◌then◌else◌,
}
use learning_ei.Shell.{Text, Args, max_args}
use learning_ei.Shell.Command.{check_ampersand, check_redirection, Piped, detect_pipe, argv_of}

-- What a process is to run, with the files that its input and output are redirected to. A pipe between
-- two processes is not noted in them.
pub record Process : Type 0 where
  pub argv : List Text
  pub input : Option Text
  pub output : Option Text

-- A child that comes to its call of `execvp`. The first argument is the program; where there is none,
-- `args[0]` is a null pointer, and the call crashes the child, not the shell.
pub data Child : Type 0 where
  execs : Process → Child
  null_program : Process → Child

abbrev pub call : List Text → Option Text → Option Text → Child
call [] input output = null_program (record { argv = []; input = input; output = output })
call (t ∷ l) input output = execs (record { argv = t ∷ l; input = input; output = output })

-- The file, if the bit of the flag is set.
abbrev pub file_if : Bool → Option Text → Option Text
file_if bit file = if bit then file else none

-- The children for a command without a pipe, and for one with: there the first one's output and the
-- second one's input are not redirected to a file. Each child has a copy of `args`.
unfoldable pub single : Args → ℕ → Option (List Child)
single args size = elim (check_redirection args size) [
  | none ↦ none
  | some r ↦ some (
      call (argv_of max_args 0 r.args) (file_if r.files.has_input r.files.input_file)
        (file_if r.files.has_output r.files.output_file)
      ∷ [])
]

unfoldable pub first_of_two : Args → ℕ → Option Child
first_of_two args size = elim (check_redirection args size) [
  | none ↦ none
  | some r ↦
      some (call (argv_of max_args 0 r.args) (file_if r.files.has_input r.files.input_file) none)
]

-- `args2` is `args` from index `second` on.
unfoldable pub second_of_two : Args → ℕ → ℕ → Option Child
second_of_two args second size2 = elim (check_redirection (λ i. args (second + i)) size2) [
  | none ↦ none
  | some r ↦ some (
      call (argv_of (max_args - second) 0 r.args) none
        (file_if r.files.has_output r.files.output_file))
]

unfoldable pub processes : Piped → Option (List Child)
processes p = if p.size2 == 0 then single p.args p.size else elim (first_of_two p.args p.size) [
  | none ↦ none
  | some first ↦ elim (second_of_two p.args p.second p.size2) [
    | none ↦ none
    | some other ↦ some (first ∷ other ∷ [])
  ]
]

-- The children whose program is started, and those that crash in `execvp`.
unfoldable pub started_of : List Child → List Process
started_of [] = []
started_of (execs p ∷ rest) = p ∷ started_of rest
started_of (null_program p ∷ rest) = started_of rest

unfoldable pub crashed_of : List Child → List Process
crashed_of [] = []
crashed_of (execs p ∷ rest) = crashed_of rest
crashed_of (null_program p ∷ rest) = p ∷ crashed_of rest

-- What `run_command` does where the system's calls succeed: the processes that it starts, the ones that
-- crash instead, whether the shell calls `wait`, and the shell's own `args` behind it.
pub record Launch : Type 0 where
  pub started : List Process
  pub crashed : List Process
  pub waits : Bool
  pub args : Args

unfoldable pub run_command : Args → ℕ → Option Launch
run_command args args_num = elim (check_ampersand args args_num) [
  | none ↦ none
  | some a ↦ elim (detect_pipe a.args a.size) [
    | none ↦ none
    | some p ↦ elim (processes p) [
      | none ↦ none
      | some children ↦ some (record {
        started = started_of children;
        crashed = crashed_of children;
        waits = not a.concurrent;
        args = p.args;
      })
    ]
  ]
]
