-- ===== src/Shell/System.antt =====
-- Project-2-1/simple_shell.c: `run_command` where calls of the operating system fail. A process that
-- opens a file in vain, or whose program `execvp` cannot start, returns from `run_command` and goes on with the loop
-- of `main`, as a second shell.
use learning_ei.Base.{
  ℕ, Bool, true, false, not, ◌&&◌, ◌||◌, Option, none, some, List, [], ◌∷◌, map, ◌==◌,
  if◌then◌else◌,
}
use learning_ei.Shell.{Text, Args, max_args}
use learning_ei.Shell.Command.{check_ampersand, Piped, detect_pipe, argv_of}
use learning_ei.Shell.Launch.{Process, Child, execs, null_program, file_if, processes}

-- Which calls succeed: the two of `fork`, `pipe`, `open` of an output and of an input file, `dup2` to
-- a standard descriptor, and `execvp`. What `dup2` does with the ends of a pipe is not noted, as the
-- pipe is not.
pub record Os : Type 0 where
  pub can_fork : Bool
  pub can_fork_again : Bool
  pub can_pipe : Bool
  pub can_create : Text → Bool
  pub can_open : Text → Bool
  pub can_dup : ℕ → Bool
  pub can_exec : List Text → Bool

abbrev pub stdin_fileno : ℕ
stdin_fileno = 0

abbrev pub stdout_fileno : ℕ
stdout_fileno = 1

-- What becomes of a process, with the arguments and the redirections to files that it has then. It
-- runs its command; it crashes in `execvp` for want of a program; it reads the ends of a pipe that
-- `pipe` has not made, which are unset variables; or it returns from `run_command` with a value.
pub data Fate : Type 0 where
  runs : Process → Fate
  crashes : Process → Fate
  reads_unset : Process → Fate
  returns : ℕ → Process → Fate

-- The two parts of `redirect_io`: whether it succeeds, and the redirections behind it. A failure of
-- `dup2` is not noticed, and leaves the descriptor as it was.
unfoldable pub redirect_input : Os → Process → Bool × Process
redirect_input os p = elim p.input [
  | none ↦ (true, p)
  | some file ↦
      if os.can_open file
      then (true, record p { input = file_if (os.can_dup stdin_fileno) (some file) })
      else (false, record p { input = none })
]

unfoldable pub redirect_io : Os → Process → Bool × Process
redirect_io os p = elim p.output [
  | none ↦ redirect_input os p
  | some file ↦
      if os.can_create file
      then redirect_input os (record p { output = file_if (os.can_dup stdout_fileno) (some file) })
      else (false, record p { input = none; output = none })
]

-- From `redirect_io` to behind `execvp`. `has_ends` tells that the process needs no pipe, or has one.
unfoldable pub fate : Os → Bool → Child → Fate
fate os has_ends (execs p) =
    let (done, q) = redirect_io os p in
    if done
    then if has_ends then if os.can_exec q.argv then runs q else returns 1 q else reads_unset q
    else returns 0 q
fate os has_ends (null_program p) =
    let (done, q) = redirect_io os p in
    if done then if has_ends then crashes q else reads_unset q else returns 0 q

-- The child's part of `run_command`: without the second fork, the child itself returns.
unfoldable pub fates : Os → Piped → Option (List Fate)
fates os p =
    if not (p.size2 == 0) && not os.can_fork_again
    then some
        (returns 1 (record { argv = argv_of max_args 0 p.args; input = none; output = none }) ∷ [])
    else elim (processes p) [
      | none ↦ none
      | some children ↦ some (map (fate os (p.size2 == 0 || os.can_pipe)) children)
    ]

-- The value that `run_command` has in the shell, the other processes, whether the shell calls `wait`, and its
-- own `args` behind it.
pub record Outcome : Type 0 where
  pub rv : ℕ
  pub children : List Fate
  pub waits : Bool
  pub args : Args

unfoldable pub run_on : Os → Args → ℕ → Option Outcome
run_on os args args_num = elim (check_ampersand args args_num) [
  | none ↦ none
  | some a ↦ elim (detect_pipe a.args a.size) [
    | none ↦ none
    | some p ↦
        if os.can_fork
        then elim (fates os p) [
          | none ↦ none
          | some children ↦
              some (record { rv = 1; children = children; waits = not a.concurrent; args = p.args })
        ]
        else some (record { rv = 0; children = []; waits = false; args = p.args })
  ]
]
