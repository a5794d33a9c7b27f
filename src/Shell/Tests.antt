-- ===== src/Shell/Tests.antt =====
-- Lines of Project-2-1/simple_shell.c.
use learning_ei.Base.{
  zero, suc, true, Option, ◌<◌, ◌≡◌, refl, arith, false, not, none, some, List, [], ◌∷◌, map,
  length, replicate, ℕ,
}
use learning_ei.Shell.{
  Text, Args, max_args, init_from, init_args, refresh_from, refresh_args, parse_from, parse_input,
  skip_delimiters, token_of, behind_token, get_input,
}
use learning_ei.Shell.Represents.{Holds}
use learning_ei.Shell.Parse.{words, IsParsed, parse_input-IsParsed, parse_input-fits}
use learning_ei.Shell.RoundTrip.{line_of, parse_input-line_of}
use learning_ei.Shell.Command.{
  check_ampersand, check_last, detect_pipe, detect_from, check_redirection, scan_from, remove_at,
  shift_from, argv_of,
}
use learning_ei.Shell.Launch.{
  Launch, run_command, processes, single, first_of_two, second_of_two, started_of, crashed_of,
}
use learning_ei.Shell.Redirect.{is_input, strip, file_behind}
use learning_ei.Shell.Ampersand.{has_ampersand, without_ampersand}
use learning_ei.Shell.Processes.{plan, with_program, without_program}
use learning_ei.Shell.Plan.{run_command-plan}
use learning_ei.Shell.System.{
  Os, Fate, runs, crashes, reads_unset, returns, redirect_input, redirect_io, fate, fates, Outcome,
  run_on,
}
use learning_ei.Shell.Fates.{Children, run_on-Children}
use learning_ei.Shell.Session.{
  Shell, Event, ran, no_input, no_command, exited, init, obey, turn, run, turn-plan,
}
use learning_ei.Shell.Plain.{bar}
use learning_ei.Shell.Stale.{turn-stale}

abbrev empty : Args
empty = λ i. none

abbrev ls : Text
ls = b'l' ∷ b's' ∷ []

abbrev wc : Text
wc = b'w' ∷ b'c' ∷ []

abbrev less : Text
less = b'<' ∷ []

abbrev file : Text
file = b'f' ∷ []

abbrev fresh : Shell
fresh = record { args = empty; command = [] }

-- An array with the given arguments.
abbrev array_of : List Text → Args
array_of [] i = none
array_of (t ∷ l) zero = some t
array_of (t ∷ l) (suc i) = array_of l i

abbrev exit_line : Text
exit_line = b'e' ∷ b'x' ∷ b'i' ∷ b't' ∷ b'\n' ∷ []

run_exit :
    run (none ∷ some (b'\n' ∷ []) ∷ some exit_line ∷ none ∷ []) (init empty)
    ≡ no_input ∷ no_command ∷ exited ∷ []
unfolding run turn obey init init_args init_from refresh_args refresh_from parse_input parse_from
    skip_delimiters token_of behind_token get_input
run_exit = refl

parse_input-IsParsed_example :
    (n : ℕ) × (args' : Args) × (parse_input empty (line_of (ls ∷ wc ∷ [])) ≡ some (n, args'))
    × IsParsed empty 0 (words (line_of (ls ∷ wc ∷ []))) n args'
unfolding line_of
parse_input-IsParsed_example = parse_input-IsParsed empty (line_of (ls ∷ wc ∷ [])) (omega arith)

parse_input-fits_example :
    (n : ℕ) × (args' : Args) × (parse_input empty (line_of (ls ∷ wc ∷ [])) ≡ some (n, args'))
    × (n < max_args)
unfolding line_of
parse_input-fits_example = parse_input-fits empty (line_of (ls ∷ wc ∷ [])) (omega arith)

parse_input-line_of_example :
    (n : ℕ) × (args' : Args) × (parse_input empty (line_of (ls ∷ wc ∷ [])) ≡ some (n, args'))
    × (n ≡ 2)
    × Holds args' 0 (ls ∷ wc ∷ [])
unfolding line_of
parse_input-line_of_example =
    parse_input-line_of empty (ls ∷ wc ∷ []) ((refl, (refl, tt)), ((refl, (refl, tt)), tt))
      (omega arith)

-- A line of 81 characters is longer than its copy.
parse_input-too_long : parse_input empty (replicate 81 b'a') ≡ none
unfolding parse_input
parse_input-too_long = refl

stripped : strip 2 (wc ∷ less ∷ file ∷ []) ≡ wc ∷ []
unfolding strip
stripped = refl

named : file_behind is_input 2 (wc ∷ less ∷ file ∷ []) none ≡ some file
unfolding file_behind
named = refl

run_command-plan_example :
    (n : Launch) × (run_command (array_of (ls ∷ bar ∷ wc ∷ [])) 3 ≡ some n)
    × (n.started ≡ with_program (plan (ls ∷ bar ∷ wc ∷ [])))
    × (n.crashed ≡ without_program (plan (ls ∷ bar ∷ wc ∷ [])))
    × (n.waits ≡ not (has_ampersand (ls ∷ bar ∷ wc ∷ [])))
run_command-plan_example =
    run_command-plan (array_of (ls ∷ bar ∷ wc ∷ [])) ls (bar ∷ wc ∷ []) (refl, (refl, (refl, tt)))
      (refl, (refl, (refl, refl))) (omega arith)

abbrev ampersand : Text
ampersand = b'&' ∷ []

abbrev counts : Option Launch → Option (ℕ × ℕ)
counts none = none
counts (some n) = some (length n.started, length n.crashed)

-- `&` and `< f` start nothing, and of `ls | < f` only the first command is started.
run_nothing :
    (counts (run_command (array_of (ampersand ∷ [])) 1) ≡ some (0, 1))
    × (counts (run_command (array_of (less ∷ file ∷ [])) 2) ≡ some (0, 1))
    × (counts (run_command (array_of (ls ∷ bar ∷ less ∷ file ∷ [])) 4) ≡ some (1, 1))
unfolding run_command check_ampersand check_last detect_pipe detect_from processes single
    first_of_two second_of_two check_redirection scan_from remove_at shift_from argv_of started_of
    crashed_of
run_nothing = (refl, refl, refl)

-- A system in which no file can be opened to be read.
abbrev no_input_files : Os
no_input_files = record {
  can_fork = true;
  can_fork_again = true;
  can_pipe = true;
  can_create = λ file. true;
  can_open = λ file. false;
  can_dup = λ descriptor. true;
  can_exec = λ argv. true;
}

run_on-Children_example :
    (o : Outcome) × (run_on no_input_files (array_of (ls ∷ less ∷ file ∷ bar ∷ wc ∷ [])) 5 ≡ some o)
    × (o.rv ≡ 1)
    × (o.waits ≡ not (has_ampersand (ls ∷ less ∷ file ∷ bar ∷ wc ∷ [])))
    × Children no_input_files (without_ampersand (ls ∷ less ∷ file ∷ bar ∷ wc ∷ [])) o.children
run_on-Children_example =
    run_on-Children no_input_files (array_of (ls ∷ less ∷ file ∷ bar ∷ wc ∷ [])) ls
      (less ∷ file ∷ bar ∷ wc ∷ []) (refl, (refl, (refl, (refl, (refl, tt)))))
      (refl, (refl, (refl, (refl, (refl, refl))))) (omega arith)

abbrev children_of : Option Outcome → List Fate
children_of none = []
children_of (some o) = o.children

-- The first command cannot read its file and comes back, the second one runs.
run_half :
    children_of (run_on no_input_files (array_of (ls ∷ less ∷ file ∷ bar ∷ wc ∷ [])) 5)
    ≡ returns 0 (record { argv = ls ∷ []; input = none; output = none })
      ∷ runs (record { argv = wc ∷ []; input = none; output = none })
      ∷ []
unfolding run_on fates fate redirect_io redirect_input check_ampersand check_last detect_pipe
    detect_from processes first_of_two second_of_two check_redirection scan_from remove_at argv_of
    shift_from
run_half = refl

-- Without the pipe both commands read unset variables, if they come that far; without an argument the
-- second one crashes else.
run_pipe :
    (children_of
        (run_on (record no_input_files { can_pipe = false }) (array_of (ls ∷ bar ∷ wc ∷ [])) 3)
      ≡ reads_unset (record { argv = ls ∷ []; input = none; output = none })
        ∷ reads_unset (record { argv = wc ∷ []; input = none; output = none })
        ∷ [])
    × (children_of (run_on no_input_files (array_of (ls ∷ bar ∷ less ∷ file ∷ [])) 4)
        ≡ runs (record { argv = ls ∷ []; input = none; output = none })
          ∷ crashes (record { argv = []; input = none; output = none })
          ∷ [])
unfolding run_on fates fate redirect_io redirect_input check_ampersand check_last detect_pipe
    detect_from processes first_of_two second_of_two check_redirection scan_from remove_at argv_of
    shift_from
run_pipe = (refl, refl)

abbrev again_line : Text
again_line = b'!' ∷ b'!' ∷ b'\n' ∷ []

-- The arguments of each process that is started.
abbrev started : List Event → List (List (List Text))
started [] = []
started (ran n ∷ rest) = map (λ p. p.argv) n.started ∷ started rest
started (_ ∷ rest) = started rest

-- `!!` before any command, a command, and `!!` again.
run_again :
    started (run (some again_line ∷ some (line_of (ls ∷ [])) ∷ some again_line ∷ []) (init empty))
    ≡ ((ls ∷ []) ∷ []) ∷ ((ls ∷ []) ∷ []) ∷ []
unfolding run turn obey init init_args init_from refresh_args refresh_from parse_input parse_from
    skip_delimiters token_of behind_token get_input run_command check_ampersand check_last
    detect_pipe detect_from processes single check_redirection scan_from remove_at argv_of line_of
    started_of
run_again = refl

abbrev pipe_line : Text
pipe_line = b' ' ∷ b'l' ∷ b's' ∷ b' ' ∷ b'|' ∷ b'\t' ∷ b'w' ∷ b'c' ∷ b'\n' ∷ []

pipe_line-words : words pipe_line ≡ ls ∷ bar ∷ wc ∷ []
unfolding words
pipe_line-words = refl

turn-plan_example :
    (n : Launch) × ((turn (some pipe_line) fresh).0 ≡ ran n)
    × (n.started ≡ with_program (plan (words pipe_line)))
    × (n.crashed ≡ without_program (plan (words pipe_line)))
    × (n.waits ≡ not (has_ampersand (words pipe_line)))
turn-plan_example =
    turn-plan fresh pipe_line ls (bar ∷ wc ∷ []) (λ i. refl) (omega arith) pipe_line-words refl refl

turn-stale_example :
    (n : Launch) × ((turn
        (some (line_of (wc ∷ file ∷ [])))
        (turn (some (line_of (ls ∷ bar ∷ wc ∷ []))) fresh).1).0
      ≡ ran n)
    × (n.started ≡ record { argv = wc ∷ file ∷ wc ∷ []; input = none; output = none } ∷ [])
unfolding line_of
turn-stale_example =
    turn-stale fresh ls [] wc [] wc (file ∷ []) (λ i. refl) ((refl, refl, refl, refl), tt)
      ((refl, refl, refl, refl), tt) ((refl, (refl, tt)), ((refl, tt), ((refl, (refl, tt)), tt)))
      (omega arith) refl refl refl ((refl, refl, refl, refl), ((refl, refl, refl, refl), tt))
      ((refl, (refl, tt)), ((refl, tt), tt)) (omega arith) refl refl
