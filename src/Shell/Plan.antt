-- ===== src/Shell/Plan.antt =====
-- What a command of Project-2-1/simple_shell.c is to start, by its arguments alone, and that
-- `run_command` starts it.
use learning_ei.Base.{◌<◌, ◌≡◌, refl, arith, ◌∙◌, ap, Bool, not, Option, some, List, ◌∷◌, length}
use learning_ei.Shell.{Text, Args, max_args}
use learning_ei.Shell.Represents.{IsArgv}
use learning_ei.Shell.Command.{Ampersand, check_ampersand, Piped, detect_pipe}
use learning_ei.Shell.Launch.{Process, processes, Launch, run_command}
use learning_ei.Shell.Pipe.{before_bar, behind_bar, IsCut, detect_pipe-IsCut}
use learning_ei.Shell.Ampersand.{
  has_ampersand, without_ampersand, AllProper, check_ampersand-removes,
}
use learning_ei.Shell.Processes.{
  plan, with_program, without_program, calls, started_of-calls, length-before_bar,
  length-without_ampersand, processes-plan,
}

-- What `check_ampersand` and `detect_pipe` leave for the processes.
pub record Prepared (args : Args) (t : Text) (l : List Text) : Type 0 where
  pub a : Ampersand
  pub p : Piped
  pub checked : check_ampersand args (length (t ∷ l)) ≡ some a
  pub concurrent : a.concurrent ≡ has_ampersand (t ∷ l)
  pub detected : detect_pipe a.args a.size ≡ some p
  pub started : processes p ≡ some (calls (plan (t ∷ l)))
  pub cut : IsCut a.args 0 (without_ampersand (t ∷ l)) p
  pub short : length (before_bar (without_ampersand (t ∷ l))) < max_args

pub prepare :
    (args : Args) (t : Text) (l : List Text)
    → AllProper (t ∷ l)
    → IsArgv args 0 (t ∷ l)
    → length (t ∷ l) < max_args
    → Prepared args t l
prepare args t l proper h short =
    let w = without_ampersand (t ∷ l) in
    let (a, checked, concurrent, argv, size) = check_ampersand-removes args t l proper h in
    let (p, found, cut) = detect_pipe-IsCut a.args w argv in
    record {
      a = a;
      p = p;
      checked = checked;
      concurrent = concurrent;
      detected = ap (detect_pipe a.args) size ∙ found;
      started =
          processes-plan p (before_bar w) (behind_bar w) cut.first (omega (arith, cut.first_size))
            cut.other cut.other_size
            (omega (arith, length-before_bar w, length-without_ampersand (t ∷ l)))
            (omega (arith, cut.inside, cut.other_size, length-without_ampersand (t ∷ l)));
      cut = cut;
      short = omega (arith, length-before_bar w, length-without_ampersand (t ∷ l));
    }

-- The launch for a list of arguments.
abbrev pub launch_of : List Text → Args → Launch
launch_of w args = record {
  started = with_program (plan w);
  crashed = without_program (plan w);
  waits = not (has_ampersand w);
  args = args;
}

launch-eq :
    {args : Args} {b b' : Bool} {started started' crashed crashed' : List Process}
    → b ≡ b'
    → started ≡ started'
    → crashed ≡ crashed'
    → ◌≡◌ {A = Option Launch}
        (some (record { started = started; crashed = crashed; waits = not b; args = args }))
        (some (record { started = started'; crashed = crashed'; waits = not b'; args = args }))
launch-eq e f g = cc

-- What `run_command` does, with the cut that leaves the shell's own `args`.
pub run_command-IsCut :
    (args : Args) (t : Text) (l : List Text)
    → AllProper (t ∷ l)
    → IsArgv args 0 (t ∷ l)
    → length (t ∷ l) < max_args
    → (b : Args) × (p : Piped) × (run_command args (length (t ∷ l))
        ≡ some (launch_of (t ∷ l) p.args))
      × IsCut b 0 (without_ampersand (t ∷ l)) p
unfolding run_command
run_command-IsCut args t l proper h short =
    let v = prepare args t l proper h short in
    (
      v.a.args,
      v.p,
      rw (v.checked, run_command, v.detected, v.started)
          (launch-eq v.concurrent (started_of-calls (plan (t ∷ l))).0
            (started_of-calls (plan (t ∷ l))).1),
      v.cut,
    )

-- With at least one argument and at most 40, none of them an empty text and a null pointer behind
-- them, and where the system's calls succeed, the shell in `run_command` makes no null access. The `&`
-- at the end is removed, the rest is cut at the first `|`, and the first two redirections of either
-- part are removed. A part of which an argument is left is started as a process, with its arguments
-- and its files; for a part of which none is left the child calls `execvp` with a null pointer and
-- crashes, and nothing is started. The shell calls `wait` exactly where there is no `&`.
pub run_command-plan :
    (args : Args) (t : Text) (l : List Text)
    → AllProper (t ∷ l)
    → IsArgv args 0 (t ∷ l)
    → length (t ∷ l) < max_args
    → (n : Launch) × (run_command args (length (t ∷ l)) ≡ some n)
      × (n.started ≡ with_program (plan (t ∷ l)))
      × (n.crashed ≡ without_program (plan (t ∷ l)))
      × (n.waits ≡ not (has_ampersand (t ∷ l)))
run_command-plan args t l proper h short =
    let (b, p, e, cut) = run_command-IsCut args t l proper h short in
    (launch_of (t ∷ l) p.args, e, refl, refl, refl)
