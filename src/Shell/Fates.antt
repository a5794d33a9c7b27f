-- ===== src/Shell/Fates.antt =====
-- What becomes of the processes of a command of Project-2-1/simple_shell.c.
use learning_ei.Base.{
  ◌<◌, ◌≡◌, refl, arith, ◌∙◌, ap, sym, Bool, true, false, not, ◌&&◌, ◌||◌, none, some, List, [],
  ◌∷◌, length, map, ◌==◌, if◌then◌else◌, inl, inr, Bool-cases,
}
use learning_ei.Shell.{Text, Args, max_args}
use learning_ei.Shell.Represents.{IsArgv}
use learning_ei.Shell.Command.{Piped}
use learning_ei.Shell.Launch.{processes}
use learning_ei.Shell.Pipe.{before_bar, behind_bar}
use learning_ei.Shell.Ampersand.{has_ampersand, without_ampersand, AllProper}
use learning_ei.Shell.Processes.{plan_of, calls, argv_of-IsArgv}
use learning_ei.Shell.Plan.{prepare}
use learning_ei.Shell.System.{Os, Fate, returns, fate, fates, Outcome, run_on}
use learning_ei.Shell.Ends.{EachEnds, map-EachEnds}

-- Whether there is a second command.
abbrev pub has_second : List Text → Bool
has_second [] = false
has_second (t ∷ l) = true

-- The processes besides the shell, for the arguments without the `&`: none without the fork; with no
-- second fork for a pipe, the one child, which comes back with the arguments before the `|`; else the
-- planned ones.
pub data Children (os : Os) (w : List Text) : List Fate → Type 0 where
  not_forked : os.can_fork ≡ false → Children os w []
  not_forked_again :
      os.can_fork ≡ true
      → has_second (behind_bar w) ≡ true
      → os.can_fork_again ≡ false
      → Children os w (returns 1 (record { argv = before_bar w; input = none; output = none }) ∷ [])
  forked :
      {fs : List Fate}
      → os.can_fork ≡ true
      → (has_second (behind_bar w) && not os.can_fork_again) ≡ false
      → EachEnds os
          (not (has_second (behind_bar w)) || os.can_pipe)
          (plan_of (before_bar w) (behind_bar w))
          fs
      → Children os w fs

has_second-size :
    (w : List Text) → (has_second w ≡ not (length w == 0)) × (not (has_second w) ≡ (length w == 0))
has_second-size [] = (refl, refl)
has_second-size (t ∷ w) = (ground arith, ground arith)

fates-Children :
    (os : Os) (p : Piped) (w : List Text)
    → os.can_fork ≡ true
    → length (before_bar w) < max_args
    → IsArgv p.args 0 (before_bar w)
    → p.size2 ≡ length (behind_bar w)
    → processes p ≡ some (calls (plan_of (before_bar w) (behind_bar w)))
    → (fs : List Fate) × (fates os p ≡ some fs) × Children os w fs
unfolding fates
fates-Children os p w can short h size started =
    let same : not (p.size2 == 0) ≡ has_second (behind_bar w) =
      rw (size, (has_second-size (behind_bar w)).0) refl in
    let ends : (p.size2 == 0) ≡ not (has_second (behind_bar w)) =
      rw size (sym (has_second-size (behind_bar w)).1) in
    elim (Bool-cases (not (p.size2 == 0) && not os.can_fork_again)) [
      | inl alone ↦ (
        returns 1 (record { argv = before_bar w; input = none; output = none }) ∷ [],
        rw (alone, fates, argv_of-IsArgv max_args 0 p.args (before_bar w) short h) refl,
        not_forked_again can (sym same ∙ ground (arith, alone)) (ground (arith, alone)),
      )
      | inr together ↦ (
        map (fate os (not (has_second (behind_bar w)) || os.can_pipe))
            (calls (plan_of (before_bar w) (behind_bar w))),
        rw (together, fates, started, ends) refl,
        forked can (ap (λ b. b && not os.can_fork_again) (sym same) ∙ together) (
            map-EachEnds os (not (has_second (behind_bar w)) || os.can_pipe)
              (plan_of (before_bar w) (behind_bar w))),
      )
    ]

-- With at least one argument and at most 40, none of them an empty text and a null pointer behind
-- them, and whichever of `fork`, `pipe`, `open`, `dup2` and `execvp` fail, the shell in `run_command`
-- makes no null access. There it has the value 1 where the first `fork` succeeds and 0 where it fails,
-- and it calls `wait` where that `fork` succeeds and there is no `&`. There is no other process without
-- that `fork`; where there is a second command and the second `fork` fails, there is one child, which
-- returns 1 with the arguments before the `|`; and else there is one for each planned command. It
-- returns 0 from `run_command` with its arguments where a file cannot be opened. Else it reads unset
-- variables where it needs a pipe and `pipe` failed; else it crashes in `execvp` where it has no
-- argument; else it runs its command where that can be executed, less the redirections whose `dup2`
-- fails; and else it returns 1 with its arguments.
pub run_on-Children :
    (os : Os) (args : Args) (t : Text) (l : List Text)
    → AllProper (t ∷ l)
    → IsArgv args 0 (t ∷ l)
    → length (t ∷ l) < max_args
    → (o : Outcome) × (run_on os args (length (t ∷ l)) ≡ some o)
      × (o.rv ≡ (if os.can_fork then 1 else 0))
      × (o.waits ≡ (os.can_fork && not (has_ampersand (t ∷ l))))
      × Children os (without_ampersand (t ∷ l)) o.children
unfolding run_on
run_on-Children os args t l proper h short =
    let v = prepare args t l proper h short in
    elim (Bool-cases os.can_fork) [
      | inl can ↦
          let (fs, e, children) =
            fates-Children os v.p (without_ampersand (t ∷ l)) can v.short v.cut.first
              v.cut.other_size v.started in
          (
            record { rv = 1; children = fs; waits = not v.a.concurrent; args = v.p.args },
            rw (v.checked, run_on, v.detected, e, can) refl,
            rw can refl,
            rw (can, v.concurrent) refl,
            children,
          )
      | inr cannot ↦ (
        record { rv = 0; children = []; waits = false; args = v.p.args },
        rw (v.checked, run_on, v.detected, cannot) refl,
        rw cannot refl,
        rw cannot refl,
        not_forked cannot,
      )
    ]
