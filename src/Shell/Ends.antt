-- ===== src/Shell/Ends.antt =====
-- How one process of a command of Project-2-1/simple_shell.c ends.
use learning_ei.Base.{
  ◌≡◌, refl, Bool, true, false, ◌&&◌, Option, none, some, List, [], ◌∷◌, map, if◌then◌else◌, inl,
  inr, Bool-cases,
}
use learning_ei.Shell.{Text}
use learning_ei.Shell.Launch.{Process, call}
use learning_ei.Shell.Processes.{has_program, calls}
use learning_ei.Shell.System.{
  Os, stdin_fileno, stdout_fileno, Fate, runs, crashes, reads_unset, returns, redirect_input,
  redirect_io, fate,
}

-- Whether the files of the process can be opened.
abbrev pub opens : (Text → Bool) → Option Text → Bool
opens can none = true
opens can (some file) = can file

abbrev pub has_files : Os → Process → Bool
has_files os p = opens os.can_create p.output && opens os.can_open p.input

-- The redirections that are made: a `dup2` that fails leaves one out.
abbrev pub made : Bool → Option Text → Option Text
made can none = none
made can (some file) = if can then some file else none

abbrev pub connected : Os → Process → Process
connected os p = record {
  argv = p.argv;
  input = made (os.can_dup stdin_fileno) p.input;
  output = made (os.can_dup stdout_fileno) p.output;
}

-- Where a file cannot be opened, a process returns 0 with its arguments. Where they all can, it comes
-- to the pipe, if it needs one, and reads unset variables if that was not made; then it crashes if it
-- has no program, runs if the program can be executed, and returns 1 with its arguments if not.
pub data Ends (os : Os) (has_ends : Bool) (p : Process) : Fate → Type 0 where
  no_file :
      (q : Process)
      → has_files os p ≡ false
      → q.argv ≡ p.argv
      → q.input ≡ none
      → Ends os has_ends p (returns 0 q)
  no_pipe :
      has_files os p ≡ true → has_ends ≡ false → Ends os has_ends p (reads_unset (connected os p))
  crashed :
      has_files os p ≡ true
      → has_ends ≡ true
      → has_program p ≡ false
      → Ends os has_ends p (crashes (connected os p))
  ran :
      has_files os p ≡ true
      → has_ends ≡ true
      → has_program p ≡ true
      → os.can_exec p.argv ≡ true
      → Ends os has_ends p (runs (connected os p))
  not_found :
      has_files os p ≡ true
      → has_ends ≡ true
      → has_program p ≡ true
      → os.can_exec p.argv ≡ false
      → Ends os has_ends p (returns 1 (connected os p))

pub data EachEnds (os : Os) (has_ends : Bool) : List Process → List Fate → Type 0 where
  nobody : EachEnds os has_ends [] []
  one_more :
      {p : Process} {ps : List Process} {f : Fate} {fs : List Fate}
      → Ends os has_ends p f
      → EachEnds os has_ends ps fs
      → EachEnds os has_ends (p ∷ ps) (f ∷ fs)

-- What `redirect_io` leaves: with both files opened the redirections that are made, else the
-- arguments stay.
data Redirects (os : Os) (p : Process) : Bool × Process → Type 0 where
  opened : has_files os p ≡ true → Redirects os p (true, connected os p)
  failed :
      (q : Process)
      → has_files os p ≡ false
      → q.argv ≡ p.argv
      → q.input ≡ none
      → Redirects os p (false, q)

redirect_input-Redirects :
    (os : Os) (argv : List Text) (input output : Option Text)
    → opens os.can_create output ≡ true
    → let output' = made (os.can_dup stdout_fileno) output in
      Redirects os
        (record { argv = argv; input = input; output = output })
        (redirect_input os (record { argv = argv; input = input; output = output' }))
unfolding redirect_input
redirect_input-Redirects os argv none output created = opened (rw created refl)
redirect_input-Redirects os argv (some file) output created = elim (Bool-cases (os.can_open file)) [
  | inl can ↦ rw can (opened (rw (created, can) refl))
  | inr cannot ↦
      let output' = made (os.can_dup stdout_fileno) output in
      rw cannot (
        failed (record { argv = argv; input = none; output = output' }) (rw (created, cannot) refl)
          refl refl)
]

redirect_io-Redirects :
    (os : Os) (argv : List Text) (input output : Option Text)
    → Redirects os
        (record { argv = argv; input = input; output = output })
        (redirect_io os (record { argv = argv; input = input; output = output }))
unfolding redirect_io
redirect_io-Redirects os argv input none = redirect_input-Redirects os argv input none refl
redirect_io-Redirects os argv input (some file) = elim (Bool-cases (os.can_create file)) [
  | inl can ↦ rw can (redirect_input-Redirects os argv input (some file) can)
  | inr cannot ↦
      rw cannot
        (failed (record { argv = argv; input = none; output = none }) (rw cannot refl) refl refl)
]

Redirects-execs :
    (os : Os) (has_ends : Bool) (p : Process) (r : Bool × Process)
    → has_program p ≡ true
    → Redirects os p r
    → Ends os has_ends p (
        if r.0
        then if has_ends
          then if os.can_exec r.1.argv then runs r.1 else returns 1 r.1
          else reads_unset r.1
        else returns 0 r.1)
Redirects-execs os false p _ program (opened all) = no_pipe all refl
Redirects-execs os true p _ program (opened all) = elim (Bool-cases (os.can_exec p.argv)) [
  | inl can ↦ rw can (ran all refl program can)
  | inr cannot ↦ rw cannot (not_found all refl program cannot)
]
Redirects-execs os has_ends p _ program (failed q not_all same closed) =
    no_file q not_all same closed

Redirects-null :
    (os : Os) (has_ends : Bool) (p : Process) (r : Bool × Process)
    → has_program p ≡ false
    → Redirects os p r
    → Ends os has_ends p
        (if r.0 then if has_ends then crashes r.1 else reads_unset r.1 else returns 0 r.1)
Redirects-null os false p _ program (opened all) = no_pipe all refl
Redirects-null os true p _ program (opened all) = crashed all refl program
Redirects-null os has_ends p _ program (failed q not_all same closed) =
    no_file q not_all same closed

fate-Ends :
    (os : Os) (has_ends : Bool) (argv : List Text) (input output : Option Text)
    → Ends os has_ends
        (record { argv = argv; input = input; output = output })
        (fate os has_ends (call argv input output))
unfolding fate
fate-Ends os has_ends [] input output =
    Redirects-null os has_ends (record { argv = []; input = input; output = output }) _ refl
      (redirect_io-Redirects os [] input output)
fate-Ends os has_ends (t ∷ l) input output =
    Redirects-execs os has_ends (record { argv = t ∷ l; input = input; output = output }) _ refl
      (redirect_io-Redirects os (t ∷ l) input output)

pub map-EachEnds :
    (os : Os) (has_ends : Bool) (ps : List Process)
    → EachEnds os has_ends ps (map (fate os has_ends) (calls ps))
map-EachEnds os has_ends [] = nobody
map-EachEnds os has_ends (p ∷ ps) =
    one_more (fate-Ends os has_ends p.argv p.input p.output) (map-EachEnds os has_ends ps)
