-- ===== src/Shell/Processes.antt =====
-- What the processes of a command of Project-2-1/simple_shell.c are to run, by its arguments alone, and
-- that `processes` comes to them.
use learning_ei.Base.{
  ℕ, zero, suc, ◌+◌, ◌-◌, ◌<◌, ◌≤◌, ◌≡◌, refl, arith, ◌∙◌, ap, subst, Bool, true, false, Option,
  none, some, List, [], ◌∷◌, length, ◌==◌, if◌then◌else◌,
}
use learning_ei.Shell.{Text, Args, max_args}
use learning_ei.Shell.Represents.{IsArgv}
use learning_ei.Shell.Command.{Piped, argv_of}
use learning_ei.Shell.Launch.{
  Process, Child, call, file_if, started_of, crashed_of, single, first_of_two, second_of_two,
  processes,
}
use learning_ei.Shell.Redirect.{is_input, is_output, strip, file_behind, has_mark}
use learning_ei.Shell.Scan.{check_redirection-strips}
use learning_ei.Shell.Pipe.{before_bar, behind_bar, HasSecond}
use learning_ei.Shell.Ampersand.{without_ampersand}

-- The file that a command's input or output is redirected to.
abbrev pub input_of : List Text → Option Text
input_of l = file_if (has_mark is_input 2 l false) (file_behind is_input 2 l none)

abbrev pub output_of : List Text → Option Text
output_of l = file_if (has_mark is_output 2 l false) (file_behind is_output 2 l none)

-- One command, or two with a pipe, of which the first has no output file and the second no input file.
abbrev pub plan_of : List Text → List Text → List Process
plan_of l [] = record { argv = strip 2 l; input = input_of l; output = output_of l } ∷ []
plan_of l (t ∷ m) =
    record { argv = strip 2 l; input = input_of l; output = none }
    ∷ record { argv = strip 2 (t ∷ m); input = none; output = output_of (t ∷ m) }
    ∷ []

abbrev pub plan : List Text → List Process
plan l = plan_of (before_bar (without_ampersand l)) (behind_bar (without_ampersand l))

-- The commands that have a program to start, and those that have none.
abbrev pub has_program : Process → Bool
has_program p = elim p.argv [ [] ↦ false | t ∷ l ↦ true ]

abbrev pub with_program : List Process → List Process
with_program [] = []
with_program (p ∷ rest) = if has_program p then p ∷ with_program rest else with_program rest

abbrev pub without_program : List Process → List Process
without_program [] = []
without_program (p ∷ rest) =
    if has_program p then without_program rest else p ∷ without_program rest

abbrev pub calls : List Process → List Child
calls [] = []
calls (p ∷ rest) = call p.argv p.input p.output ∷ calls rest

started_of-call :
    (argv : List Text) (input output : Option Text) (rest : List Child)
    → let p : Process = record { argv = argv; input = input; output = output } in
      (started_of (call argv input output ∷ rest)
        ≡ (if has_program p then p ∷ started_of rest else started_of rest))
      × (crashed_of (call argv input output ∷ rest)
          ≡ (if has_program p then crashed_of rest else p ∷ crashed_of rest))
unfolding started_of crashed_of
started_of-call [] input output rest = (refl, refl)
started_of-call (t ∷ l) input output rest = (refl, refl)

pub started_of-calls :
    (ps : List Process)
    → (started_of (calls ps) ≡ with_program ps) × (crashed_of (calls ps) ≡ without_program ps)
unfolding started_of crashed_of
started_of-calls [] = (refl, refl)
started_of-calls (p ∷ rest) =
    let (started, crashed) = started_of-calls rest in
    let here = started_of-call p.argv p.input p.output (calls rest) in
    (
      here.0 ∙ ap (λ ps. if has_program p then p ∷ ps else ps) started,
      here.1 ∙ ap (λ ps. if has_program p then ps else p ∷ ps) crashed,
    )

pub argv_of-IsArgv :
    (k i : ℕ) (args : Args) (l : List Text) → length l < k → IsArgv args i l → argv_of k i args ≡ l
unfolding argv_of
argv_of-IsArgv zero i args l short h = absurd (omega arith)
argv_of-IsArgv (suc k) i args [] short h = rw (h, argv_of) refl
argv_of-IsArgv (suc k) i args (t ∷ l) short h =
    rw (h.0, argv_of) (ap (λ m. t ∷ m) (argv_of-IsArgv k (i + 1) args l (omega arith) h.1))

length-strip : (n : ℕ) (l : List Text) → length (strip n l) ≤ length l
unfolding strip
length-strip zero l = omega arith
length-strip (suc n) [] = omega arith
length-strip (suc n) (t ∷ []) = ground arith
length-strip (suc n) (t ∷ f ∷ rest) =
    ground (arith, length-strip n rest, length-strip (suc n) (f ∷ rest))

pub length-before_bar : (l : List Text) → length (before_bar l) ≤ length l
unfolding before_bar
length-before_bar [] = omega arith
length-before_bar (t ∷ l) = ground (arith, length-before_bar l)

pub length-without_ampersand : (l : List Text) → length (without_ampersand l) ≤ length l
unfolding without_ampersand
length-without_ampersand [] = omega arith
length-without_ampersand ([] ∷ []) = omega arith
length-without_ampersand ((c ∷ s) ∷ []) = ground arith
length-without_ampersand (t ∷ u ∷ l) = omega (arith, length-without_ampersand (u ∷ l))

call-eq :
    {a a' : List Text} {i i' o o' : Option Text}
    → a ≡ a'
    → i ≡ i'
    → o ≡ o'
    → call a i o ≡ call a' i' o'
call-eq e f g = cc

file_if-eq : {b b' : Bool} {f f' : Option Text} → b ≡ b' → f ≡ f' → file_if b f ≡ file_if b' f'
file_if-eq e f = cc

single-plan :
    (args : Args) (l : List Text)
    → IsArgv args 0 l
    → length l < max_args
    → single args (length l) ≡ some (call (strip 2 l) (input_of l) (output_of l) ∷ [])
unfolding single
single-plan args l h short =
    let (r, e, argv, size, has_in, file_in, has_out, file_out) =
      check_redirection-strips args l h in
    rw (e, single)
      (ap (λ p. some (p ∷ []))
        (call-eq
          (argv_of-IsArgv max_args 0 r.args (strip 2 l) (omega (arith, length-strip 2 l)) argv)
          (file_if-eq has_in file_in) (file_if-eq has_out file_out)))

first_of_two-plan :
    (args : Args) (l : List Text)
    → IsArgv args 0 l
    → length l < max_args
    → first_of_two args (length l) ≡ some (call (strip 2 l) (input_of l) none)
unfolding first_of_two
first_of_two-plan args l h short =
    let (r, e, argv, size, has_in, file_in, has_out, file_out) =
      check_redirection-strips args l h in
    rw (e, first_of_two)
      (ap some (
        call-eq
          (argv_of-IsArgv max_args 0 r.args (strip 2 l) (omega (arith, length-strip 2 l)) argv)
          (file_if-eq has_in file_in) refl))

IsArgv-shift :
    (args : Args) (k i : ℕ) (l : List Text) → IsArgv args (k + i) l → IsArgv (λ j. args (k + j)) i l
IsArgv-shift args k i [] h = h
IsArgv-shift args k i (t ∷ l) h =
    let e : k + i + 1 ≡ k + (i + 1) = omega arith in
    (h.0, IsArgv-shift args k (i + 1) l (subst (λ q. IsArgv args q l) e h.1))

second_of_two-plan :
    (args : Args) (second : ℕ) (l : List Text)
    → IsArgv args second l
    → second + length l < max_args
    → second_of_two args second (length l) ≡ some (call (strip 2 l) none (output_of l))
unfolding second_of_two
second_of_two-plan args second l h short =
    let e : second ≡ second + 0 = omega arith in
    let (r, done, argv, size, has_in, file_in, has_out, file_out) =
      check_redirection-strips (λ i. args (second + i)) l
        (IsArgv-shift args second 0 l (subst (λ q. IsArgv args q l) e h)) in
    rw (done, second_of_two)
      (ap some (
        call-eq
          (argv_of-IsArgv (max_args - second) 0 r.args (strip 2 l) (omega (arith, length-strip 2 l))
            argv)
          refl (file_if-eq has_out file_out)))

pub processes-plan :
    (p : Piped) (l m : List Text)
    → IsArgv p.args 0 l
    → p.size ≡ length l
    → HasSecond p m
    → p.size2 ≡ length m
    → length l < max_args
    → p.second + length m < max_args
    → processes p ≡ some (calls (plan_of l m))
unfolding processes
processes-plan p l [] h size other size2 short short2 =
    let no_second : (p.size2 == 0) ≡ true = ground arith in
    rw no_second (ap (single p.args) size ∙ single-plan p.args l h short)
processes-plan p l (t ∷ m) h size other size2 short short2 =
    let some_second : (p.size2 == 0) ≡ false = ground arith in
    let first = ap (first_of_two p.args) size ∙ first_of_two-plan p.args l h short in
    let rest =
      ap (second_of_two p.args p.second) size2
      ∙ second_of_two-plan p.args p.second (t ∷ m) other short2 in
    rw (some_second, first, rest) refl
