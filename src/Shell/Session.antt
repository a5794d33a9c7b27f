-- ===== src/Shell/Session.antt =====
-- `main` of Project-2-1/simple_shell.c: the shell from line to line.
use learning_ei.Base.{
  ℕ, zero, suc, ◌+◌, ◌≤◌, ◌<◌, ◌≡◌, refl, arith, ◌∙◌, ap, sym, subst, Bool-cases, false, not,
  Option, none, some, List, [], ◌∷◌, length, ◌==◌, if◌then◌else◌, inl, inr, Option-cases,
}
use learning_ei.Base.Arrays.{update}
use learning_ei.Shell.{
  Text, Args, max_line, max_args, same_text, init_args, refresh_from, refresh_args, parse_input,
  is_bang_bang, is_delimiter, get_input,
}
use learning_ei.Shell.Represents.{Holds-IsArgv, IsArgv}
use learning_ei.Shell.Parse.{words, starts_word, lengthen_first, length-words, parse_input-IsParsed}
use learning_ei.Shell.Launch.{Launch, run_command}
use learning_ei.Shell.Ampersand.{AllProper, has_ampersand}
use learning_ei.Shell.Processes.{plan, with_program, without_program}
use learning_ei.Shell.Plan.{run_command-plan}

pub record Shell : Type 0 where
  pub args : Args
  pub command : Text

-- The local variables of `main` after `init_args` and `init_command`.
unfoldable pub init : Args → Shell
init args = record { args = init_args args; command = [] }

-- What becomes of a line. A `fault` is an access through a null pointer or outside an array.
pub data Event : Type 0 where
  no_input no_command exited fault : Event
  ran : Launch → Event

abbrev pub exit_text : Text
exit_text = b'e' ∷ b'x' ∷ b'i' ∷ b't' ∷ []

-- The part of the loop from `parse_input` on, once there is a command.
unfoldable pub obey : Args → Text → Event × Shell
obey args command = elim (parse_input args command) [
  | none ↦ (fault, record { args = args; command = command })
  | some (args_num, args') ↦
      let s : Shell = record { args = args'; command = command } in
      if args_num == 0 then (no_command, s) else elim (args' 0) [
        | none ↦ (fault, s)
        | some t ↦
            if same_text t exit_text then (exited, s) else elim (run_command args' args_num) [
              | none ↦ (fault, s)
              | some launch ↦ (ran launch, record { args = launch.args; command = command })
            ]
      ]
]

-- One turn of the loop, where `fgets` reads `input`, if anything.
unfoldable pub turn : Option Text → Shell → Event × Shell
turn input s =
    let args = refresh_args s.args in
    let (ready, command) = get_input input s.command in
    if ready then obey args command else (no_input, record { args = args; command = command })

-- The loop, over what `fgets` reads.
unfoldable pub run : List (Option Text) → Shell → List Event
run [] s = []
run (input ∷ rest) s =
    let (event, s') = turn input s in
    elim event [
      | exited ↦ exited ∷ []
      | fault ↦ fault ∷ []
      | no_input ↦ no_input ∷ run rest s'
      | no_command ↦ no_command ∷ run rest s'
      | ran launch ↦ ran launch ∷ run rest s'
    ]

pub refresh_from-none :
    (k i : ℕ) (args : Args) (j : ℕ) → args j ≡ none → refresh_from k i args j ≡ none
unfolding refresh_from
refresh_from-none zero i args j e = e
refresh_from-none (suc k) i args j e = elim (Option-cases (args i)) [
  | inl end ↦ rw (end, refresh_from) e
  | inr (t, at) ↦
      rw (at, refresh_from) (refresh_from-none k (i + 1) (update args i none) j (ground arith))
]

lengthen_first-AllProper : (c : ℕ) (l : List Text) → AllProper l → AllProper (lengthen_first c l)
lengthen_first-AllProper c [] all = (refl, tt)
lengthen_first-AllProper c (w ∷ l) all = (refl, all.1)

-- No word of a line is empty.
pub words-AllProper : (s : Text) → AllProper (words s)
unfolding words
words-AllProper [] = tt
words-AllProper (c ∷ s) = elim (Bool-cases (is_delimiter c)) [
  | inl gap ↦ rw gap (words-AllProper s)
  | inr letter ↦ elim (Bool-cases (starts_word s)) [
    | inl more ↦ rw (letter, more) (lengthen_first-AllProper c (words s) (words-AllProper s))
    | inr alone ↦ rw (letter, alone) (refl, words-AllProper s)
  ]
]

-- After a line has been parsed into an array of null pointers.
pub parsed-IsArgv :
    (args : Args) (line : Text)
    → ((i : ℕ) → args i ≡ none)
    → length line ≤ max_line
    → (args' : Args) × (parse_input args line ≡ some (length (words line), args'))
      × IsArgv args' 0 (words line)
parsed-IsArgv args line clean short =
    let (n, args', e, parsed) = parse_input-IsParsed args line short in
    let counted : n ≡ length (words line) = parsed.counted ∙ omega arith in
    (
      args',
      e ∙ ap (λ k. some (k, args')) counted,
      Holds-IsArgv args' 0 (words line) parsed.stored (
          parsed.kept (0 + length (words line)) (inr (omega arith))
          ∙ clean (0 + length (words line))),
    )

pub turn-reads :
    (input : Text) (s : Shell)
    → is_bang_bang input ≡ false
    → turn (some input) s ≡ obey (refresh_args s.args) input
unfolding turn get_input
turn-reads input s plain = rw plain refl

pub obey-ran :
    (args args' : Args) (command : Text) (n : ℕ) (t : Text) (launch : Launch)
    → parse_input args command ≡ some (n, args')
    → 0 < n
    → args' 0 ≡ some t
    → same_text t exit_text ≡ false
    → run_command args' n ≡ some launch
    → obey args command ≡ (ran launch, record { args = launch.args; command = command })
unfolding obey
obey-ran args args' command n t launch parsed more first stay ran_it =
    let e : (n == 0) ≡ false = ground arith in rw (parsed, obey, e, first, obey, stay, ran_it) refl

-- From an `args` of null pointers only, let a line of at most 80 characters have at least one word, the
-- first not `exit`, and not begin with `!!`. Where the system's calls succeed, the shell then runs the
-- plan for the words of the line: the commands of the plan that have a program are started, for the
-- others a child crashes in `execvp`, and the shell calls `wait` exactly where the last word does not
-- end in `&`.
pub turn-plan :
    (s : Shell) (line : Text) (t : Text) (l : List Text)
    → ((i : ℕ) → s.args i ≡ none)
    → length line ≤ max_line
    → words line ≡ t ∷ l
    → same_text t exit_text ≡ false
    → is_bang_bang line ≡ false
    → (n : Launch) × ((turn (some line) s).0 ≡ ran n)
      × (n.started ≡ with_program (plan (words line)))
      × (n.crashed ≡ without_program (plan (words line)))
      × (n.waits ≡ not (has_ampersand (words line)))
turn-plan s line t l clean short w stay plain =
    let args = refresh_args s.args in
    let fresh : (i : ℕ) → args i ≡ none =
      λ i. unfold refresh_args in refresh_from-none max_args 0 s.args i (clean i) in
    let (args', e, argv) = parsed-IsArgv args line fresh short in
    let proper : AllProper (t ∷ l) = subst AllProper w (words-AllProper line) in
    let argv' : IsArgv args' 0 (t ∷ l) = subst (IsArgv args' 0) w argv in
    let few = length-words line short in
    let (n, ran_it, started, crashed, waits) =
      run_command-plan args' t l proper argv' (omega (arith, few, ap length w)) in
    let obeyed =
      obey-ran args args' line (length (words line)) t n e (omega (arith, ap length w)) argv'.0 stay
        (ap (λ ws. run_command args' (length ws)) w ∙ ran_it) in
    (
      n,
      ap (λ r. r.0) (turn-reads line s plain ∙ obeyed),
      started ∙ ap (λ ws. with_program (plan ws)) (sym w),
      crashed ∙ ap (λ ws. without_program (plan ws)) (sym w),
      waits ∙ ap (λ ws. not (has_ampersand ws)) (sym w),
    )
