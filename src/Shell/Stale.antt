-- ===== src/Shell/Stale.antt =====
-- What a pipe leaves in `args` for the next line, in Project-2-1/simple_shell.c.
use learning_ei.Base.{
  ℕ, zero, suc, ◌+◌, ◌≤◌, ◌<◌, ◌≡◌, refl, arith, ◌∙◌, ap, sym, subst, false, none, some, List, [],
  ◌∷◌, ◌++◌, length, length-append, inl, inr,
}
use learning_ei.Base.Arrays.{update}
use learning_ei.Shell.{
  Text, Args, max_line, max_args, same_text, is_bang_bang, refresh_from, refresh_args,
}
use learning_ei.Shell.Represents.{Holds, IsArgv, IsArgv-same, IsArgv-update}
use learning_ei.Shell.Parse.{words, length-words, parse_input-IsParsed}
use learning_ei.Shell.RoundTrip.{AllWords, line_of, words-line_of}
use learning_ei.Shell.Command.{Piped, argv_of}
use learning_ei.Shell.Launch.{Launch, run_command}
use learning_ei.Shell.Pipe.{before_bar, behind_bar, HasSecond, IsCut}
use learning_ei.Shell.Ampersand.{AllProper, without_ampersand}
use learning_ei.Shell.Processes.{argv_of-IsArgv}
use learning_ei.Shell.Plan.{launch_of, run_command-IsCut}
use learning_ei.Shell.Session.{
  Shell, ran, exit_text, turn, obey, turn-reads, obey-ran, refresh_from-none, words-AllProper,
  parsed-IsArgv,
}
use learning_ei.Shell.Plain.{
  AllPlain, bar, run_command-plain, without_ampersand-plain, before_bar-append, behind_bar-append,
}

refresh_from-behind :
    (k i : ℕ) (args : Args) (l : List Text) (j : ℕ)
    → IsArgv args i l
    → i + length l ≤ j
    → refresh_from k i args j ≡ args j
unfolding refresh_from
refresh_from-behind zero i args l j h behind = refl
refresh_from-behind (suc k) i args [] j h behind = rw (h, refresh_from) refl
refresh_from-behind (suc k) i args (t ∷ l) j h behind =
    rw (h.0, refresh_from)
      (refresh_from-behind k (i + 1) (update args i none) l j
          (IsArgv-update args (i + 1) l i none (omega arith) h.1) (omega arith)
        ∙ ground arith)

IsArgv-append :
    (args : Args) (i : ℕ) (l m : List Text)
    → Holds args i l
    → IsArgv args (i + length l) m
    → IsArgv args i (l ++ m)
IsArgv-append args i [] m h h' = subst (λ q. IsArgv args q m) (omega arith) h'
IsArgv-append args i (t ∷ l) m h h' =
    (h.0, IsArgv-append args (i + 1) l m h.1 (subst (λ q. IsArgv args q m) (omega arith) h'))

-- What a line with a pipe leaves in `args`: the first command, and the second one behind it.
record LeavesBoth (args : Args) (a b : List Text) : Type 0 where
  first : IsArgv args 0 a
  second : IsArgv args (length a + 1) b

IsCut-LeavesBoth :
    (args : Args) (cutted : Piped) (a : List Text) (u : Text) (m : List Text)
    → AllPlain a
    → AllPlain (u ∷ m)
    → IsCut args 0 (without_ampersand (a ++ (bar ∷ u ∷ m))) cutted
    → LeavesBoth cutted.args a (u ∷ m)
IsCut-LeavesBoth args cutted a u m p q cut =
    let ws = a ++ (bar ∷ u ∷ m) in
    let whole : without_ampersand ws ≡ ws = without_ampersand-plain a (u ∷ m) p q in
    let before : before_bar (without_ampersand ws) ≡ a =
      ap before_bar whole ∙ before_bar-append a (u ∷ m) p in
    let behind : behind_bar (without_ampersand ws) ≡ u ∷ m =
      ap behind_bar whole ∙ behind_bar-append a (u ∷ m) p in
    let other : IsArgv cutted.args cutted.second (u ∷ m) =
      subst (HasSecond cutted) behind cut.other in
    record {
      first = subst (IsArgv cutted.args 0) before cut.first;
      second = elim cut.place [
        | inl empty ↦ absurd (omega (arith, cut.other_size, ap length behind))
        | inr next ↦
            subst (λ i. IsArgv cutted.args i (u ∷ m))
              (omega (arith, cut.first_size, ap length before)) other
      ];
    }

turn-LeavesBoth :
    (s : Shell) (t : Text) (l : List Text) (u : Text) (m : List Text)
    → let ws = (t ∷ l) ++ (bar ∷ u ∷ m) in
      ((i : ℕ) → s.args i ≡ none)
      → AllPlain (t ∷ l)
      → AllPlain (u ∷ m)
      → AllWords ws
      → length (line_of ws) ≤ max_line
      → same_text t exit_text ≡ false
      → is_bang_bang (line_of ws) ≡ false
      → LeavesBoth (turn (some (line_of ws)) s).1.args (t ∷ l) (u ∷ m) × (length ws < max_args)
turn-LeavesBoth s t l u m clean p q all short stay no_bang =
    let ws : List Text = (t ∷ l) ++ (bar ∷ u ∷ m) in
    let line = line_of ws in
    let same = words-line_of ws all in
    let args = refresh_args s.args in
    let fresh : (i : ℕ) → args i ≡ none =
      λ i. unfold refresh_args in refresh_from-none max_args 0 s.args i (clean i) in
    let (args', e, argv) = parsed-IsArgv args line fresh short in
    let argv' : IsArgv args' 0 ws = subst (IsArgv args' 0) same argv in
    let few : length ws < max_args = omega (arith, length-words line short, ap length same) in
    let (b, cutted, ran_it, cut) =
      run_command-IsCut args' t (l ++ (bar ∷ u ∷ m)) (subst AllProper same (words-AllProper line))
        argv' few in
    let obeyed =
      obey-ran args args' line (length (words line)) t (launch_of ws cutted.args) e
        (omega (arith, ap length same)) argv'.0 stay
        (ap (λ v. run_command args' (length v)) same ∙ ran_it) in
    let left : cutted.args ≡ (turn (some line) s).1.args =
      sym (ap (λ r. r.1.args) (turn-reads line s no_bang ∙ obeyed)) in
    (
      subst (λ v. LeavesBoth v (t ∷ l) (u ∷ m)) left
          (IsCut-LeavesBoth b cutted (t ∷ l) u m p q cut),
      few,
    )

-- Once `args` has been left so, a plain line of one word more than the first command gets the words of
-- the second one behind its own.
obey-second :
    (args : Args) (a b : List Text) (v : Text) (k : List Text)
    → LeavesBoth args a b
    → length (v ∷ k) ≡ length a + 1
    → length (v ∷ k) + length b < max_args
    → AllPlain (v ∷ k)
    → AllWords (v ∷ k)
    → length (line_of (v ∷ k)) ≤ max_line
    → same_text v exit_text ≡ false
    → (n : Launch) × ((obey (refresh_args args) (line_of (v ∷ k))).0 ≡ ran n)
      × (n.started ≡ record { argv = (v ∷ k) ++ b; input = none; output = none } ∷ [])
obey-second args a b v k both longer few plain all short stay =
    let line = line_of (v ∷ k) in
    let fresh = refresh_args args in
    let (n, args', e, parsed) = parse_input-IsParsed fresh line short in
    let same = words-line_of (v ∷ k) all in
    let counted : n ≡ length (v ∷ k) = omega (arith, parsed.counted, ap length same) in
    let stored : Holds args' 0 (v ∷ k) = rw same at parsed.stored in
    let behind : IsArgv args' (0 + length (v ∷ k)) b =
      IsArgv-same args args' (0 + length (v ∷ k)) b
        (λ j q.
          parsed.kept j (inr (omega arith))
          ∙ (unfold refresh_args in
              refresh_from-behind max_args 0 args a j both.first (omega arith)))
        (subst (λ q. IsArgv args q b) (omega arith) both.second) in
    let whole = IsArgv-append args' 0 (v ∷ k) b stored behind in
    let argv : argv_of max_args 0 args' ≡ (v ∷ k) ++ b =
      argv_of-IsArgv max_args 0 args' ((v ∷ k) ++ b) (omega (arith, length-append (v ∷ k) b))
        whole in
    let ran_it = ap (run_command args') counted ∙ run_command-plain args' v k stored plain in
    (
      _,
      ap (λ r. r.0) (obey-ran fresh args' line n v _ e (omega arith) stored.0 stay ran_it),
      ap (λ w. record { argv = w; input = none; output = none } ∷ []) argv,
    )

-- A pipe spoils the next line. From an `args` of null pointers only, let a line with one `|` run two
-- plain commands, and let the next line be a plain command of one word more than the first of the two,
-- both lines of at most 80 characters.
-- Then that command is started with the words of the second one behind its own.
pub turn-stale :
    (s : Shell) (t : Text) (l : List Text) (u : Text) (m : List Text) (v : Text) (k : List Text)
    → let ws = (t ∷ l) ++ (bar ∷ u ∷ m) in
      ((i : ℕ) → s.args i ≡ none)
      → AllPlain (t ∷ l)
      → AllPlain (u ∷ m)
      → AllWords ws
      → length (line_of ws) ≤ max_line
      → same_text t exit_text ≡ false
      → is_bang_bang (line_of ws) ≡ false
      → length k ≡ length l + 1
      → AllPlain (v ∷ k)
      → AllWords (v ∷ k)
      → length (line_of (v ∷ k)) ≤ max_line
      → same_text v exit_text ≡ false
      → is_bang_bang (line_of (v ∷ k)) ≡ false
      → let s' = (turn (some (line_of ws)) s).1 in
        (n : Launch) × ((turn (some (line_of (v ∷ k))) s').0 ≡ ran n)
        × (n.started ≡ record { argv = (v ∷ k) ++ (u ∷ m); input = none; output = none } ∷ [])
turn-stale s t l u m v k clean p q all short stay no_bang longer plain all' short' stay' no_bang' =
    let s' = (turn (some (line_of ((t ∷ l) ++ (bar ∷ u ∷ m)))) s).1 in
    let (both, few) = turn-LeavesBoth s t l u m clean p q all short stay no_bang in
    let (n, obeyed, started) =
      obey-second s'.args (t ∷ l) (u ∷ m) v k both (omega arith)
        (omega (arith, length-append (t ∷ l) (bar ∷ u ∷ m))) plain all' short' stay' in
    (n, ap (λ r. r.0) (turn-reads (line_of (v ∷ k)) s' no_bang') ∙ obeyed, started)
