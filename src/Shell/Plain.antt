-- ===== src/Shell/Plain.antt =====
-- Commands of Project-2-1/simple_shell.c in which no argument means anything to the shell.
use learning_ei.Base.{
  ℕ, zero, suc, ◌+◌, ◌-◌, ◌≡◌, refl, arith, ◌∙◌, ap, true, false, none, some, List, [], ◌∷◌, ◌++◌,
  length,
}
use learning_ei.Shell.{Text, Args, max_args, is_empty}
use learning_ei.Shell.Represents.{Holds}
use learning_ei.Shell.Command.{
  check_last, check_ampersand, no_redirection, scan_from, remove_at, check_redirection, detect_from,
  detect_pipe, argv_of,
}
use learning_ei.Shell.Launch.{single, processes, started_of, crashed_of, run_command}
use learning_ei.Shell.Redirect.{is_mark}
use learning_ei.Shell.Pipe.{is_bar, before_bar, behind_bar}
use learning_ei.Shell.Ampersand.{ends_in_ampersand, without_ampersand}

-- Arguments that mean nothing to the shell: no `|`, `<` or `>`, and no `&` at the end.
abbrev pub IsPlain : Text → Type 0
IsPlain t =
    (is_bar t ≡ false) × (is_mark t ≡ false) × (ends_in_ampersand t ≡ false) × (is_empty t ≡ false)

abbrev pub AllPlain : List Text → Type 0
AllPlain [] = Unit {0}
AllPlain (t ∷ l) = IsPlain t × AllPlain l

pub detect_from-plain :
    (k i : ℕ) (args : Args) (size : ℕ) (l : List Text)
    → k ≡ length l
    → Holds args i l
    → AllPlain l
    → detect_from k i args size ≡ some (record { args = args; size = size; second = 0; size2 = 0 })
unfolding detect_from
detect_from-plain zero i args size l e h plain = refl
detect_from-plain (suc k) i args size [] e h plain = absurd (omega arith)
detect_from-plain (suc k) i args size (t ∷ l) e h plain =
    rw (h.0, detect_from, plain.0.0)
      (detect_from-plain k (i + 1) args size l (omega arith) h.1 plain.1)

pub scan_from-plain :
    (k i : ℕ) (args : Args) (size : ℕ) (l : List Text)
    → i + length l ≡ size
    → k ≡ length l
    → Holds args i l
    → AllPlain l
    → scan_from k i args size no_redirection ≡ some no_redirection
unfolding scan_from
scan_from-plain zero i args size l e f h plain = refl
scan_from-plain (suc k) i args size [] e f h plain = absurd (omega arith)
scan_from-plain (suc k) i args size (t ∷ l) e f h plain =
    let onward = scan_from-plain k (i + 1) args size l (omega arith) (omega arith) h.1 plain.1 in
    let at = h.0 in let no_mark = plain.0.1 in ground arith

pub check_last-plain :
    (t : Text) (args : Args) (size : ℕ)
    → ends_in_ampersand t ≡ false
    → is_empty t ≡ false
    → check_last t args size ≡ some (record { concurrent = false; args = args; size = size })
unfolding check_last
check_last-plain [] args size plain proper = cc proper
check_last-plain (c ∷ s) args size plain proper = rw plain refl

pub last_plain :
    (args : Args) (i k : ℕ) (t : Text) (l : List Text)
    → k ≡ i + length l
    → Holds args i (t ∷ l)
    → AllPlain (t ∷ l)
    → (w : Text) × (args k ≡ some w) × (ends_in_ampersand w ≡ false) × (is_empty w ≡ false)
last_plain args i k t [] e h plain =
    let here : k ≡ i = omega arith in (t, ap args here ∙ h.0, plain.0.2, plain.0.3)
last_plain args i k t (u ∷ l) e h plain = last_plain args (i + 1) k u l (omega arith) h.1 plain.1

-- The command gets whatever follows its own arguments in `args`, up to the first null pointer.
pub run_command-plain :
    (args : Args) (t : Text) (l : List Text)
    → Holds args 0 (t ∷ l)
    → AllPlain (t ∷ l)
    → run_command args (length (t ∷ l))
      ≡ some (record {
        started = record { argv = argv_of max_args 0 args; input = none; output = none } ∷ [];
        crashed = [];
        waits = true;
        args = args;
      })
unfolding run_command check_ampersand detect_pipe processes single check_redirection remove_at
    argv_of started_of crashed_of
run_command-plain args t l h plain =
    let size = length (t ∷ l) in
    let (w, at, no_ampersand, proper) = last_plain args 0 (size - 1) t l (omega arith) h plain in
    rw
      (
        at,
        run_command,
        check_ampersand,
        check_last-plain w args size no_ampersand proper,
        detect_from-plain size 0 args size (t ∷ l) refl h plain,
        scan_from-plain size 0 args size (t ∷ l) (omega arith) refl h plain,
        h.0,
      )
      refl

abbrev pub bar : Text
bar = b'|' ∷ []

pub without_ampersand-all : (l : List Text) → AllPlain l → without_ampersand l ≡ l
unfolding without_ampersand
without_ampersand-all [] p = refl
without_ampersand-all ([] ∷ []) p = cc (p.0.3)
without_ampersand-all ((c ∷ w) ∷ []) p = rw (p.0.2) refl
without_ampersand-all (t ∷ u ∷ l) p = ap (λ m. t ∷ m) (without_ampersand-all (u ∷ l) p.1)

pub without_ampersand-plain :
    (a b : List Text)
    → AllPlain a
    → AllPlain b
    → without_ampersand (a ++ (bar ∷ b)) ≡ a ++ (bar ∷ b)
unfolding without_ampersand
without_ampersand-plain [] [] p q = refl
without_ampersand-plain [] (u ∷ b) p q = ap (λ l. bar ∷ l) (without_ampersand-all (u ∷ b) q)
without_ampersand-plain (t ∷ []) b p q = ap (λ l. t ∷ l) (without_ampersand-plain [] b tt q)
without_ampersand-plain (t ∷ u ∷ a) b p q =
    ap (λ l. t ∷ l) (without_ampersand-plain (u ∷ a) b p.1 q)

pub before_bar-append : (a b : List Text) → AllPlain a → before_bar (a ++ (bar ∷ b)) ≡ a
unfolding before_bar
before_bar-append [] b p = refl
before_bar-append (t ∷ a) b p = rw (p.0.0) (ap (λ l. t ∷ l) (before_bar-append a b p.1))

pub behind_bar-append : (a b : List Text) → AllPlain a → behind_bar (a ++ (bar ∷ b)) ≡ b
unfolding behind_bar
behind_bar-append [] b p = refl
behind_bar-append (t ∷ a) b p = rw (p.0.0) (behind_bar-append a b p.1)
