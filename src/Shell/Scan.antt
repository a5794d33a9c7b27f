-- ===== src/Shell/Scan.antt =====
-- The two loops of `check_redirection` of Project-2-1/simple_shell.c, and the function.
use learning_ei.Base.{
  ℕ, zero, suc, ◌+◌, ◌*◌, ◌<◌, ◌≤◌, ◌≡◌, refl, arith, ◌∙◌, ap, true, false, none, some, ◌⊎◌, List,
  [], ◌∷◌, ◌++◌, length, inl, inr, Bool-cases,
}
use mathlib.Core.List.{append_assoc, append-nil}
use learning_ei.Shell.{Text, Args, same_text}
use learning_ei.Shell.Represents.{IsArgv}
use learning_ei.Shell.Command.{
  Redirection, no_redirection, add_input, add_output, scan_from, remove_at, Redirected,
  check_redirection,
}
use learning_ei.Shell.Redirect.{
  is_input, is_output, is_mark, strip, file_behind, has_mark, marks, Removes, marks-Removes,
}
use learning_ei.Shell.Remove.{remove_at-IsArgv}

-- What is found from index `i` on.
abbrev after : ℕ → ℕ → List Text → Redirection → Redirection
after n i l r = record {
  has_input = has_mark is_input n l r.has_input;
  has_output = has_mark is_output n l r.has_output;
  input_file = file_behind is_input n l r.input_file;
  output_file = file_behind is_output n l r.output_file;
  to_remove = marks n i l ++ r.to_remove;
}

scan-end :
    (fuel i : ℕ) (args : Args) (size : ℕ) (r : Redirection)
    → i ≡ size
    → scan_from fuel i args size r ≡ some r
unfolding scan_from
scan-end zero i args size r e = refl
scan-end (suc fuel) i args size r e = ground arith

scan-enough :
    (fuel i : ℕ) (args : Args) (size : ℕ) (r : Redirection)
    → 4 ≤ length r.to_remove
    → scan_from fuel i args size r ≡ some r
unfolding scan_from
scan-enough zero i args size r e = refl
scan-enough (suc fuel) i args size r e = ground arith

module _ (fuel i : ℕ) (args : Args) (size : ℕ) (r : Redirection) where
  module _ {t : Text} (more : i < size) (few : length r.to_remove < 4) (at : args i ≡ some t) where
    scan-missing :
        is_mark t ≡ true
        → i + 1 ≡ size
        → scan_from (suc fuel) i args size r ≡ some (record r { to_remove = i ∷ r.to_remove })
    unfolding scan_from
    scan-missing mark e = ground arith

    scan-input :
        is_input t ≡ true
        → i + 1 < size
        → scan_from (suc fuel) i args size r
          ≡ scan_from fuel (i + 2) args size (add_input i (args (i + 1)) r)
    unfolding scan_from
    scan-input mark e = ground arith

    scan-output :
        is_output t ≡ true
        → i + 1 < size
        → scan_from (suc fuel) i args size r
          ≡ scan_from fuel (i + 2) args size (add_output i (args (i + 1)) r)
    unfolding scan_from
    scan-output mark e = ground arith

    scan-plain :
        is_mark t ≡ false → scan_from (suc fuel) i args size r ≡ scan_from fuel (i + 1) args size r
    unfolding scan_from
    scan-plain other = ground arith

is_mark-cases : (t : Text) → (is_input t ≡ true) ⊎ (is_output t ≡ true) ⊎ (is_mark t ≡ false)
is_mark-cases t = elim (Bool-cases (is_input t)) [
  | inl input ↦ inl input
  | inr other ↦ elim (Bool-cases (same_text (b'>' ∷ []) t)) [
    | inl output ↦ inr (inl (rw other output))
    | inr neither ↦ inr (inr (rw other neither))
  ]
]

module _ (n i : ℕ) (t f : Text) (rest : List Text) (r : Redirection) where
  after-input :
      is_input t ≡ true
      → after n (i + 2) rest (add_input i (some f) r) ≡ after (suc n) i (t ∷ f ∷ rest) r
  unfolding marks file_behind has_mark
  after-input input =
      rw (input, append_assoc (marks n (i + 2) rest) ((i + 1) ∷ i ∷ []) r.to_remove) refl

  after-output :
      is_output t ≡ true
      → after n (i + 2) rest (add_output i (some f) r) ≡ after (suc n) i (t ∷ f ∷ rest) r
  unfolding marks file_behind has_mark
  after-output output =
      let other : is_input t ≡ false = ground arith in
      let mark : same_text (b'>' ∷ []) t ≡ true = ground arith in
      rw (other, mark, append_assoc (marks n (i + 2) rest) ((i + 1) ∷ i ∷ []) r.to_remove) refl

-- The first loop finds the marks and the file names behind them.
scan_from-after :
    (fuel n i : ℕ) (args : Args) (size : ℕ) (r : Redirection) (l : List Text)
    → IsArgv args i l
    → i + length l ≡ size
    → length r.to_remove + n * 2 ≡ 4
    → length l ≤ fuel
    → scan_from fuel i args size r ≡ some (after n i l r)
unfolding marks file_behind has_mark
scan_from-after fuel zero i args size r l h e four enough =
    scan-enough fuel i args size r (omega arith)
scan_from-after fuel (suc n) i args size r [] h e four enough =
    scan-end fuel i args size r (omega arith)
scan_from-after zero (suc n) i args size r (t ∷ l) h e four enough = absurd (omega arith)
scan_from-after (suc fuel) (suc n) i args size r (t ∷ []) h e four enough =
    elim (Bool-cases (is_mark t)) [
      | inl mark ↦
          scan-missing fuel i args size r (omega arith) (omega arith) h.0 mark (omega arith)
          ∙ rw mark refl
      | inr other ↦
          scan-plain fuel i args size r (omega arith) (omega arith) h.0 other
          ∙ (scan-end fuel (i + 1) args size r (omega arith) ∙ rw other refl)
    ]
scan_from-after (suc fuel) (suc n) i args size r (t ∷ f ∷ rest) h e four enough =
    let two : i + 1 + 1 ≡ i + 2 = omega arith in
    elim (is_mark-cases t) [
      | inl input ↦
          scan-input fuel i args size r (omega arith) (omega arith) h.0 input (omega arith)
          ∙ (scan_from-after fuel n (i + 2) args size (add_input i (args (i + 1)) r) rest
                (rw two at h.1.1) (omega arith) (omega arith) (omega arith)
              ∙ (ap (λ x. some (after n (i + 2) rest (add_input i x r))) h.1.0
                  ∙ ap some (after-input n i t f rest r input)))
      | inr (inl output) ↦
          scan-output fuel i args size r (omega arith) (omega arith) h.0 output (omega arith)
          ∙ (scan_from-after fuel n (i + 2) args size (add_output i (args (i + 1)) r) rest
                (rw two at h.1.1) (omega arith) (omega arith) (omega arith)
              ∙ (ap (λ x. some (after n (i + 2) rest (add_output i x r))) h.1.0
                  ∙ ap some (after-output n i t f rest r output)))
      | inr (inr plain) ↦
          scan-plain fuel i args size r (omega arith) (omega arith) h.0 plain
          ∙ (scan_from-after fuel (suc n) (i + 1) args size r (f ∷ rest) h.1 (omega arith) four
                (omega arith)
              ∙ rw plain refl)
    ]

-- From the arguments of a command, up to a null pointer, `check_redirection` returns without a null
-- access. It takes the first two marks (`<` or `>`) with the file names behind them away and keeps all
-- other arguments in order, again up to a null pointer; it reports for each direction whether it is
-- redirected, and to the last file named for it.
pub check_redirection-strips :
    (args : Args) (l : List Text)
    → IsArgv args 0 l
    → (r : Redirected) × (check_redirection args (length l) ≡ some r)
      × IsArgv r.args 0 (strip 2 l)
      × (r.size ≡ length (strip 2 l))
      × (r.files.has_input ≡ has_mark is_input 2 l false)
      × (r.files.input_file ≡ file_behind is_input 2 l none)
      × (r.files.has_output ≡ has_mark is_output 2 l false)
      × (r.files.output_file ≡ file_behind is_output 2 l none)
unfolding check_redirection
check_redirection-strips args l h =
    let found = after 2 0 l no_redirection in
    let scanned : scan_from (length l) 0 args (length l) no_redirection ≡ some found =
      scan_from-after (length l) 2 0 args (length l) no_redirection l h (omega arith) (omega arith)
        (omega arith) in
    let gone : Removes 0 found.to_remove l (strip 2 l) =
      rw (append-nil (marks 2 0 l)) (marks-Removes 2 0 l) in
    let (kept, size) = remove_at-IsArgv args (length l) gone refl h in
    (
      record {
        args = (remove_at found.to_remove args (length l)).0;
        size = (remove_at found.to_remove args (length l)).1;
        files = found;
      },
      rw (scanned, check_redirection) refl,
      kept,
      size,
      refl,
      refl,
      refl,
      refl,
    )
