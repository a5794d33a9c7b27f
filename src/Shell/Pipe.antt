-- ===== src/Shell/Pipe.antt =====
-- `detect_pipe` of Project-2-1/simple_shell.c against its description on lists.
use learning_ei.Base.{
  ℕ, zero, suc, ◌+◌, ◌-◌, ◌<◌, ◌≤◌, ◌≡◌, refl, arith, ◌∙◌, Bool, true, false, none, some, ◌⊎◌, List,
  [], ◌∷◌, length, if◌then◌else◌, inl, inr, Bool-cases,
}
use learning_ei.Base.Arrays.{update}
use learning_ei.Shell.{Text, Args, same_text}
use learning_ei.Shell.Represents.{IsArgv, IsArgv-update}
use learning_ei.Shell.Command.{Piped, detect_from, detect_pipe}

abbrev pub is_bar : Text → Bool
is_bar t = same_text t (b'|' ∷ [])

-- The arguments before the first `|`, and those behind it.
unfoldable pub before_bar : List Text → List Text
before_bar [] = []
before_bar (t ∷ rest) = let onward = before_bar rest in if is_bar t then [] else t ∷ onward

unfoldable pub behind_bar : List Text → List Text
behind_bar [] = []
behind_bar (t ∷ rest) = let onward = behind_bar rest in if is_bar t then rest else onward

before_bar-other :
    (t : Text) (l : List Text) → is_bar t ≡ false → before_bar (t ∷ l) ≡ t ∷ before_bar l
unfolding before_bar
before_bar-other t l other = rw other refl

behind_bar-other : (t : Text) (l : List Text) → is_bar t ≡ false → behind_bar (t ∷ l) ≡ behind_bar l
unfolding behind_bar
behind_bar-other t l other = rw other refl

before_bar-bar : (t : Text) (l : List Text) → is_bar t ≡ true → before_bar (t ∷ l) ≡ []
unfolding before_bar
before_bar-bar t l bar = rw bar refl

behind_bar-bar : (t : Text) (l : List Text) → is_bar t ≡ true → behind_bar (t ∷ l) ≡ l
unfolding behind_bar
behind_bar-bar t l bar = rw bar refl

-- The second command, if it has any arguments.
abbrev pub HasSecond : Piped → List Text → Type 0
HasSecond p [] = Unit {0}
HasSecond p (t ∷ l) = IsArgv p.args p.second (t ∷ l)

HasSecond-IsArgv : (p : Piped) (l : List Text) → IsArgv p.args p.second l → HasSecond p l
HasSecond-IsArgv p [] h = tt
HasSecond-IsArgv p (t ∷ l) h = h

-- What the loop leaves from index `i` on.
pub record IsCut (args : Args) (i : ℕ) (l : List Text) (p : Piped) : Type 0 where
  pub first : IsArgv p.args i (before_bar l)
  pub first_size : p.size ≡ i + length (before_bar l)
  pub other : HasSecond p (behind_bar l)
  pub other_size : p.size2 ≡ length (behind_bar l)
  pub place : (p.size2 ≡ 0) ⊎ (p.second ≡ p.size + 1)
  pub inside : p.second + p.size2 ≤ i + length l
  pub kept : (j : ℕ) → j < i → p.args j ≡ args j

detect_from-IsCut :
    (k i : ℕ) (args : Args) (size : ℕ) (l : List Text)
    → k ≡ length l
    → i + length l ≡ size
    → IsArgv args i l
    → (p : Piped) × (detect_from k i args size ≡ some p) × IsCut args i l p
unfolding detect_from
detect_from-IsCut zero i args size [] e f h = (
  record { args = args; size = size; second = 0; size2 = 0 },
  refl,
  unfold before_bar behind_bar in
      record {
        first = h;
        first_size = omega arith;
        other = tt;
        other_size = omega arith;
        place = inl refl;
        inside = omega arith;
        kept = λ j q. refl;
      },
)
detect_from-IsCut (suc k) i args size [] e f h = absurd (omega arith)
detect_from-IsCut zero i args size (t ∷ l) e f h = absurd (omega arith)
detect_from-IsCut (suc k) i args size (t ∷ l) e f h = elim (Bool-cases (is_bar t)) [
  | inl bar ↦ (
    record { args = update args i none; size = i; second = i + 1; size2 = size - i - 1 },
    rw (h.0, detect_from, bar) refl,
    record {
      first = rw (before_bar-bar t l bar) (ground arith);
      first_size = rw (before_bar-bar t l bar) (omega arith);
      other = rw (behind_bar-bar t l bar) (
          HasSecond-IsArgv
            (record { args = update args i none; size = i; second = i + 1; size2 = size - i - 1 }) l
            (IsArgv-update args (i + 1) l i none (omega arith) h.1));
      other_size = rw (behind_bar-bar t l bar) (omega arith);
      place = inr refl;
      inside = omega arith;
      kept = λ j q. ground arith;
    },
  )
  | inr letter ↦
      let (p, found, cut) =
        detect_from-IsCut k (i + 1) args size l (omega arith) (omega arith) h.1 in
      (
        p,
        rw (h.0, detect_from, letter) found,
        record {
          first = rw (before_bar-other t l letter) (cut.kept i (omega arith) ∙ h.0, cut.first);
          first_size = rw (before_bar-other t l letter) (omega (arith, cut.first_size));
          other = rw (behind_bar-other t l letter) cut.other;
          other_size = rw (behind_bar-other t l letter) cut.other_size;
          place = cut.place;
          inside = omega (arith, cut.inside);
          kept = λ j q. cut.kept j (omega arith);
        },
      )
]

-- From the arguments of a command, `detect_pipe` makes no null access. It leaves the arguments before
-- the first `|`, up to a null pointer, with their number, and the number of those behind it; where
-- there are any, they are the second command, up to a null pointer.
pub detect_pipe-IsCut :
    (args : Args) (l : List Text)
    → IsArgv args 0 l
    → (p : Piped) × (detect_pipe args (length l) ≡ some p) × IsCut args 0 l p
unfolding detect_pipe
detect_pipe-IsCut args l h = detect_from-IsCut (length l) 0 args (length l) l refl (omega arith) h
