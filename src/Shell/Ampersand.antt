-- ===== src/Shell/Ampersand.antt =====
-- `check_ampersand` of Project-2-1/simple_shell.c against its description on lists.
use learning_ei.Base.{
  ℕ, ◌+◌, ◌-◌, ◌≡◌, refl, arith, ◌∙◌, ap, sym, Bool, true, false, none, some, List, [], ◌∷◌, length,
  ◌==◌, if◌then◌else◌, inl, inr, Bool-cases,
}
use learning_ei.Base.Arrays.{update}
use learning_ei.Shell.{Text, Args, is_empty}
use learning_ei.Shell.Represents.{IsArgv}
use learning_ei.Shell.Command.{last_char, drop_last, Ampersand, check_last, check_ampersand}

-- Whether the last argument ends in `&`, and the arguments without that character.
abbrev pub ends_in_ampersand : Text → Bool
ends_in_ampersand [] = false
ends_in_ampersand (c ∷ s) = last_char c s == b'&'

unfoldable pub has_ampersand : List Text → Bool
has_ampersand [] = false
has_ampersand (t ∷ []) = ends_in_ampersand t
has_ampersand (t ∷ u ∷ l) = has_ampersand (u ∷ l)

abbrev pub cut_last : Text → List Text
cut_last [] = []
cut_last (c ∷ s) =
    if last_char c s == b'&'
    then if is_empty s then [] else drop_last (c ∷ s) ∷ []
    else (c ∷ s) ∷ []

unfoldable pub without_ampersand : List Text → List Text
without_ampersand [] = []
without_ampersand (t ∷ []) = cut_last t
without_ampersand (t ∷ u ∷ l) = t ∷ without_ampersand (u ∷ l)

-- No argument is an empty text.
abbrev pub AllProper : List Text → Type 0
AllProper [] = Unit {0}
AllProper (t ∷ l) = (is_empty t ≡ false) × AllProper l

-- The last word at its index `k`, and what the two writes of `check_ampersand` leave there.
record LastWord (args : Args) (i k : ℕ) (l : List Text) : Type 0 where
  c : ℕ
  s : Text
  at : args k ≡ some (c ∷ s)
  has : has_ampersand l ≡ (last_char c s == b'&')
  plain : (last_char c s == b'&') ≡ false → without_ampersand l ≡ l
  alone :
      (last_char c s == b'&') ≡ true
      → is_empty s ≡ true
      → IsArgv (update args k none) i (without_ampersand l)
        × (length (without_ampersand l) + 1 ≡ length l)
  joined :
      (last_char c s == b'&') ≡ true
      → is_empty s ≡ false
      → IsArgv (update args k (some (drop_last (c ∷ s)))) i (without_ampersand l)
        × (length (without_ampersand l) ≡ length l)

last_word :
    (args : Args) (i k : ℕ) (t : Text) (l : List Text)
    → k ≡ i + length l
    → AllProper (t ∷ l)
    → IsArgv args i (t ∷ l)
    → LastWord args i k (t ∷ l)
unfolding has_ampersand without_ampersand
last_word args i k [] [] e proper h = cc (proper.0)
last_word args i k (c ∷ s) [] e proper h =
    let here : k ≡ i = omega arith in
    record {
      c = c;
      s = s;
      at = ap args here ∙ h.0;
      has = refl;
      plain = λ q. rw q refl;
      alone = λ q r. rw (q, r) (ground arith, omega arith);
      joined = λ q r. rw (q, r) ((ground arith, ground (arith, h.1)), omega arith);
    }
last_word args i k t (u ∷ l) e proper h =
    let w = last_word args (i + 1) k u l (omega arith) proper.1 h.1 in
    record {
      c = w.c;
      s = w.s;
      at = w.at;
      has = w.has;
      plain = λ q. ap (λ m. t ∷ m) (w.plain q);
      alone = λ q r. let (argv, n) = w.alone q r in ((ground (arith, h.0), argv), omega (arith, n));
      joined =
          λ q r. let (argv, n) = w.joined q r in ((ground (arith, h.0), argv), omega (arith, n));
    }

-- From the arguments of a command, at least one and none an empty text, `check_ampersand` makes no
-- null access, reports whether the last one ends in `&`, and leaves the arguments without that
-- character, up to a null pointer, with their number: an argument that is only `&` goes.
pub check_ampersand-removes :
    (args : Args) (t : Text) (l : List Text)
    → AllProper (t ∷ l)
    → IsArgv args 0 (t ∷ l)
    → (a : Ampersand) × (check_ampersand args (length (t ∷ l)) ≡ some a)
      × (a.concurrent ≡ has_ampersand (t ∷ l))
      × IsArgv a.args 0 (without_ampersand (t ∷ l))
      × (a.size ≡ length (without_ampersand (t ∷ l)))
unfolding check_ampersand check_last
check_ampersand-removes args t l proper h =
    let size = length (t ∷ l) in
    let w = last_word args 0 (size - 1) t l (omega arith) proper h in
    elim (Bool-cases (last_char w.c w.s == b'&')) [
      | inr other ↦ (
        record { concurrent = false; args = args; size = size },
        rw (w.at, check_ampersand, other) refl,
        sym (w.has ∙ other),
        rw (w.plain other) h,
        omega (arith, ap length (w.plain other)),
      )
      | inl ends ↦ elim (Bool-cases (is_empty w.s)) [
        | inl only ↦
            let (argv, n) = w.alone ends only in
            (
              record { concurrent = true; args = update args (size - 1) none; size = size - 1 },
              rw (w.at, check_ampersand, ends, only) refl,
              sym (w.has ∙ ends),
              argv,
              omega (arith, n),
            )
        | inr more ↦
            let (argv, n) = w.joined ends more in
            (
              record {
                concurrent = true;
                args = update args (size - 1) (some (drop_last (w.c ∷ w.s)));
                size = size;
              },
              rw (w.at, check_ampersand, ends, more) refl,
              sym (w.has ∙ ends),
              argv,
              omega (arith, n),
            )
      ]
    ]
