-- ===== src/Shell/Represents.antt =====
-- Argument arrays of Project-2-1/simple_shell.c as lists.
use learning_ei.Base.{
  ℕ, ◌+◌, ◌<◌, ◌≤◌, ◌≡◌, ap, ◌∙◌, arith, Option, none, some, List, [], ◌∷◌, length,
}
use learning_ei.Base.Arrays.{update}
use learning_ei.Shell.{Text, Args}

-- From index `i` on, the array has the arguments of the list. What stands behind them is open.
abbrev pub Holds : Args → ℕ → List Text → Type 0
Holds args i [] = Unit {0}
Holds args i (t ∷ rest) = (args i ≡ some t) × Holds args (i + 1) rest

pub Holds-update :
    (args : Args) (i : ℕ) (l : List Text) (k : ℕ) (x : Option Text)
    → k < i
    → Holds args i l
    → Holds (update args k x) i l
Holds-update args i [] k x before h = tt
Holds-update args i (t ∷ rest) k x before h =
    (ground arith, Holds-update args (i + 1) rest k x (omega arith) h.1)

-- The same, for an entry behind the list.
pub Holds-update_behind :
    (args : Args) (i : ℕ) (l : List Text) (k : ℕ) (x : Option Text)
    → i + length l ≤ k
    → Holds args i l
    → Holds (update args k x) i l
Holds-update_behind args i [] k x behind h = tt
Holds-update_behind args i (t ∷ rest) k x behind h =
    (ground arith, Holds-update_behind args (i + 1) rest k x (omega arith) h.1)

-- From index `i` on, the array has the arguments of the list and then a null pointer.
abbrev pub IsArgv : Args → ℕ → List Text → Type 0
IsArgv args i [] = args i ≡ none
IsArgv args i (t ∷ rest) = (args i ≡ some t) × IsArgv args (i + 1) rest

pub IsArgv-same :
    (args args' : Args) (i : ℕ) (l : List Text)
    → ((j : ℕ) → i ≤ j → args' j ≡ args j)
    → IsArgv args i l
    → IsArgv args' i l
IsArgv-same args args' i [] same h = same i (omega arith) ∙ h
IsArgv-same args args' i (t ∷ rest) same h = (
  same i (omega arith) ∙ h.0,
  IsArgv-same args args' (i + 1) rest (λ j q. same j (omega arith)) h.1,
)

pub IsArgv-update :
    (args : Args) (i : ℕ) (l : List Text) (k : ℕ) (x : Option Text)
    → k < i
    → IsArgv args i l
    → IsArgv (update args k x) i l
IsArgv-update args i l k x before h = IsArgv-same args (update args k x) i l (λ j q. ground arith) h

pub Holds-IsArgv :
    (args : Args) (i : ℕ) (l : List Text)
    → Holds args i l
    → args (i + length l) ≡ none
    → IsArgv args i l
Holds-IsArgv args i [] h end = (ap args (omega arith)) ∙ end
Holds-IsArgv args i (t ∷ rest) h end =
    (h.0, Holds-IsArgv args (i + 1) rest h.1 (ap args (omega arith) ∙ end))

pub IsArgv-Holds :
    (args : Args) (i : ℕ) (l : List Text)
    → IsArgv args i l
    → Holds args i l × (args (i + length l) ≡ none)
IsArgv-Holds args i [] h = (tt, ap args (omega arith) ∙ h)
IsArgv-Holds args i (t ∷ rest) h =
    let (held, end) = IsArgv-Holds args (i + 1) rest h.1 in
    ((h.0, held), ap args (omega arith) ∙ end)
