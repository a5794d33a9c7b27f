-- ===== src/Shell/Remove.antt =====
-- That `check_redirection` of Project-2-1/simple_shell.c takes arguments out of `args` by its shifts.
use learning_ei.Base.{
  ℕ, zero, suc, ◌+◌, ◌-◌, ◌<◌, ◌≡◌, refl, arith, ◌∙◌, sym, subst, List, [], ◌∷◌, length,
}
use learning_ei.Base.Arrays.{update}
use learning_ei.Shell.{Text, Args}
use learning_ei.Shell.Represents.{IsArgv, IsArgv-update}
use learning_ei.Shell.Command.{shift_from, remove_at}
use learning_ei.Shell.Redirect.{drop_at, Removes, all_gone, remove}

-- One turn of the second loop moves what stands behind a position up by one.
shift_from-below : (k pos : ℕ) (args : Args) (i : ℕ) → i < pos → shift_from k pos args i ≡ args i
unfolding shift_from
shift_from-below zero pos args i below = refl
shift_from-below (suc k) pos args i below =
    shift_from-below k (pos + 1) (update args pos (args (pos + 1))) i (omega arith) ∙ ground arith

shift_from-IsArgv :
    (k pos : ℕ) (args : Args) (t : Text) (l : List Text)
    → k ≡ suc (length l)
    → IsArgv args pos (t ∷ l)
    → IsArgv (shift_from k pos args) pos l
unfolding shift_from
shift_from-IsArgv zero pos args t l e h = absurd (omega arith)
shift_from-IsArgv (suc k) pos args t [] e h =
    shift_from-below k (pos + 1) (update args pos (args (pos + 1))) pos (omega arith)
    ∙ (ground arith ∙ h.1)
shift_from-IsArgv (suc k) pos args t (u ∷ l) e h = (
  shift_from-below k (pos + 1) (update args pos (args (pos + 1))) pos (omega arith)
      ∙ (ground arith ∙ h.1.0),
  shift_from-IsArgv k (pos + 1) (update args pos (args (pos + 1))) u l (omega arith)
      (IsArgv-update args (pos + 1) (u ∷ l) pos (args (pos + 1)) (omega arith) h.1),
)

shift_from-drop_at :
    (j i k : ℕ) (args : Args) (l : List Text)
    → j < length l
    → k + j ≡ length l
    → IsArgv args i l
    → IsArgv (shift_from k (i + j) args) i (drop_at j l)
shift_from-drop_at j i k args [] lt e h = absurd (omega arith)
shift_from-drop_at zero i k args (t ∷ l) lt e h =
    let start : i + 0 ≡ i = omega arith in rw start (shift_from-IsArgv k i args t l (omega arith) h)
shift_from-drop_at (suc j) i k args (t ∷ l) lt e h =
    let on : i + suc j ≡ i + 1 + j = omega arith in
    (
      shift_from-below k (i + suc j) args i (omega arith) ∙ h.0,
      subst (λ q. IsArgv (shift_from k q args) (i + 1) (drop_at j l)) (sym on)
          (shift_from-drop_at j (i + 1) k args l (omega arith) (omega arith) h.1),
    )

length-drop_at : (j : ℕ) (l : List Text) → j < length l → length (drop_at j l) + 1 ≡ length l
length-drop_at j [] lt = absurd (omega arith)
length-drop_at zero (t ∷ l) lt = omega arith
length-drop_at (suc j) (t ∷ l) lt = omega (arith, length-drop_at j l (omega arith))

pub remove_at-IsArgv :
    {ps : List ℕ} {l l' : List Text} (args : Args) (size : ℕ)
    → Removes 0 ps l l'
    → size ≡ length l
    → IsArgv args 0 l
    → let (args', size') = remove_at ps args size in IsArgv args' 0 l' × (size' ≡ length l')
unfolding remove_at
remove_at-IsArgv args size (all_gone l) e h = (h, e)
remove_at-IsArgv args size (remove p j ps l l' at lt r) e h =
    let at' : p ≡ 0 + j = at in
    remove_at-IsArgv (shift_from (size - p) p args) (size - 1) r
      (omega (arith, length-drop_at j l lt))
      (rw (← at') at (shift_from-drop_at j 0 (size - p) args l lt (omega arith) h))
