-- ===== src/Shell/Redirect.antt =====
-- `check_redirection` of Project-2-1/simple_shell.c against its description on lists.
use learning_ei.Base.{
  ℕ, zero, suc, ◌+◌, ◌<◌, ◌≡◌, refl, arith, Bool, true, false, Option, some, List, [], ◌∷◌, ◌++◌,
  length, if◌then◌else◌, inl, inr, Bool-cases,
}
use learning_ei.Shell.{Text, same_text}

abbrev pub is_input : Text → Bool
is_input t = same_text (b'<' ∷ []) t

abbrev pub is_output : Text → Bool
is_output t = if is_input t then false else same_text (b'>' ∷ []) t

abbrev pub is_mark : Text → Bool
is_mark t = if is_input t then true else same_text (b'>' ∷ []) t

-- The arguments without the first `n` marks and their file names. A mark at the end goes, too.
unfoldable pub strip : ℕ → List Text → List Text
strip zero l = l
strip (suc n) [] = []
strip (suc n) (t ∷ []) = if is_mark t then [] else t ∷ []
strip (suc n) (t ∷ f ∷ rest) =
    let without = strip n rest in
    let onward = strip (suc n) (f ∷ rest) in if is_mark t then without else t ∷ onward

-- The file name behind the last of the first `n` marks for which the test holds, or else `file`.
unfoldable pub file_behind : (Text → Bool) → ℕ → List Text → Option Text → Option Text
file_behind test zero l file = file
file_behind test (suc n) [] file = file
file_behind test (suc n) (t ∷ []) file = file
file_behind test (suc n) (t ∷ f ∷ rest) file =
    let later = file_behind test n rest (if test t then some f else file) in
    let onward = file_behind test (suc n) (f ∷ rest) file in if is_mark t then later else onward

-- Whether there is such a mark.
unfoldable pub has_mark : (Text → Bool) → ℕ → List Text → Bool → Bool
has_mark test zero l found = found
has_mark test (suc n) [] found = found
has_mark test (suc n) (t ∷ []) found = found
has_mark test (suc n) (t ∷ f ∷ rest) found =
    let later = has_mark test n rest (if test t then true else found) in
    let onward = has_mark test (suc n) (f ∷ rest) found in if is_mark t then later else onward

-- The positions of those marks and file names, the last one first.
unfoldable pub marks : ℕ → ℕ → List Text → List ℕ
marks zero i l = []
marks (suc n) i [] = []
marks (suc n) i (t ∷ []) = if is_mark t then i ∷ [] else []
marks (suc n) i (t ∷ f ∷ rest) =
    let later = marks n (i + 2) rest in
    let onward = marks (suc n) (i + 1) (f ∷ rest) in
    if is_mark t then later ++ ((i + 1) ∷ i ∷ []) else onward

abbrev pub drop_at : ℕ → List Text → List Text
drop_at j [] = []
drop_at zero (t ∷ rest) = rest
drop_at (suc j) (t ∷ rest) = t ∷ drop_at j rest

-- Taking the positions away one after the other, where the list starts at index `i`.
pub data Removes (i : ℕ) : List ℕ → List Text → List Text → Type 0 where
  all_gone : (l : List Text) → Removes i [] l l
  remove :
      (p j : ℕ) (ps : List ℕ) (l l' : List Text)
      → p ≡ i + j
      → j < length l
      → Removes i ps (drop_at j l) l'
      → Removes i (p ∷ ps) l l'

Removes-cons :
    {i : ℕ} {ps : List ℕ} {l l' : List Text} (t : Text)
    → Removes (i + 1) ps l l'
    → Removes i ps (t ∷ l) (t ∷ l')
Removes-cons t (all_gone l) = all_gone (t ∷ l)
Removes-cons t (remove p j ps l l' e lt r) =
    remove p (suc j) ps (t ∷ l) (t ∷ l') (omega arith) (omega arith) (Removes-cons t r)

Removes-append :
    {i : ℕ} {qs ps : List ℕ} {l m n : List Text}
    → Removes i qs l m
    → Removes i ps m n
    → Removes i (qs ++ ps) l n
Removes-append (all_gone l) s = s
Removes-append {ps = ps} {n = n} (remove p j qs l m e lt r) s =
    remove p j (qs ++ ps) l n e lt (Removes-append r s)

Removes-index :
    {i k : ℕ} {ps : List ℕ} {l l' : List Text} → k ≡ i → Removes k ps l l' → Removes i ps l l'
Removes-index e (all_gone l) = all_gone l
Removes-index e (remove p j ps l l' e' lt r) =
    remove p j ps l l' (omega arith) lt (Removes-index e r)

pub marks-Removes : (n i : ℕ) (l : List Text) → Removes i (marks n i l) l (strip n l)
unfolding marks strip
marks-Removes zero i l = all_gone l
marks-Removes (suc n) i [] = all_gone []
marks-Removes (suc n) i (t ∷ []) = elim (Bool-cases (is_mark t)) [
  | inl mark ↦ rw mark (remove i 0 [] (t ∷ []) [] (omega arith) (omega arith) (all_gone []))
  | inr other ↦ rw other (all_gone (t ∷ []))
]
marks-Removes (suc n) i (t ∷ f ∷ rest) = elim (Bool-cases (is_mark t)) [
  | inl mark ↦
      let k = strip n rest in
      rw mark (
        Removes-append
          (Removes-cons t
            (Removes-cons f (Removes-index (omega arith) (marks-Removes n (i + 2) rest))))
          (remove (i + 1) 1 (i ∷ []) (t ∷ f ∷ k) k refl (omega arith)
            (remove i 0 [] (t ∷ k) k (omega arith) (omega arith) (all_gone k))))
  | inr other ↦ rw other (Removes-cons t (marks-Removes (suc n) (i + 1) (f ∷ rest)))
]
