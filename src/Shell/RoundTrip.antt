-- ===== src/Shell/RoundTrip.antt =====
-- A line that is typed from words is parsed into these words again, in Project-2-1/simple_shell.c.
use learning_ei.Base.{
  ℕ, ◌≡◌, refl, arith, ◌∙◌, ap, true, false, some, ◌≤◌, List, [], ◌∷◌, ◌++◌, length,
}
use learning_ei.Shell.{Text, Args, max_line, is_delimiter, parse_input}
use learning_ei.Shell.Represents.{Holds}
use learning_ei.Shell.Parse.{lengthen_first, words, parse_input-IsParsed}

-- Letters only.
abbrev pub AllLetters : Text → Type 0
AllLetters [] = Unit {0}
AllLetters (c ∷ s) = (is_delimiter c ≡ false) × AllLetters s

-- At least one letter, and letters only.
abbrev pub IsWord : Text → Type 0
IsWord [] = ⊥
IsWord (c ∷ s) = AllLetters (c ∷ s)

abbrev pub AllWords : List Text → Type 0
AllWords [] = Unit {0}
AllWords (w ∷ rest) = IsWord w × AllWords rest

-- The words with a space between any two, and a newline at the end.
unfoldable pub line_of : List Text → Text
line_of [] = b'\n' ∷ []
line_of (w ∷ []) = w ++ (b'\n' ∷ [])
line_of (w ∷ v ∷ rest) = w ++ (b' ' ∷ line_of (v ∷ rest))

words-append :
    (c : ℕ) (w : Text) (d : ℕ) (s : Text)
    → AllLetters (c ∷ w)
    → is_delimiter d ≡ true
    → words ((c ∷ w) ++ (d ∷ s)) ≡ (c ∷ w) ∷ words s
unfolding words
words-append c [] d s letters gap = rw (letters.0, gap) refl
words-append c (c' ∷ w) d s letters gap =
    let rest = words-append c' w d s letters.1 gap in
    rw (letters.0, letters.1.0) (ap (lengthen_first c) (rw (letters.1.0) at rest))

pub words-line_of : (ws : List Text) → AllWords ws → words (line_of ws) ≡ ws
unfolding line_of words
words-line_of [] all = refl
words-line_of ([] ∷ rest) all = absurd (all.0)
words-line_of ((c ∷ w) ∷ []) all = words-append c w b'\n' [] all.0 refl
words-line_of ((c ∷ w) ∷ v ∷ rest) all =
    words-append c w b' ' (line_of (v ∷ rest)) all.0 refl
    ∙ ap (λ ws. (c ∷ w) ∷ ws) (words-line_of (v ∷ rest) all.1)

-- If words are typed with a space between any two and a newline at the end, at most 80 characters in
-- all, `parse_input` writes inside its arrays, returns the number of the words, and `args` holds them in
-- order.
pub parse_input-line_of :
    (args : Args) (ws : List Text)
    → AllWords ws
    → length (line_of ws) ≤ max_line
    → (n : ℕ) × (args' : Args) × (parse_input args (line_of ws) ≡ some (n, args'))
      × (n ≡ length ws)
      × Holds args' 0 ws
parse_input-line_of args ws all short =
    let (n, args', e, parsed) = parse_input-IsParsed args (line_of ws) short in
    let same = words-line_of ws all in
    (n, args', e, omega (arith, parsed.counted, ap length same), rw same at parsed.stored)
