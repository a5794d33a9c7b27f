-- ===== src/Shell/Parse.antt =====
-- `parse_input` of Project-2-1/simple_shell.c: the words of the line.
use learning_ei.Base.{
  ℕ, zero, suc, ◌+◌, ◌*◌, ◌/◌, ◌<◌, ◌≤◌, ◌≡◌, refl, arith, ◌∙◌, ap, sym, subst, ◌⊎◌, Bool, true,
  false, Option, some, leb, List, [], ◌∷◌, length, if◌then◌else◌, inl, inr, Bool-cases,
}
use learning_ei.Base.Arrays.{update}
use learning_ei.Shell.{
  Text, Args, max_line, max_args, is_delimiter, skip_delimiters, token_of, behind_token, parse_from,
  parse_input,
}
use learning_ei.Shell.Represents.{Holds}

-- Whether the text starts with a letter of a word.
abbrev pub starts_word : Text → Bool
starts_word [] = false
starts_word (c ∷ s) = if is_delimiter c then false else true

abbrev pub lengthen_first : ℕ → List Text → List Text
lengthen_first c [] = (c ∷ []) ∷ []
lengthen_first c (w ∷ rest) = (c ∷ w) ∷ rest

-- The words of a text: the longest runs of characters that are no delimiters.
unfoldable pub words : Text → List Text
words [] = []
words (c ∷ s) =
    let rest = words s in
    if is_delimiter c
    then rest
    else if starts_word s
    then lengthen_first c rest
    else (c ∷ []) ∷ rest

words-skip_delimiters : (s : Text) → words (skip_delimiters s) ≡ words s
unfolding words skip_delimiters
words-skip_delimiters [] = refl
words-skip_delimiters (c ∷ s) = elim (Bool-cases (is_delimiter c)) [
  | inl gap ↦ rw gap (words-skip_delimiters s)
  | inr letter ↦ rw letter (rw letter refl)
]

-- A word is what `strtok` makes of it.
words-token_of :
    (c : ℕ) (s : Text)
    → is_delimiter c ≡ false
    → words (c ∷ s) ≡ token_of (c ∷ s) ∷ words (behind_token (c ∷ s))
unfolding words token_of behind_token
words-token_of c [] letter = rw letter refl
words-token_of c (d ∷ s) letter = elim (Bool-cases (is_delimiter d)) [
  | inl gap ↦ rw (letter, gap) refl
  | inr letter' ↦
      rw (letter, letter') (ap (lengthen_first c) (rw letter' at (words-token_of d s letter')))
]

skip_delimiters-letter :
    (s : Text) (c : ℕ) (rest : Text) → skip_delimiters s ≡ c ∷ rest → is_delimiter c ≡ false
unfolding skip_delimiters
skip_delimiters-letter [] c rest e = cc
skip_delimiters-letter (d ∷ s) c rest e = elim (Bool-cases (is_delimiter d)) [
  | inl gap ↦ skip_delimiters-letter s c rest (rw gap at e)
  | inr letter ↦
      let same : d ∷ s ≡ c ∷ rest = rw letter at e in
      let first : d ≡ c = ground arith in subst (λ x. is_delimiter x ≡ false) first letter
]

length-skip_delimiters : (s : Text) → length (skip_delimiters s) ≤ length s
unfolding skip_delimiters
length-skip_delimiters [] = omega arith
length-skip_delimiters (c ∷ s) = ground (arith, length-skip_delimiters s)

length-behind_token : (s : Text) → length (behind_token s) ≤ length s
unfolding behind_token
length-behind_token [] = omega arith
length-behind_token (c ∷ s) = ground (arith, length-behind_token s)

behind_token-shorter :
    (c : ℕ) (s : Text) → is_delimiter c ≡ false → length (behind_token (c ∷ s)) ≤ length s
unfolding behind_token
behind_token-shorter c s letter = rw letter (length-behind_token s)

-- What parsing leaves: as many arguments as there are words, the words themselves from `num` on, and
-- all else as it was.
pub record IsParsed (args : Args) (num : ℕ) (ws : List Text) (n : ℕ) (args' : Args) : Type 0 where
  pub counted : n ≡ num + length ws
  pub stored : Holds args' num ws
  pub kept : (i : ℕ) → (i < num) ⊎ (n ≤ i) → args' i ≡ args i

-- A result of parsing with these arguments.
abbrev pub Parses : Args → ℕ → List Text → Option (ℕ × Args) → Type 0
Parses args num ws result =
    (n : ℕ) × (args' : Args) × (result ≡ some (n, args')) × IsParsed args num ws n args'

parse_from-Parses :
    (fuel num : ℕ) (command : Text) (args : Args)
    → length command < fuel
    → num + length (words command) ≤ max_args
    → Parses args num (words command) (parse_from fuel num command args)
unfolding parse_from words
parse_from-Parses zero num command args enough room = absurd (omega arith)
parse_from-Parses (suc fuel) num command args enough room =
    go (skip_delimiters command) refl (λ rest args'. parse_from-Parses fuel (num + 1) rest args')
  where
    go :
        (s : Text)
        → skip_delimiters command ≡ s
        → ((rest : Text) (args' : Args)
            → length rest < fuel
            → num + 1 + length (words rest) ≤ max_args
            → Parses args' (num + 1) (words rest) (parse_from fuel (num + 1) rest args'))
        → Parses args num (words command) (parse_from (suc fuel) num command args)
    go [] e again =
        let none_left : words command ≡ [] = sym (words-skip_delimiters command) ∙ ap words e in
        (
          num,
          args,
          rw (e, parse_from) refl,
          record {
            counted = omega (arith, ap length none_left);
            stored = rw none_left tt;
            kept = λ i q. refl;
          },
        )
    go (c ∷ s) e again =
        let rest = behind_token (c ∷ s) in
        let letter = skip_delimiters-letter command c s e in
        let found : words command ≡ token_of (c ∷ s) ∷ words rest =
          sym (words-skip_delimiters command) ∙ (ap words e ∙ words-token_of c s letter) in
        let shorter : length rest < fuel =
          omega
            (arith, behind_token-shorter c s letter, length-skip_delimiters command, ap length e) in
        let inside : leb max_args num ≡ false = ground (arith, ap length found) in
        let (n, args', done, left) =
          again rest (update args num (some (token_of (c ∷ s)))) shorter
            (omega (arith, ap length found)) in
        let here = left.kept num (inl (omega arith)) in
        (
          n,
          args',
          rw (e, parse_from, inside) done,
          rw found (record {
            counted = omega (arith, left.counted);
            stored = (here ∙ ground arith, left.stored);
            kept = λ i q. elim q [
              | inl before ↦ left.kept i (inl (omega arith)) ∙ ground arith
              | inr behind ↦ left.kept i (inr behind) ∙ ground (arith, left.counted)
            ];
          }),
        )

gap : Text → ℕ
gap s = if starts_word s then 1 else 0

gap-le : (s : Text) → gap s ≤ 1
unfolding gap
gap-le s = ground arith

length-lengthen_first :
    (c : ℕ) (ws : List Text) (n : ℕ) → 1 ≤ n → length ws ≤ n → length (lengthen_first c ws) ≤ n
length-lengthen_first c [] n p q = omega arith
length-lengthen_first c (w ∷ rest) n p q = omega arith

halve : (l n : ℕ) → l * 2 ≤ n → l ≤ n / 2
halve l n h = omega arith

words_bound : (s : Text) → length (words s) * 2 ≤ length s + gap s
unfolding words gap
words_bound [] = omega arith
words_bound (c ∷ s) =
    let rest = words_bound s in
    ground (
      arith,
      gap-le s,
      halve (length (words s)) (length s + 1),
      length-lengthen_first c (words s) ((length s + 2) / 2),
    )

pub length-words : (s : Text) → length s ≤ max_line → length (words s) < max_args
length-words s short = omega (arith, words_bound s, gap-le s)

-- On a line of at most 80 characters `parse_input` writes inside its copy of the line and inside
-- `args`: it stores the words of the line from index 0 on, returns their number, and leaves the rest of
-- `args` as it was.
pub parse_input-IsParsed :
    (args : Args) (command : Text)
    → length command ≤ max_line
    → (n : ℕ) × (args' : Args) × (parse_input args command ≡ some (n, args'))
      × IsParsed args 0 (words command) n args'
unfolding parse_input
parse_input-IsParsed args command short =
    let copied : leb (length command) max_line ≡ true = ground arith in
    rw (copied, parse_input)
      (parse_from-Parses (suc (length command)) 0 command args (omega arith)
        (omega (arith, length-words command short)))

-- From a line of at most 80 characters `parse_input` takes, without a write outside an array, fewer
-- words than `args` has entries, so that there is room for a null pointer behind them.
pub parse_input-fits :
    (args : Args) (command : Text)
    → length command ≤ max_line
    → (n : ℕ) × (args' : Args) × (parse_input args command ≡ some (n, args')) × (n < max_args)
parse_input-fits args command short =
    let (n, args', e, parsed) = parse_input-IsParsed args command short in
    (n, args', e, omega (arith, parsed.counted, length-words command short))
