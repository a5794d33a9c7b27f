-- ===== src/Scheduler/Fields.antt =====
-- How `main` of Project-4/driver.c takes a line of the task file apart, with `strsep` at commas. A char
-- pointer is an optional text, `none` being a null pointer.
use learning_ei.Base.{
  ℕ, suc, ◌≡◌, ◌≢◌, refl, arith, Bool, true, false, Option, none, some, ◌==◌, if◌then◌else◌, inl,
  inr, Bool-cases,
}
use learning_ei.Base.Int.{ℤ}
use Prim.Native.Char.{Char, code}
use Prim.Native.String.{String, [], ◌∷◌}
use learning_ei.Scheduler.{Task}

abbrev pub is_comma : Char → Bool
is_comma c = code c == b','

-- The text before the first comma, and the text behind it, if there is a comma.
unfoldable pub cut : String → String × Option String
cut [] = ([], none)
cut (c ∷ s) = let (field, rest) = cut s in if is_comma c then ([], some s) else (c ∷ field, rest)

-- `strsep(&temp, ",")`: what it returns, and `temp` behind it.
unfoldable pub strsep : Option String → Option String × Option String
strsep none = (none, none)
strsep (some s) = let (field, rest) = cut s in (some field, rest)

-- What `add` gets from what the three calls of `strsep` return, where `free(temp)` is defined. It is
-- `none` where `atoi` gets a null pointer, and where `temp` at the end is not null: then it points into
-- the copy of the line, and `free` is undefined.
unfoldable pub task_of :
    (String → ℤ) → Option String → Option String → Option String → Option String → Option Task
task_of atoi (some name) (some priority) (some burst) none =
    some (record { name = name; priority = atoi priority; burst = atoi burst })
task_of atoi (some name) (some priority) (some burst) (some rest) = none
task_of atoi (some name) (some priority) none temp = none
task_of atoi (some name) none burst temp = none
task_of atoi none priority burst temp = none

-- The body of the loop of `main` less the call of `add`.
unfoldable pub read_line : (String → ℤ) → String → Option Task
read_line atoi line =
    let (name, temp) = strsep (some line) in
    let (priority, temp') = strsep temp in
    let (burst, temp'') = strsep temp' in task_of atoi name priority burst temp''

unfoldable pub commas : String → ℕ
commas [] = 0
commas (c ∷ s) = if is_comma c then suc (commas s) else commas s

-- The line is the field, a comma and the rest, and no comma is in the field.
pub data Cut : String → String → String → Type 0 where
  here : (c : Char) (s : String) → is_comma c ≡ true → Cut (c ∷ s) [] s
  later :
      (c : Char) {s field rest : String}
      → is_comma c ≡ false
      → Cut s field rest
      → Cut (c ∷ s) (c ∷ field) rest

-- The line is the name, a comma, the text of the priority, a comma and the text of the burst, and no
-- other comma is in it.
pub record Reads (atoi : String → ℤ) (line : String) (t : Task) : Type 0 where
  pub priority : String
  pub burst : String
  pub rest : String
  pub name_cut : Cut line t.name rest
  pub priority_cut : Cut rest priority burst
  pub last : commas burst ≡ 0
  pub is_priority : t.priority ≡ atoi priority
  pub is_burst : t.burst ≡ atoi burst

data Cuts (s : String) : String × Option String → Type 0 where
  found : {field rest : String} → Cut s field rest → Cuts s (field, some rest)
  whole : commas s ≡ 0 → Cuts s (s, none)

Cuts-later :
    (c : Char) (s : String) (r : String × Option String)
    → is_comma c ≡ false
    → Cuts s r
    → Cuts (c ∷ s) (c ∷ r.0, r.1)
unfolding commas
Cuts-later c s _ other (found q) = found (later c other q)
Cuts-later c s _ other (whole e) = whole (rw other e)

cut-Cuts : (s : String) → Cuts s (cut s)
unfolding cut commas
cut-Cuts [] = whole refl
cut-Cuts (c ∷ s) = elim (Bool-cases (is_comma c)) [
  | inl comma ↦ rw comma (found (here c s comma))
  | inr other ↦ rw other (Cuts-later c s (cut s) other (cut-Cuts s))
]

Cut-commas : {s field rest : String} → Cut s field rest → commas s ≡ suc (commas rest)
unfolding commas
Cut-commas (here c s comma) = rw comma refl
Cut-commas (later c other q) = rw other (Cut-commas q)

-- Which lines are read, and as what.
pub data Line (atoi : String → ℤ) (line : String) : Option Task → Type 0 where
  read : (t : Task) → commas line ≡ 2 → Reads atoi line t → Line atoi line (some t)
  broken : commas line ≢ 2 → Line atoi line none

data Found (s : String) : Type 0 where
  no_comma : cut s ≡ (s, none) → commas s ≡ 0 → Found s
  comma :
      (field rest : String)
      → cut s ≡ (field, some rest)
      → Cut s field rest
      → commas s ≡ suc (commas rest)
      → Found s

Cuts-Found : (s : String) (r : String × Option String) → Cuts s r → cut s ≡ r → Found s
Cuts-Found s _ (found {field} {rest} q) e = comma field rest e q (Cut-commas q)
Cuts-Found s _ (whole none_left) e = no_comma e none_left

find_comma : (s : String) → Found s
find_comma s = Cuts-Found s (cut s) (cut-Cuts s) refl

strsep-some :
    (s : String) {field : String} {rest : Option String}
    → cut s ≡ (field, rest)
    → strsep (some s) ≡ (some field, rest)
unfolding strsep
strsep-some s e = rw e refl

strsep-none : strsep none ≡ (none, none)
unfolding strsep
strsep-none = refl

-- A line is read exactly where it has two commas.
pub read_line-Line : (atoi : String → ℤ) (line : String) → Line atoi line (read_line atoi line)
unfolding read_line task_of
read_line-Line atoi line = elim (find_comma line) [
  | no_comma e n ↦ rw (strsep-some line e, read_line, strsep-none) (broken (omega (arith, n)))
  | comma name rest e q n ↦ elim (find_comma rest) [
    | no_comma e' n' ↦
        rw (strsep-some line e, read_line, strsep-some rest e', strsep-none)
          (broken (omega (arith, n, n')))
    | comma priority rest' e' q' n' ↦ elim (find_comma rest') [
      | no_comma e'' n'' ↦
          rw (strsep-some line e, read_line, strsep-some rest e', strsep-some rest' e'')
            (read (record { name = name; priority = atoi priority; burst = atoi rest' })
              (omega (arith, n, n', n''))
              (record {
                priority = priority;
                burst = rest';
                rest = rest;
                name_cut = q;
                priority_cut = q';
                last = n'';
                is_priority = refl;
                is_burst = refl;
              }))
      | comma burst rest'' e'' q'' n'' ↦
          rw (strsep-some line e, read_line, strsep-some rest e', strsep-some rest' e'')
            (broken (omega (arith, n, n', n'')))
    ]
  ]
]
