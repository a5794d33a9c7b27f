-- ===== src/Shell/Command.antt =====
-- Project-2-1/simple_shell.c: how `run_command` takes the arguments apart. `none` is an access of the
-- shell's own code through a null pointer.
use learning_ei.Base.{
  ℕ, zero, suc, ◌+◌, ◌-◌, Bool, true, false, not, Option, none, some, List, [], ◌∷◌, length, leb,
  ◌==◌, if◌then◌else◌,
}
use learning_ei.Base.Arrays.{update}
use learning_ei.Shell.{Text, Args, same_text, is_empty}

-- The last character, and the text without it, as the write of a 0 over it leaves it.
abbrev pub last_char : ℕ → Text → ℕ
last_char c [] = c
last_char c (d ∷ s) = last_char d s

abbrev pub drop_last : Text → Text
drop_last [] = []
drop_last (c ∷ []) = []
drop_last (c ∷ d ∷ s) = c ∷ drop_last (d ∷ s)

pub record Ampersand : Type 0 where
  pub concurrent : Bool
  pub args : Args
  pub size : ℕ

-- `check_ampersand` on the last argument.
unfoldable pub check_last : Text → Args → ℕ → Option Ampersand
check_last [] args size = none
check_last (c ∷ s) args size =
    if not (last_char c s == b'&')
    then some (record { concurrent = false; args = args; size = size })
    else if is_empty s
    then some (record { concurrent = true; args = update args (size - 1) none; size = size - 1 })
    else some (record {
      concurrent = true;
      args = update args (size - 1) (some (drop_last (c ∷ s)));
      size = size;
    })

unfoldable pub check_ampersand : Args → ℕ → Option Ampersand
check_ampersand args size = elim (args (size - 1)) [ none ↦ none | some t ↦ check_last t args size ]

-- The flag, as its two bits; the file names, which are unset at the start; and `to_remove`, the last
-- one first.
pub record Redirection : Type 0 where
  pub has_input : Bool
  pub has_output : Bool
  pub input_file : Option Text
  pub output_file : Option Text
  pub to_remove : List ℕ

abbrev pub no_redirection : Redirection
no_redirection = record {
  has_input = false;
  has_output = false;
  input_file = none;
  output_file = none;
  to_remove = [];
}

-- The body of the first loop of `check_redirection` at `<` or `>`, with a file name behind it.
abbrev pub add_input : ℕ → Option Text → Redirection → Redirection
add_input i file r = record r {
  has_input = true;
  input_file = file;
  to_remove = (i + 1) ∷ i ∷ r.to_remove;
}

abbrev pub add_output : ℕ → Option Text → Redirection → Redirection
add_output i file r = record r {
  has_output = true;
  output_file = file;
  to_remove = (i + 1) ∷ i ∷ r.to_remove;
}

-- The first loop of `check_redirection` from index `i` on, with fuel.
unfoldable pub scan_from : ℕ → ℕ → Args → ℕ → Redirection → Option Redirection
scan_from zero i args size r = some r
scan_from (suc fuel) i args size r = elim (i == size) [
  | true ↦ some r
  | false ↦ elim (leb 4 (length r.to_remove)) [
    | true ↦ some r
    | false ↦ elim (args i) [
      | none ↦ none
      | some t ↦ elim (same_text (b'<' ∷ []) t) [
        | true ↦ elim (i == size - 1) [
          | true ↦ some (record r { to_remove = i ∷ r.to_remove })
          | false ↦ scan_from fuel (i + 2) args size (add_input i (args (i + 1)) r)
        ]
        | false ↦ elim (same_text (b'>' ∷ []) t) [
          | true ↦ elim (i == size - 1) [
            | true ↦ some (record r { to_remove = i ∷ r.to_remove })
            | false ↦ scan_from fuel (i + 2) args size (add_output i (args (i + 1)) r)
          ]
          | false ↦ scan_from fuel (i + 1) args size r
        ]
      ]
    ]
  ]
]

-- `while(pos != *size)` with `k` rounds left.
unfoldable pub shift_from : ℕ → ℕ → Args → Args
shift_from zero pos args = args
shift_from (suc k) pos args = shift_from k (pos + 1) (update args pos (args (pos + 1)))

-- The loop that removes the arguments at the positions, the last one first.
unfoldable pub remove_at : List ℕ → Args → ℕ → Args × ℕ
remove_at [] args size = (args, size)
remove_at (pos ∷ rest) args size = remove_at rest (shift_from (size - pos) pos args) (size - 1)

pub record Redirected : Type 0 where
  pub args : Args
  pub size : ℕ
  pub files : Redirection

unfoldable pub check_redirection : Args → ℕ → Option Redirected
check_redirection args size = elim (scan_from size 0 args size no_redirection) [
  | none ↦ none
  | some r ↦
      let (args', size') = remove_at r.to_remove args size in
      some (record { args = args'; size = size'; files = r })
]

-- What `detect_pipe` leaves: `args`, its size, and where the second command starts and its size, which
-- is 0 where there is none.
pub record Piped : Type 0 where
  pub args : Args
  pub size : ℕ
  pub second : ℕ
  pub size2 : ℕ

-- The loop of `detect_pipe` from index `i`, with `k` rounds left.
unfoldable pub detect_from : ℕ → ℕ → Args → ℕ → Option Piped
detect_from zero i args size = some (record { args = args; size = size; second = 0; size2 = 0 })
detect_from (suc k) i args size = elim (args i) [
  | none ↦ none
  | some t ↦ elim (same_text t (b'|' ∷ [])) [
    | true ↦
        some (record { args = update args i none; size = i; second = i + 1; size2 = size - i - 1 })
    | false ↦ detect_from k (i + 1) args size
  ]
]

unfoldable pub detect_pipe : Args → ℕ → Option Piped
detect_pipe args size = detect_from size 0 args size

-- What `execvp` gets: the arguments up to the first null pointer, of at most `k`.
unfoldable pub argv_of : ℕ → ℕ → Args → List Text
argv_of zero i args = []
argv_of (suc k) i args = elim (args i) [ none ↦ [] | some t ↦ t ∷ argv_of k (i + 1) args ]
