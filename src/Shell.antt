-- ===== src/Shell.antt =====
-- Project-2-1/simple_shell.c: how the shell reads a line and cuts it into arguments. A C string is the
-- list of its characters, and `args` is a function of the index, `none` being a null pointer.
pub mod Represents
pub mod Parse
pub mod RoundTrip
pub mod Command
pub mod Launch
pub mod Redirect
pub mod Remove
pub mod Scan
pub mod Ampersand
pub mod Pipe
pub mod Processes
pub mod Plan
pub mod System
pub mod Ends
pub mod Fates
pub mod Session
pub mod Plain
pub mod Stale
mod Tests
use learning_ei.Base.{
  ℕ, zero, suc, ◌+◌, ◌-◌, ◌/◌, Bool, true, false, not, ◌&&◌, ◌||◌, Option, none, some, List, [],
  ◌∷◌, length, leb, ◌==◌, if◌then◌else◌,
}
use learning_ei.Base.Arrays.{update}

abbrev pub max_line : ℕ
max_line = 80

abbrev pub max_args : ℕ
max_args = max_line / 2 + 1

abbrev pub Text : Type 0
Text = List ℕ

abbrev pub Args : Type 0
Args = ℕ → Option Text

-- Space, and from tab to carriage return.
abbrev pub is_delimiter : ℕ → Bool
is_delimiter c = c == 32 || leb 9 c && leb c 13

-- `strcmp(s, t) == 0`
abbrev pub same_text : Text → Text → Bool
same_text [] [] = true
same_text [] (d ∷ t) = false
same_text (c ∷ s) [] = false
same_text (c ∷ s) (d ∷ t) = c == d && same_text s t

-- The loop of `init_args` from index `i`, with `k` rounds left.
pub init_from : ℕ → ℕ → Args → Args
init_from zero i args = args
init_from (suc k) i args = init_from k (i + 1) (update args i none)

pub init_args : Args → Args
init_args args = init_from max_args 0 args

-- The loop of `refresh_args` from index `i`: it ends at the first null pointer, or with the array.
-- The source does not test for the end of the array, but a line has at most 40 words, so that the last
-- entry stays null.
pub refresh_from : ℕ → ℕ → Args → Args
refresh_from zero i args = args
refresh_from (suc k) i args = elim (args i) [
  | none ↦ args
  | some t ↦ refresh_from k (i + 1) (update args i none)
]

pub refresh_args : Args → Args
refresh_args args = refresh_from max_args 0 args

-- A call of `strtok` skips delimiters; the token then goes up to the next one, and the next call goes
-- on behind that.
pub skip_delimiters : Text → Text
skip_delimiters [] = []
skip_delimiters (c ∷ s) = if is_delimiter c then skip_delimiters s else c ∷ s

pub token_of : Text → Text
token_of [] = []
token_of (c ∷ s) = if is_delimiter c then [] else c ∷ token_of s

pub behind_token : Text → Text
behind_token [] = []
behind_token (c ∷ s) = if is_delimiter c then s else behind_token s

-- The loop of `parse_input`, with fuel: the number of arguments, and `args`. It is `none` where an
-- argument is written behind the end of `args`.
pub parse_from : ℕ → ℕ → Text → Args → Option (ℕ × Args)
parse_from zero num command args = some (num, args)
parse_from (suc fuel) num command args = elim (skip_delimiters command) [
  | [] ↦ some (num, args)
  | c ∷ s ↦ elim (leb max_args num) [
    | true ↦ none
    | false ↦
        parse_from fuel (num + 1) (behind_token (c ∷ s)) (update args num (some (token_of (c ∷ s))))
  ]
]

-- The copy of the line has room for `max_line` characters and the 0 behind them. A longer line is
-- `none`: `strcpy` writes behind the end of the copy.
pub parse_input : Args → Text → Option (ℕ × Args)
parse_input args command = elim (leb (length command) max_line) [
  | true ↦ parse_from (suc (length command)) 0 command args
  | false ↦ none
]

-- `strncmp(input_buffer, "!!", 2) == 0`
abbrev pub is_bang_bang : Text → Bool
is_bang_bang (c ∷ d ∷ s) = c == b'!' && d == b'!'
is_bang_bang _ = false

abbrev pub is_empty : Text → Bool
is_empty [] = true
is_empty (c ∷ s) = false

-- `input` is what `fgets` reads, if it reads: whether there is a command, and the command.
pub get_input : Option Text → Text → Bool × Text
get_input none command = (false, command)
get_input (some input) command =
    if is_bang_bang input
    then if is_empty command then (false, command) else (true, command)
    else (true, input)
