-- ===== src/Cli/Words.antt =====
-- crates/stateful-cli/src/shell_command.rs.
pub mod Quote
pub mod RoundTrip
pub mod Accepted
use stateful_core.Base.{
  ℕ, Text, text, Bool, true, false, not, ◌&&◌, ◌||◌, Option, none, some, List, [], ◌∷◌, ◌++◌, ◌==◌,
  leb, any, all, if◌then◌else◌, is_whitespace, is_empty,
}
use stateful_core.Cli.Result.{Result, ok, err, ◌>>=◌, ◌>>◌, fail_if}
use stateful_core.Cli.Scan.{QuoteState, bare, single, double, Move, stop, one, two, scan}

pub record Split : Type 0 where
  pub words : List Text
  pub current : Text
  pub state : QuoteState
  pub in_word : Bool

abbrev pub push_char : ℕ → Split → Split
push_char c s = record s { current = s.current ++ c ∷ []; in_word = true }

-- In quotes `in_word` is set already.
abbrev pub push_quoted : ℕ → Split → Split
push_quoted c s = record s { current = s.current ++ c ∷ [] }

abbrev pub end_word : Split → Split
end_word s =
    if s.in_word
    then record s { words = s.words ++ s.current ∷ []; current = []; in_word = false }
    else s

unfoldable pub one_of : Text → ℕ → Bool
one_of cs c = any (λ d. c == d) cs

abbrev pub control_chars : Text
control_chars = 10 ∷ 13 ∷ text ";|&<>`$*?[]{}~()#!"

unfoldable pub peek_is : ℕ → Option ℕ → Bool
peek_is d none = false
peek_is d (some c) = c == d

unfoldable pub split_bare : Split → ℕ → Option ℕ → Move Split
unfolding one_of is_whitespace peek_is
split_bare s c peek =
    if one_of control_chars c
    then stop "Bash wrapper command must be a single literal command"
    else if c == b'\''
    then one (record s { state = single; in_word = true })
    else if c == b'"'
    then one (record s { state = double; in_word = true })
    else if c == b'\\'
    then (if peek_is b'\'' peek
        then two (push_char b'\'' s)
        else stop "Bash wrapper command must not use shell escapes")
    else one (if is_whitespace c then end_word s else push_char c s)

unfoldable pub split_single : Split → ℕ → Move Split
split_single s c = one (if c == b'\'' then record s { state = bare } else push_quoted c s)

unfoldable pub split_double : Split → ℕ → Move Split
unfolding one_of
split_double s c =
    if c == b'"'
    then one (record s { state = bare })
    else if one_of (text "`$\\") c
    then stop "Bash wrapper command must not use shell expansion"
    else one (push_quoted c s)

unfoldable pub split_in : QuoteState → Split → ℕ → Option ℕ → Move Split
unfolding split_bare split_single split_double
split_in bare s c peek = split_bare s c peek
split_in single s c peek = split_single s c
split_in double s c peek = split_double s c

abbrev pub split_move : Split → ℕ → Option ℕ → Move Split
split_move s = split_in s.state s

abbrev pub is_bare : QuoteState → Bool
is_bare bare = true
is_bare _ = false

unfoldable pub finish_split : Split → Result (List Text)
finish_split s = do
  fail_if (not (is_bare s.state)) "Bash wrapper command has unterminated quotes"
  ok (end_word s).words

abbrev pub no_words : Split
no_words = record { words = []; current = []; state = bare; in_word = false }

unfoldable pub split_simple_command_words : Text → Result (List Text)
unfolding split_in finish_split scan
split_simple_command_words command = do s ← scan split_move no_words command; finish_split s

unfoldable pub cons_name : ℕ → Option Text → Option Text
cons_name c none = none
cons_name c (some name) = some (c ∷ name)

-- `word.split_once('=')`: what stands before the first `=`.
unfoldable pub before_equals : Text → Option Text
unfolding cons_name
before_equals [] = none
before_equals (c ∷ cs) =
    let rest = cons_name c (before_equals cs) in if c == b'=' then some [] else rest

unfoldable pub is_digit : ℕ → Bool
is_digit c = leb b'0' c && leb c b'9'

-- `char::is_ascii_alphanumeric`.
unfoldable pub is_alphanumeric : ℕ → Bool
unfolding is_digit
is_alphanumeric c = is_digit c || (leb b'a' c && leb c b'z') || (leb b'A' c && leb c b'Z')

unfoldable pub starts_with_digit : Text → Bool
starts_with_digit [] = false
starts_with_digit (c ∷ _) = is_digit c

unfoldable pub is_variable_name : Option Text → Bool
unfolding is_alphanumeric starts_with_digit
is_variable_name none = false
is_variable_name (some name) =
    not (is_empty name)
    && all (λ c. c == b'_' || is_alphanumeric c) name
    && not (starts_with_digit name)

unfoldable pub first_word_is_env_assignment : Text → Bool
unfolding before_equals is_variable_name
first_word_is_env_assignment word = is_variable_name (before_equals word)
