-- ===== src/Examples/CommandLine.antt =====
-- The theorems about the command line at concrete inputs.
use stateful_core.Base.{Text, text, none, List, [], ◌∷◌, ◌≡◌, refl, trim, is_whitespace}
use stateful_core.Base.{ℕ, Option, some, is_empty, true, false, ◌↔◌, ◌⊎◌, all, ◌||◌, ◌==◌, ◌++◌}
use stateful_core.Path.{normalize_relative_path}
use stateful_core.Path.Idempotent.{normalize_relative_path-again}
use stateful_core.Cli.Words.{first_word_is_env_assignment, is_digit, is_alphanumeric}
use stateful_core.Cli.Words.Quote.{resolve_sandbox_run_command}
use stateful_core.Cli.Words.Accepted.{
  resolve_sandbox_run_command_iff, first_word_is_env_assignment_iff,
}
use stateful_core.Cli.Result.{ok}
use stateful_core.Cli.Words.{split_simple_command_words}
use stateful_core.Cli.Words.Quote.{
  sequence_command, sequence_script, shell_or_default, shell_quote, escape_quotes, is_blank,
  validate_sequence_shell, starts_absolute, script_lines,
}
use stateful_core.Cli.Words.RoundTrip.{
  quoted_words, split_simple_command_words-quoted_words, sequence_command-words,
}

abbrev three_words : List Text
three_words = text "it's" ∷ text "$(rm)" ∷ [] ∷ []

split_simple_command_words-quoted_words_example :
    split_simple_command_words (quoted_words three_words) ≡ ok three_words
split_simple_command_words-quoted_words_example =
    split_simple_command_words-quoted_words three_words

abbrev two_steps : List Text
two_steps = text "ls" ∷ text "id" ∷ []

abbrev two_steps_command : Text
two_steps_command = text "'/bin/sh' -c 'set -e\nls\nid\n'"

two_steps_accepted : sequence_command two_steps none ≡ ok two_steps_command
unfolding sequence_command is_blank trim is_whitespace shell_or_default validate_sequence_shell
    starts_absolute sequence_script script_lines shell_quote escape_quotes
two_steps_accepted = refl

sequence_command-words_example :
    split_simple_command_words two_steps_command
    ≡ ok (shell_or_default none ∷ text "-c" ∷ sequence_script two_steps ∷ [])
sequence_command-words_example =
    sequence_command-words two_steps none two_steps_command two_steps_accepted

abbrev assignment : Text
assignment = text "A1=b=c"

abbrev no_steps : List Text
no_steps = []

abbrev no_shell : Option Text
no_shell = none

abbrev only_list : Option Text
only_list = some (text "ls")

resolve_sandbox_run_command_iff_example :
    (resolve_sandbox_run_command only_list no_steps no_shell ≡ ok (text "ls"))
    ↔ ((no_steps ≡ [])
        × (no_shell ≡ none)
        × (only_list ≡ some (text "ls"))
        × (is_blank (text "ls") ≡ false))
      ⊎ (is_empty no_steps ≡ false)
        × (only_list ≡ none)
        × (sequence_command no_steps no_shell ≡ ok (text "ls"))
resolve_sandbox_run_command_iff_example =
    resolve_sandbox_run_command_iff only_list no_steps no_shell (text "ls")

first_word_is_env_assignment_iff_example : (first_word_is_env_assignment assignment ≡ true) ↔ (
    (c : ℕ) × (cs : Text) × (value : Text) × (assignment ≡ c ∷ cs ++ b'=' ∷ value)
    × (is_digit c ≡ false)
    × (all (λ d. d == b'_' || is_alphanumeric d) (c ∷ cs) ≡ true))
first_word_is_env_assignment_iff_example = first_word_is_env_assignment_iff assignment

abbrev messy_path : Text
messy_path = text "./a//b/../c"

normalize_relative_path-again_example :
    normalize_relative_path (normalize_relative_path messy_path)
    ≡ normalize_relative_path messy_path
normalize_relative_path-again_example = normalize_relative_path-again messy_path
