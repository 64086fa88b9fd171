-- ===== src/Cli/Words/Quote.antt =====
-- crates/stateful-cli/src/sandbox/parse.rs: quoting, and the command of a sandbox run.
use stateful_core.Base.{
  Text, text, Bool, true, false, not, ◌&&◌, ◌||◌, Option, none, some, List, [], ◌∷◌, ◌++◌, ◌==◌,
  any, if◌then◌else◌, is_empty, trim,
}
use stateful_core.Cli.Result.{Result, Done, ok, err, ◌>>◌, fail_if}

-- `value.replace('\'', "'\\''")`.
unfoldable pub escape_quotes : Text → Text
escape_quotes [] = []
escape_quotes (c ∷ cs) =
    let rest = escape_quotes cs in
    if c == b'\'' then b'\'' ∷ b'\\' ∷ b'\'' ∷ b'\'' ∷ rest else c ∷ rest

unfoldable pub shell_quote : Text → Text
unfolding escape_quotes
shell_quote value = b'\'' ∷ escape_quotes value ++ b'\'' ∷ []

unfoldable pub starts_absolute : Text → Bool
starts_absolute [] = false
starts_absolute (c ∷ _) = c == b'/'

unfoldable pub validate_sequence_shell : Text → Result Done
unfolding starts_absolute
validate_sequence_shell shell =
    fail_if (not (starts_absolute shell) || any (λ c. c == 0 || c == 10 || c == 13) shell)
      "stateful sandbox run --sequence-shell requires an absolute shell path"

-- `value.trim().is_empty()`.
unfoldable pub is_blank : Text → Bool
is_blank value = is_empty (trim value)

unfoldable pub is_given {ℓ} : {A : Type ℓ} → Option A → Bool
is_given none = false
is_given (some _) = true

unfoldable pub single_command : Option Text → Result Text
unfolding is_blank
single_command none =
    err "stateful sandbox run requires exactly one --command or at least one --sequence"
single_command (some command) = do
  fail_if (is_blank command) "stateful sandbox run requires a non-empty --command"
  ok command

unfoldable pub shell_or_default : Option Text → Text
shell_or_default none = text "/bin/sh"
shell_or_default (some shell) = shell

unfoldable pub script_lines : List Text → Text
script_lines [] = []
script_lines (step ∷ steps) = step ++ 10 ∷ script_lines steps

unfoldable pub sequence_script : List Text → Text
unfolding script_lines
sequence_script steps = text "set -e\n" ++ script_lines steps

unfoldable pub sequence_command : List Text → Option Text → Result Text
unfolding is_blank shell_or_default validate_sequence_shell sequence_script shell_quote
sequence_command sequences sequence_shell = do
  fail_if (any is_blank sequences) "stateful sandbox run --sequence requires a non-empty value"
  let shell = shell_or_default sequence_shell
  validate_sequence_shell shell
  ok (shell_quote shell ++ text " -c " ++ shell_quote (sequence_script sequences))

unfoldable pub resolve_sandbox_run_command : Option Text → List Text → Option Text → Result Text
unfolding is_given single_command sequence_command
resolve_sandbox_run_command command sequences sequence_shell = do
  fail_if (is_given command && not (is_empty sequences))
      "stateful sandbox run accepts either --command or --sequence, not both"
  if is_empty sequences
      then (fail_if (is_given sequence_shell)
            "stateful sandbox run --sequence-shell requires --sequence"
          >> single_command command)
      else sequence_command sequences sequence_shell
