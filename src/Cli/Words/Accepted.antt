-- ===== src/Cli/Words/Accepted.antt =====
-- Which commands a sandbox run accepts, and which words set a variable.
use stateful_core.Base.{
  ℕ, Text, Bool, true, false, not, Option, none, some, List, [], ◌∷◌, ◌++◌, all, is_empty, ◌==◌,
  ◌||◌, ◌≡◌, refl, ◌↔◌, ◌⊎◌, arith, ap, ◌∙◌, if◌then◌else◌,
}
use stateful_core.Cli.Result.{ok}
use stateful_core.Cli.Words.{
  first_word_is_env_assignment, before_equals, cons_name, is_variable_name, starts_with_digit,
  is_digit, is_alphanumeric,
}
use stateful_core.Cli.Words.Quote.{
  resolve_sandbox_run_command, single_command, sequence_command, is_given, is_blank,
}

-- A command is resolved exactly in two ways: it is given alone and is not blank, or steps are given instead
-- and a command is made of them.
pub resolve_sandbox_run_command_iff :
    (command : Option Text) (sequences : List Text) (shell : Option Text) (c : Text)
    → (resolve_sandbox_run_command command sequences shell ≡ ok c)
      ↔ ((sequences ≡ []) × (shell ≡ none) × (command ≡ some c) × (is_blank c ≡ false))
        ⊎ (is_empty sequences ≡ false)
          × (command ≡ none)
          × (sequence_command sequences shell ≡ ok c)
unfolding resolve_sandbox_run_command single_command is_given
resolve_sandbox_run_command_iff command sequences shell c = ground arith

-- No `=`.
is_unassigned : Text → Bool
is_unassigned t = all (λ c. not (c == b'=')) t

before_equals-append :
    (name value : Text)
    → is_unassigned name ≡ true
    → before_equals (name ++ b'=' ∷ value) ≡ some name
unfolding before_equals cons_name is_unassigned
before_equals-append [] value h = refl
before_equals-append (c ∷ name) value h = let rest = before_equals-append name value in ground arith

-- What stands before the first `=`, and what after it.
IsSplit : Text → Text → Type 0
IsSplit word name = (value : Text) × (word ≡ name ++ b'=' ∷ value)

cons-IsSplit :
    (c : ℕ) (cs name : Text) (rest : Option Text)
    → ((n : Text) → rest ≡ some n → IsSplit cs n)
    → cons_name c rest ≡ some name
    → IsSplit (c ∷ cs) name
unfolding IsSplit cons_name
cons-IsSplit c cs name none h e = cc
cons-IsSplit c cs name (some n) h e =
    let (value, k) = h n refl in
    (value, ap (λ t. c ∷ t) k ∙ ap (λ t. t ++ b'=' ∷ value) (name_of e))
  where
    name_of : some (c ∷ n) ≡ some name → c ∷ n ≡ name
    name_of x = cc

equals_at :
    (c : ℕ) (b : Bool) (cs name : Text) (rest : Option Text)
    → (c == b'=') ≡ b
    → ((n : Text) → rest ≡ some n → IsSplit cs n)
    → (if b then some [] else cons_name c rest) ≡ some name
    → IsSplit (c ∷ cs) name
unfolding IsSplit
equals_at c true cs [] rest e h k = (cs, ap (λ d. d ∷ cs) (ground arith))
equals_at c true cs (n ∷ name) rest e h k = cc
equals_at c false cs name rest e h k = cons-IsSplit c cs name rest h k

before_equals-IsSplit : (word name : Text) → before_equals word ≡ some name → IsSplit word name
unfolding before_equals
before_equals-IsSplit [] name h = cc
before_equals-IsSplit (c ∷ cs) name h =
    equals_at c (c == b'=') cs name (before_equals cs) refl (before_equals-IsSplit cs) h

abbrev is_name_char : ℕ → Bool
is_name_char d = d == b'_' || is_alphanumeric d

name_char_unassigned : (c : ℕ) → is_name_char c ≡ true → not (c == b'=') ≡ true
unfolding is_alphanumeric is_digit
name_char_unassigned c h = ground arith

name-is_unassigned : (t : Text) → all is_name_char t ≡ true → is_unassigned t ≡ true
unfolding is_unassigned
name-is_unassigned [] h = refl
name-is_unassigned (c ∷ t) h = ground (arith, name_char_unassigned c, name-is_unassigned t)

is_variable_name_iff :
    (c : ℕ) (cs : Text)
    → (is_variable_name (some (c ∷ cs)) ≡ true)
      ↔ ((is_digit c ≡ false) × (all is_name_char (c ∷ cs) ≡ true))
unfolding is_variable_name starts_with_digit
is_variable_name_iff c cs = ground arith

-- A word sets a variable exactly if it is a name, `=` and a value, where a name is not empty, has letters,
-- digits and underscores, and does not begin with a digit.
pub first_word_is_env_assignment_iff :
    (word : Text)
    → (first_word_is_env_assignment word ≡ true) ↔ (
        (c : ℕ) × (cs : Text) × (value : Text) × (word ≡ c ∷ cs ++ b'=' ∷ value)
        × (is_digit c ≡ false)
        × (all (λ d. d == b'_' || is_alphanumeric d) (c ∷ cs) ≡ true))
unfolding first_word_is_env_assignment is_variable_name IsSplit
first_word_is_env_assignment_iff word = (
  named (before_equals word) refl,
  λ x.
      ap (λ w. is_variable_name (before_equals w)) x.3
      ∙ ap is_variable_name
          (before_equals-append (x.0 ∷ x.1) x.2 (name-is_unassigned (x.0 ∷ x.1) x.5))
      ∙ (is_variable_name_iff x.0 x.1).1 (x.4, x.5),
)
  where
    named :
        (before : Option Text)
        → before_equals word ≡ before
        → is_variable_name before ≡ true
        → (c : ℕ) × (cs : Text) × (value : Text) × (word ≡ c ∷ cs ++ b'=' ∷ value)
          × (is_digit c ≡ false)
          × (all is_name_char (c ∷ cs) ≡ true)
    named none e h = cc
    named (some []) e h = cc
    named (some (c ∷ cs)) e h =
        let (value, k) = before_equals-IsSplit word (c ∷ cs) e in
        let (first, rest) = (is_variable_name_iff c cs).0 h in (c, cs, value, k, first, rest)
