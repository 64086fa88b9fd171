-- ===== src/Cli/Words/RoundTrip.antt =====
-- What `shell_quote` writes, `split_simple_command_words` reads.
use stateful_core.Base.{
  ℕ, Text, text, Bool, true, false, Option, List, [], ◌∷◌, ◌++◌, ◌==◌, if◌then◌else◌, ◌≡◌, refl, ap,
  sym, ◌∙◌, arith, append_assoc, append-nil,
}
use stateful_core.Cli.Result.{ok, ◌>>=◌}
use stateful_core.Cli.Scan.{QuoteState, bare, single, scan, scan-one, scan-two}
use stateful_core.Cli.Words.{Split, split_in, split_move, finish_split, split_simple_command_words}
use stateful_core.Cli.Words.Quote.{
  escape_quotes, shell_quote, sequence_command, sequence_script, shell_or_default,
}

-- In a word, in the quoting state.
abbrev at : List Text → QuoteState → Text → Split
at ws q cur = record { words = ws; current = cur; state = q; in_word = true }

quote_opens :
    (ws : List Text) (b : Bool) (cur cs : Text)
    → scan split_move (record { words = ws; current = cur; state = bare; in_word = b }) (b'\'' ∷ cs)
      ≡ scan split_move (at ws single cur) cs
quote_opens ws b cur cs = scan-one split_move _ _ b'\'' cs (λ p. unfold split_in in refl)

quote_closes :
    (ws : List Text) (cur cs : Text)
    → scan split_move (at ws single cur) (b'\'' ∷ cs) ≡ scan split_move (at ws bare cur) cs
quote_closes ws cur cs = scan-one split_move _ _ b'\'' cs (λ p. unfold split_in in refl)

escaped_quote :
    (ws : List Text) (cur cs : Text)
    → scan split_move (at ws bare cur) (b'\\' ∷ b'\'' ∷ cs)
      ≡ scan split_move (at ws bare (cur ++ b'\'' ∷ [])) cs
escaped_quote ws cur cs = scan-two split_move _ _ b'\\' b'\'' cs (unfold split_in in refl)

quoted_char :
    (ws : List Text) (cur cs : Text) (c : ℕ)
    → (c == b'\'') ≡ false
    → scan split_move (at ws single cur) (c ∷ cs)
      ≡ scan split_move (at ws single (cur ++ c ∷ [])) cs
unfolding split_in
quoted_char ws cur cs c h = scan-one split_move _ _ c cs (λ p. ground arith)

same_char : (c d : ℕ) → (c == d) ≡ true → c ≡ d
same_char c d h = ground arith

escaped_char :
    (ws : List Text) (cur rest : Text) (c : ℕ) (b : Bool)
    → (c == b'\'') ≡ b
    → scan split_move
        (at ws single cur)
        (if b then b'\'' ∷ b'\\' ∷ b'\'' ∷ b'\'' ∷ rest else c ∷ rest)
      ≡ scan split_move (at ws single (cur ++ c ∷ [])) rest
escaped_char ws cur rest c true h =
    quote_closes ws cur (b'\\' ∷ b'\'' ∷ b'\'' ∷ rest)
    ∙ escaped_quote ws cur (b'\'' ∷ rest)
    ∙ quote_opens ws true (cur ++ b'\'' ∷ []) rest
    ∙ ap (λ d. scan split_move (at ws single (cur ++ d ∷ [])) rest) (sym (same_char c b'\'' h))
escaped_char ws cur rest c false h = quoted_char ws cur rest c h

if_append :
    (b : Bool) (x y rest : Text)
    → (if b then x else y) ++ rest ≡ (if b then x ++ rest else y ++ rest)
if_append true x y rest = refl
if_append false x y rest = refl

-- The scanner reads the value back from its escaped form.
scan-escape_quotes :
    (ws : List Text) (cur v rest : Text)
    → scan split_move (at ws single cur) (escape_quotes v ++ rest)
      ≡ scan split_move (at ws single (cur ++ v)) rest
unfolding escape_quotes
scan-escape_quotes ws cur [] rest = rw append-nil refl
scan-escape_quotes ws cur (c ∷ v) rest =
    ap (scan split_move (at ws single cur)) (if_append (c == b'\'') _ _ rest)
    ∙ escaped_char ws cur (escape_quotes v ++ rest) c (c == b'\'') refl
    ∙ scan-escape_quotes ws (cur ++ c ∷ []) v rest
    ∙ ap (λ x. scan split_move (at ws single x) rest) (append_assoc cur (c ∷ []) v)

-- Between words.
abbrev between : List Text → Split
between ws = record { words = ws; current = []; state = bare; in_word = false }

scan-shell_quote :
    (ws : List Text) (v rest : Text)
    → scan split_move (between ws) (shell_quote v ++ rest) ≡ scan split_move (at ws bare v) rest
unfolding shell_quote
scan-shell_quote ws v rest =
    quote_opens ws false [] ((escape_quotes v ++ b'\'' ∷ []) ++ rest)
    ∙ ap (scan split_move (at ws single [])) (append_assoc (escape_quotes v) (b'\'' ∷ []) rest)
    ∙ scan-escape_quotes ws [] v (b'\'' ∷ rest)
    ∙ quote_closes ws v rest

scan-space :
    (ws : List Text) (cur rest : Text)
    → scan split_move (at ws bare cur) (b' ' ∷ rest)
      ≡ scan split_move (between (ws ++ cur ∷ [])) rest
scan-space ws cur rest = scan-one split_move _ _ b' ' rest (λ p. unfold split_in in refl)

-- The words, each quoted, with a space between two of them.
unfoldable pub quoted_words : List Text → Text
quoted_words [] = []
quoted_words (w ∷ []) = shell_quote w
quoted_words (w ∷ v ∷ ws) = shell_quote w ++ b' ' ∷ quoted_words (v ∷ ws)

scan-quoted_words :
    (ws : List Text) (w : Text) (vs : List Text)
    → (scan split_move (between ws) (quoted_words (w ∷ vs)) >>= finish_split) ≡ ok (ws ++ w ∷ vs)
unfolding quoted_words
scan-quoted_words ws w [] =
    ap (λ t. scan split_move (between ws) t >>= finish_split) (sym (append-nil (shell_quote w)))
    ∙ ap (λ r. r >>= finish_split) (scan-shell_quote ws w [])
    ∙ (unfold scan finish_split in refl)
scan-quoted_words ws w (v ∷ vs) =
    ap (λ r. r >>= finish_split)
      (scan-shell_quote ws w (b' ' ∷ quoted_words (v ∷ vs))
        ∙ scan-space ws w (quoted_words (v ∷ vs)))
    ∙ scan-quoted_words (ws ++ w ∷ []) v vs
    ∙ ap ok (append_assoc ws (w ∷ []) (v ∷ vs))

-- Words that are quoted one by one and joined by spaces are split into the same words, whatever
-- characters they hold.
pub split_simple_command_words-quoted_words :
    (ws : List Text) → split_simple_command_words (quoted_words ws) ≡ ok ws
unfolding split_simple_command_words
split_simple_command_words-quoted_words [] = unfold quoted_words scan finish_split in refl
split_simple_command_words-quoted_words (w ∷ ws) = scan-quoted_words [] w ws

scan-plain_c :
    (ws : List Text) (rest : Text)
    → scan split_move (between ws) (text "-c " ++ rest)
      ≡ scan split_move (between (ws ++ text "-c" ∷ [])) rest
scan-plain_c ws rest =
    scan-one split_move (between ws) (at ws bare (text "-")) b'-' (b'c' ∷ b' ' ∷ rest)
      (λ p. unfold split_in in refl)
    ∙ scan-one split_move (at ws bare (text "-")) (at ws bare (text "-c")) b'c' (b' ' ∷ rest)
        (λ p. unfold split_in in refl)
    ∙ scan-space ws (text "-c") rest

-- A quoted shell, `-c` and a quoted script are three words.
shell_command-words :
    (shell script : Text)
    → (scan split_move (between []) (shell_quote shell ++ text " -c " ++ shell_quote script)
        >>= finish_split)
      ≡ ok (shell ∷ text "-c" ∷ script ∷ [])
unfolding shell_quote quoted_words
shell_command-words shell script =
    let ws = shell ∷ text "-c" ∷ [] in
    ap (λ r. r >>= finish_split)
      (ap (scan split_move (between []))
          (append_assoc (shell_quote shell) (text " -c ") (shell_quote script))
        ∙ scan-shell_quote [] shell (b' ' ∷ text "-c " ++ shell_quote script)
        ∙ scan-space [] shell (text "-c " ++ shell_quote script)
        ∙ scan-plain_c (shell ∷ []) (shell_quote script))
    ∙ scan-quoted_words ws script []

sequence_command-eq :
    (steps : List Text) (shell : Option Text) (command : Text)
    → sequence_command steps shell ≡ ok command
    → command
      ≡ shell_quote (shell_or_default shell) ++ text " -c " ++ shell_quote (sequence_script steps)
unfolding sequence_command
sequence_command-eq steps shell command h = ground arith

-- When a sequence of steps is accepted, the command that is run splits into three words: the shell,
-- `-c`, and the script `set -e` with one line for each step.
pub sequence_command-words :
    (steps : List Text) (shell : Option Text) (command : Text)
    → sequence_command steps shell ≡ ok command
    → split_simple_command_words command
      ≡ ok (shell_or_default shell ∷ text "-c" ∷ sequence_script steps ∷ [])
unfolding split_simple_command_words
sequence_command-words steps shell command h =
    ap (λ t. scan split_move (between []) t >>= finish_split)
      (sequence_command-eq steps shell command h)
    ∙ shell_command-words (shell_or_default shell) (sequence_script steps)
