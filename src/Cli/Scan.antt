-- ===== src/Cli/Scan.antt =====
-- The loop that the command line's scanners share: `while let Some(ch) = chars.next()` over a peekable
-- iterator, with a state and early returns.
use stateful_core.Base.{ℕ, Text, String, Option, none, some, [], ◌∷◌, ◌≡◌, refl}
use stateful_core.Cli.Result.{Result, ok, err}

-- The quoting state, one of `QuoteState`, `ShellQuoteState` and `ShellSegmentQuoteState`.
pub data QuoteState : Type 0 where
  bare single double : QuoteState

-- A turn of the loop: an early return, or the next state with one or two characters taken.
pub data Move {ℓ} (S : Type ℓ) : Type ℓ where
  stop : String → Move S
  one two : S → Move S

module _ {ℓ} {S : Type ℓ} (move : S → ℕ → Option ℕ → Move S) where
  -- `move` sees the state, the character and the next one.
  unfoldable pub scan : S → Text → Result S
  scan s [] = ok s
  scan s (c ∷ []) = elim (move s c none) [ stop e ↦ err e | one t ↦ ok t | two t ↦ ok t ]
  scan s (c ∷ d ∷ cs) = elim (move s c (some d)) [
    | stop e ↦ err e
    | one t ↦ scan t (d ∷ cs)
    | two t ↦ scan t cs
  ]

  -- A character that is taken whatever comes next.
  pub scan-one :
      (s t : S) (c : ℕ) (cs : Text)
      → ((p : Option ℕ) → move s c p ≡ one t)
      → scan s (c ∷ cs) ≡ scan t cs
  unfolding scan
  scan-one s t c [] h = rw (scan, h none) refl
  scan-one s t c (d ∷ cs) h = rw (scan, h (some d)) refl

  -- Two characters that are taken together.
  pub scan-two :
      (s t : S) (c d : ℕ) (cs : Text) → move s c (some d) ≡ two t → scan s (c ∷ d ∷ cs) ≡ scan t cs
  unfolding scan
  scan-two s t c d cs h = rw (scan, h) refl
