-- ===== src/Cli/Result.antt =====
-- The command line's results: `Result<_, String>` and `anyhow::Result<_>`, whose errors are messages.
-- A message leaves out the parts that are computed.
use stateful_core.Base.{Bool, true, false, String}

pub data Result {ℓ} (A : Type ℓ) : Type ℓ where
  ok : A → Result A
  err : String → Result A

abbrev pub Done : Type 0
Done = Unit

infixl 5 ◌>>=◌ ◌>>◌
abbrev pub ◌>>=◌ {ℓ κ} : {A : Type ℓ} {B : Type κ} → Result A → (A → Result B) → Result B
ok a >>= f = f a
err e >>= f = err e

abbrev pub ◌>>◌ {ℓ} : {B : Type ℓ} → Result Done → Result B → Result B
m >> k = m >>= λ _. k

-- `if bad { return Err(message) }`.
abbrev pub fail_if : Bool → String → Result Done
fail_if true e = err e
fail_if false e = ok tt

-- `map_err` to one message.
abbrev pub or_message {ℓ} : {A : Type ℓ} → String → Result A → Result A
or_message m (ok a) = ok a
or_message m (err e) = err m
