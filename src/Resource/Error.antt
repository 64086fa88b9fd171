-- ===== src/Resource/Error.antt =====
-- `ResourceError` of crates/stateful-core/src/resource.rs, for the checks of operations.
use stateful_core.Base.{Text, String, Bool, true, false}

pub data ResourceError : Type 0 where
  invalid_relative_path : Text → ResourceError
  invalid_observation invalid_transition : String → ResourceError

pub data Checked {ℓ} (A : Type ℓ) : Type ℓ where
  ok : A → Checked A
  err : ResourceError → Checked A

infixl 5 ◌>>=◌ ◌>>◌
abbrev pub ◌>>=◌ {ℓ κ} : {A : Type ℓ} {B : Type κ} → Checked A → (A → Checked B) → Checked B
ok a >>= f = f a
err e >>= f = err e

abbrev pub Done : Type 0
Done = Unit

abbrev pub ◌>>◌ {ℓ} : {B : Type ℓ} → Checked Done → Checked B → Checked B
m >> k = m >>= λ _. k

-- `if bad { return Err(e) }`.
abbrev pub fail_if : Bool → ResourceError → Checked Done
fail_if true e = err e
fail_if false e = ok tt

abbrev pub is_ok {ℓ} : {A : Type ℓ} → Checked A → Bool
is_ok (ok _) = true
is_ok (err _) = false
