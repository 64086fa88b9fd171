-- ===== src/Store/Tx.antt =====
-- crates/stateful-store/src/lib.rs and the transactions of store_v2.rs: a handler reads and writes
-- the database or fails with a `StoreError`, and a failed transaction is rolled back.
use stateful_core.Base.{
  ℕ, suc, ◌+◌, ◌^◌, Text, String, Bool, true, false, Option, none, some, List, [], ◌∷◌, ltb,
  if◌then◌else◌,
}
use stateful_core.Store.Tables.{Db}
use stateful_core.Store.Models.{Command}

-- `sqlite` is a `rusqlite::Error` (a violated constraint, or no row), `panicked` an overflow of a timestamp.
pub data StoreError : Type 0 where
  invalid_input invalid_state not_found ownership corrupt : String → StoreError
  invalid_timestamp : Text → StoreError
  idempotency_mismatch sqlite panicked : StoreError

pub data Result {ℓ} (A : Type ℓ) : Type ℓ where
  ok : A → Result A
  err : StoreError → Result A

-- Rust's `()`.
abbrev pub Done : Type 0
Done = Unit

-- What other crates give. Instants are nanoseconds since the earliest instant that
-- `OffsetDateTime` represents at the offset `Z`, and `last_instant` is the last one; `payload_digest` is `digest_canonical_json` of the payload.
pub record Env : Type 0 where
  pub uuid : ℕ → Text
  pub parse_rfc3339 : Text → Option ℕ
  pub format_rfc3339 : ℕ → Option Text
  pub last_instant : ℕ
  pub payload_digest : Command → Text

abbrev pub Tx {ℓ} : Type ℓ → Type ℓ
Tx A = Db → Result (A × Db)

module _ {ℓ} {A : Type ℓ} where
  pub pure : A → Tx A
  pure a db = ok (a, db)

  pub fail : StoreError → Tx A
  fail e db = err e

  pub gets : (Db → A) → Tx A
  gets f db = ok (f db, db)

  pub lift : Result A → Tx A
  lift (ok a) db = ok (a, db)
  lift (err e) db = err e

  pub or_fail : StoreError → Option A → Tx A
  or_fail e none db = err e
  or_fail e (some a) db = ok (a, db)

pub modify : (Db → Db) → Tx Done
modify f db = ok (tt, f db)

-- `if bad { return Err(e) }`.
pub fail_if : Bool → StoreError → Tx Done
fail_if true e db = err e
fail_if false e db = ok (tt, db)

-- `if b { m }`.
pub when : Bool → Tx Done → Tx Done
when true m db = m db
when false m db = ok (tt, db)

unfoldable pub continue_with {ℓ κ} :
    {A : Type ℓ} {B : Type κ} → Result (A × Db) → (A → Tx B) → Result (B × Db)
continue_with (ok (a, db)) f = f a db
continue_with (err e) f = err e

-- To unfold this is to unfold the actions above too.
infixl 5 ◌>>=◌ ◌>>◌
unfoldable pub ◌>>=◌ {ℓ κ} : {A : Type ℓ} {B : Type κ} → Tx A → (A → Tx B) → Tx B
unfolding continue_with pure fail gets lift or_fail modify fail_if when
◌>>=◌ m f db = continue_with (m db) f

abbrev pub ◌>>◌ {ℓ} : {B : Type ℓ} → Tx Done → Tx B → Tx B
m >> k = m >>= λ _. k

-- `for x in xs { body }`.
unfoldable pub for_each {ℓ} : {A : Type ℓ} → List A → (A → Tx Done) → Tx Done
for_each [] body = pure tt
for_each (x ∷ xs) body = body x >> for_each xs body

-- `u64::checked_add(1)`.
abbrev pub u64_max : ℕ
u64_max = 2 ^ 64

unfoldable pub checked_suc : ℕ → Option ℕ
checked_suc n = if ltb (n + 1) u64_max then some (n + 1) else none

-- `Uuid::new_v4`.
unfoldable pub new_uuid : Env → Tx Text
new_uuid env = do
  n ← gets (λ db. db.uuids_drawn)
  modify (λ db. record db { uuids_drawn = suc n })
  pure (env.uuid n)
