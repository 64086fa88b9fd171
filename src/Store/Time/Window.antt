-- ===== src/Store/Time/Window.antt =====
-- The window of a timestamp that a command gives.
use stateful_core.Base.{ℕ, ◌+◌, ◌≤◌, ◌<◌, Text, String, some, ◌≡◌, arith, ◌↔◌}
use stateful_core.Store.Tables.{Db}
use stateful_core.Store.Tx.{Env, ok, ◌>>=◌}
use stateful_core.Store.Time.{
  parse_timestamp, parsed_timestamp, nanoseconds, validate_future_window,
}

-- A timestamp is accepted exactly if both instants are read, it is later than the command was observed, and
-- not later than the maximum number of seconds after that.
pub validate_future_window_iff :
    (env : Env) (observed_at expires_at : Text) (maximum_seconds : ℕ) (field : String) (db : Db)
    → (validate_future_window env observed_at expires_at maximum_seconds field db ≡ ok (tt, db)) ↔ (
        (observed : ℕ) × (expires : ℕ) × (env.parse_rfc3339 observed_at ≡ some observed)
        × (env.parse_rfc3339 expires_at ≡ some expires)
        × (observed < expires)
        × (expires ≤ observed + nanoseconds maximum_seconds))
unfolding validate_future_window parse_timestamp parsed_timestamp ◌>>=◌
validate_future_window_iff env observed_at expires_at maximum_seconds field db = ground arith
