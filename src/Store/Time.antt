-- ===== src/Store/Time.antt =====
-- The timestamps of crates/stateful-store/src/store_v2.rs: parsing and windows.
pub mod Window
use stateful_core.Base.{
  ℕ, ◌+◌, ◌*◌, ◌^◌, Text, String, ◌||◌, Option, none, some, ltb, leb, if◌then◌else◌,
}
use stateful_core.Store.Tx.{
  Env, Result, ok, err, invalid_input, invalid_timestamp, corrupt, panicked, Tx, ◌>>=◌, pure, lift,
  fail_if, Done,
}
-- The prelude's `String` append.
use Prim.Native.String.{◌++◌}

unfoldable pub parsed_timestamp : Text → Option ℕ → Result ℕ
parsed_timestamp value none = err (invalid_timestamp value)
parsed_timestamp value (some t) = ok t

unfoldable pub parse_timestamp : Env → Text → Result ℕ
unfolding parsed_timestamp
parse_timestamp env value = parsed_timestamp value (env.parse_rfc3339 value)

unfoldable pub formatted : Option Text → Result Text
formatted none = err (corrupt "timestamp format failed")
formatted (some t) = ok t

unfoldable pub format_timestamp : Env → ℕ → Result Text
unfolding formatted
format_timestamp env t = formatted (env.format_rfc3339 t)

abbrev pub nanoseconds : ℕ → ℕ
nanoseconds seconds = seconds * 1000000000

-- `t + Duration::seconds(seconds)`; there is no instant after the last one.
unfoldable pub seconds_after : Env → ℕ → ℕ → Result ℕ
seconds_after env t seconds =
    let later = t + nanoseconds seconds in
    if ltb env.last_instant later then err panicked else ok later

-- `i64::try_from`.
unfoldable pub setting_seconds : ℕ → Result ℕ
setting_seconds n =
    if ltb n (2 ^ 63) then ok n else err (invalid_input "coordination duration is too large")

unfoldable pub validate_timestamp : Env → Text → Tx Done
unfolding parse_timestamp
validate_timestamp env value = do t ← lift (parse_timestamp env value); pure tt

unfoldable pub validate_future : Env → Text → Text → String → Tx Done
unfolding parse_timestamp
validate_future env observed_at future field = do
  t ← lift (parse_timestamp env future)
  now ← lift (parse_timestamp env observed_at)
  fail_if (leb t now) (invalid_input (field ++ " must be after observed_at"))

-- `expires - observed > d` is written `observed + d < expires`. The message leaves out the number of
-- seconds.
unfoldable pub validate_future_window : Env → Text → Text → ℕ → String → Tx Done
unfolding parse_timestamp
validate_future_window env observed_at expires_at maximum_seconds field = do
  observed ← lift (parse_timestamp env observed_at)
  expires ← lift (parse_timestamp env expires_at)
  fail_if (leb expires observed || ltb (observed + nanoseconds maximum_seconds) expires)
      (invalid_input (field ++ " must be after observed_at and within its window"))
