-- ===== src/Coordination/Settings.antt =====
-- What `CoordinationSettings::validate` accepts.
use stateful_core.Base.{◌≡◌, ◌↔◌, ◌*◌, ◌≤◌, ◌<◌, none, arith}
use stateful_core.Coordination.{CoordinationSettings, validate_settings}

-- Settings are accepted exactly when the heartbeat interval, the lease expiry and the offer TTL are
-- positive, three heartbeats fit in the inactivity timeout, and the inactivity timeout is below
-- three times the lease expiry.
pub validate_settings_iff :
    (s : CoordinationSettings)
    → (validate_settings s ≡ none) ↔ (
        (0 < s.heartbeat_interval_seconds)
        × (0 < s.lease_expiry_seconds)
        × (0 < s.offer_ttl_seconds)
        × (3 * s.heartbeat_interval_seconds ≤ s.inactivity_timeout_seconds)
        × (s.inactivity_timeout_seconds < 3 * s.lease_expiry_seconds))
unfolding validate_settings
validate_settings_iff s = ground arith
