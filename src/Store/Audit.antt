-- ===== src/Store/Audit.antt =====
-- `append_audit` of crates/stateful-store/src/store_v2.rs.
use stateful_core.Base.{Text, text_eq, Bool, any, [], ◌∷◌, ◌++◌}
use stateful_core.Store.Models.{CommandContext}
use stateful_core.Store.Tables.{AuditPayload, AuditRow, Db}
use stateful_core.Store.Tx.{Env, Tx, Done, ◌>>=◌, ◌>>◌, gets, fail_if, sqlite, modify, new_uuid}

unfoldable pub audit_row : CommandContext → Text → Text → AuditPayload → AuditRow
audit_row ctx event_id event_type payload = record {
  event_id = event_id;
  workspace_id = ctx.workspace_id;
  task_id = ctx.task_id;
  agent_id = ctx.agent_id;
  event_type = event_type;
  payload = payload;
  created_at = ctx.observed_at;
}

-- The primary key of `audit_events`.
abbrev pub event_audited : Text → Db → Bool
event_audited event_id db = any (λ (a : AuditRow). text_eq a.event_id event_id) db.audit

unfoldable pub append_audit : Env → CommandContext → Text → AuditPayload → Tx Done
unfolding audit_row
append_audit env ctx event_type payload = do
  event_id ← new_uuid env
  taken ← gets (event_audited event_id)
  fail_if taken sqlite
  modify (λ db. record db { audit = db.audit ++ audit_row ctx event_id event_type payload ∷ [] })
