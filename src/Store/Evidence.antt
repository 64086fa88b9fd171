-- ===== src/Store/Evidence.antt =====
-- Read evidence in crates/stateful-store/src/store_v2.rs: what is recorded, what revokes it, and
-- what counts as evidence for a write.
use stateful_core.Base.{
  Text, Bool, true, false, not, ◌&&◌, ◌||◌, Option, none, some, List, [], ◌∷◌, ◌++◌, any, all,
  filter, update_where, if◌then◌else◌, text_eq, text_le,
}
use stateful_core.Coordination.{ResourceKey, ResourceObservation}
use stateful_core.Resource.{resource_keys_overlap}
use stateful_core.Resource.Observation.{observation_eq, json_same_state}
use stateful_core.Store.Models.{CommandContext}
use stateful_core.Store.Tables.{
  Db, EvidenceRow, IntentRow, IntentStatus, SourceKind, LeaseRow, LeaseResourceRow,
}
use stateful_core.Store.Context.{at_task}
use stateful_core.Store.Tx.{
  Env, sqlite, Tx, Done, ◌>>=◌, ◌>>◌, gets, modify, fail_if, for_each, new_uuid, when,
}

abbrev pub is_active_intent : IntentStatus → Bool
is_active_intent IntentStatus.active = true
is_active_intent _ = false

abbrev pub is_some {ℓ} : {A : Type ℓ} → Option A → Bool
is_some none = false
is_some (some _) = true

-- `exclude_task.is_some_and(|task| task == row.task_id)`.
abbrev pub excludes : Option Text → Text → Bool
excludes none t = false
excludes (some task) t = text_eq task t

-- The key that is made of a row: its workspace is the context's.
abbrev pub in_workspace : CommandContext → ResourceKey → ResourceKey
in_workspace ctx resource = record resource { workspace_id = ctx.workspace_id }

-- The rows that `revoke_overlapping` collects.
unfoldable pub revokes : CommandContext → ResourceKey → Option Text → EvidenceRow → Bool
revokes ctx resource exclude_task row =
    text_eq row.workspace_id ctx.workspace_id
    && row.valid
    && not (excludes exclude_task row.task_id)
    && resource_keys_overlap resource (in_workspace ctx row.resource)

-- The loop's two updates for one collected row.
unfoldable pub revoke_row : Db → EvidenceRow → Db
revoke_row db gone = record db {
  intents =
      update_where
        (λ i.
          text_eq i.evidence_id gone.evidence_id
          && text_eq i.resource.resource_id gone.resource.resource_id
          && is_active_intent i.status)
        (λ i. record i { status = IntentStatus.revoked }) db.intents;
  evidence =
      update_where
        (λ e.
          text_eq e.evidence_id gone.evidence_id
          && text_eq e.resource.resource_id gone.resource.resource_id
          && e.valid)
        (λ e. record e { valid = false }) db.evidence;
}

unfoldable pub revoke_rows : List EvidenceRow → Db → Db
revoke_rows [] db = db
revoke_rows (r ∷ rs) db = revoke_rows rs (revoke_row db r)

unfoldable pub revoke_overlapping : CommandContext → ResourceKey → Option Text → Db → Db
revoke_overlapping ctx resource exclude_task db =
    revoke_rows (filter (revokes ctx resource exclude_task) db.evidence) db

-- `for resource in resources { revoke_overlapping(…) }`.
unfoldable pub revoke_all : CommandContext → List ResourceKey → Option Text → Db → Db
revoke_all ctx [] exclude_task db = db
revoke_all ctx (r ∷ rs) exclude_task db =
    revoke_all ctx rs exclude_task (revoke_overlapping ctx r exclude_task db)

abbrev pub lease_of_batch : Text → LeaseRow → Bool
lease_of_batch batch_id l = text_eq l.batch_id batch_id

-- Does another task of the workspace have a write in flight on an overlapping resource?
unfoldable pub peer_write_in_flight : CommandContext → ResourceKey → Db → Bool
peer_write_in_flight ctx resource db =
    any
      (λ (r : LeaseResourceRow).
        is_some r.in_flight_attempt_id
        && any
            (λ (l : LeaseRow).
              text_eq l.batch_id r.batch_id
              && text_eq l.workspace_id ctx.workspace_id
              && not (text_eq l.task_id ctx.task_id))
            db.leases
        && resource_keys_overlap resource (in_workspace ctx r.resource))
      db.lease_resources

abbrev pub is_intent : CommandContext → Text → IntentRow → Bool
is_intent ctx resource_id i =
    at_task ctx.workspace_id ctx.task_id i.workspace_id i.task_id
    && text_eq i.resource.resource_id resource_id

-- `INSERT … ON CONFLICT … DO UPDATE … WHERE excluded.read_started_at >= read_started_at`.
unfoldable pub upsert_intent : CommandContext → IntentRow → List IntentRow → List IntentRow
upsert_intent ctx new [] = new ∷ []
upsert_intent ctx new (i ∷ is) =
    let rest = upsert_intent ctx new is in
    if is_intent ctx new.resource.resource_id i
    then (if text_le i.read_started_at new.read_started_at then new ∷ is else i ∷ is)
    else i ∷ rest

-- No active intent of the task on the resource started after this read.
unfoldable pub no_newer_read : CommandContext → ResourceKey → Text → Db → Bool
no_newer_read ctx resource read_started_at db =
    all
      (λ i.
        not (is_intent ctx resource.resource_id i && is_active_intent i.status)
        || text_le i.read_started_at read_started_at)
      db.intents

abbrev pub evidence_key_taken : Text → Text → Db → Bool
evidence_key_taken evidence_id resource_id db =
    any (λ e. text_eq e.evidence_id evidence_id && text_eq e.resource.resource_id resource_id)
      db.evidence

abbrev pub add_evidence : EvidenceRow → Db → Db
add_evidence row db = record db { evidence = db.evidence ++ row ∷ [] }

unfoldable pub insert_evidence : CommandContext → Text → Text → Text → ResourceObservation → Tx Done
unfolding upsert_intent
insert_evidence ctx evidence_id read_id read_started_at observation = do
  let resource = observation.resource
  newest ← gets (no_newer_read ctx resource read_started_at)
  peer ← gets (peer_write_in_flight ctx resource)
  let valid = newest && not peer
  taken ← gets (evidence_key_taken evidence_id resource.resource_id)
  fail_if taken sqlite
  modify (
      add_evidence (record {
        evidence_id = evidence_id;
        workspace_id = ctx.workspace_id;
        task_id = ctx.task_id;
        source_kind = SourceKind.read;
        source_id = read_id;
        resource = resource;
        observation = observation;
        complete = true;
        stable = true;
        exact = true;
        valid = valid;
        recorded_at = ctx.observed_at;
        read_started_at = some read_started_at;
      }))
  when valid (
      modify (λ db. record db {
        intents =
            upsert_intent ctx
              (record {
                workspace_id = ctx.workspace_id;
                task_id = ctx.task_id;
                resource = resource;
                evidence_id = evidence_id;
                status = IntentStatus.active;
                created_at = ctx.observed_at;
                read_started_at = read_started_at;
              })
              db.intents;
      }))

unfoldable pub own_write_row : CommandContext → Text → Text → ResourceObservation → EvidenceRow
own_write_row ctx evidence_id attempt_id observation = record {
  evidence_id = evidence_id;
  workspace_id = ctx.workspace_id;
  task_id = ctx.task_id;
  source_kind = SourceKind.own_write;
  source_id = attempt_id;
  resource = observation.resource;
  observation = observation;
  complete = true;
  stable = true;
  exact = true;
  valid = true;
  recorded_at = ctx.observed_at;
  read_started_at = none;
}

unfoldable pub insert_own_write_evidence :
    Env → CommandContext → Text → List ResourceObservation → Tx Done
unfolding own_write_row
insert_own_write_evidence env ctx attempt_id observations = do
  evidence_id ← new_uuid env
  for_each observations (λ observation. do
    taken ← gets (evidence_key_taken evidence_id observation.resource.resource_id)
    fail_if taken sqlite
    modify (add_evidence (own_write_row ctx evidence_id attempt_id observation)))

-- `?5 IS NULL OR (source_kind = 'read' AND read_started_at >= ?5)`.
unfoldable pub read_since : Option Text → EvidenceRow → Bool
read_since none e = true
read_since (some minimum) e = read_at e.source_kind e.read_started_at
  where
    read_at : SourceKind → Option Text → Bool
    read_at SourceKind.read (some started) = text_le minimum started
    read_at _ _ = false

-- Does the task hold valid evidence of exactly these observations?
unfoldable pub evidences : CommandContext → Option Text → ResourceObservation → EvidenceRow → Bool
unfolding read_since
evidences ctx minimum observation e =
    at_task ctx.workspace_id ctx.task_id e.workspace_id e.task_id
    && text_eq e.resource.resource_id observation.resource.resource_id
    && e.valid
    && e.complete
    && e.stable
    && e.exact
    && observation_eq e.observation observation
    && read_since minimum e

unfoldable pub has_current_evidence :
    CommandContext → List ResourceObservation → Option Text → Db → Bool
has_current_evidence ctx observations minimum db =
    all (λ o. any (evidences ctx minimum o) db.evidence) observations

unfoldable pub has_historical_evidence : CommandContext → List ResourceObservation → Db → Bool
has_historical_evidence ctx observations db =
    all
      (λ (o : ResourceObservation).
        any
          (λ (e : EvidenceRow).
            at_task ctx.workspace_id ctx.task_id e.workspace_id e.task_id
            && text_eq e.resource.resource_id o.resource.resource_id
            && e.complete
            && e.stable
            && e.exact
            && json_same_state e.observation o)
          db.evidence)
      observations
