-- ===== src/Store/Leases.antt =====
-- Active leases in crates/stateful-store/src/store_v2.rs: views of them, conflicts between them,
-- and their creation, growth and deletion.
use stateful_core.Base.{
  ℕ, Text, text, Bool, true, false, not, ◌&&◌, ◌||◌, Option, none, some, List, [], ◌∷◌, ◌++◌, map,
  find, any, filter, length, update_where, if◌then◌else◌, text_eq, text_le, is_empty, ◌==◌,
}
use stateful_core.Coordination.{directory_tree, kind_eq, ResourceKey}
use stateful_core.Resource.{same_identity, resource_keys_overlap, sort_keys}
use stateful_core.Store.Models.{CommandContext, LeaseRequestState}
use stateful_core.Store.Tables.{
  Db, LeaseRow, LeaseResourceRow, LeaseMode, exclusive_write, exclusive_directory, ActiveState,
  RequestRow, RequestResourceRow, WriteRow, WriteStatus,
}
use stateful_core.Store.Context.{at_task}
use stateful_core.Store.Evidence.{is_some}
use stateful_core.Store.Observations.{find_resource}
use stateful_core.Store.Tx.{
  Env, sqlite, not_found, invalid_state, corrupt, Tx, Done, ◌>>=◌, ◌>>◌, pure, gets, modify,
  or_fail, fail_if, for_each, checked_suc, new_uuid,
}

pub record ActiveLeaseView : Type 0 where
  pub batch_id : Text
  pub version : ℕ
  pub state : ActiveState
  pub expires_at : Text
  pub resources : List ResourceKey
  pub in_flight_count : ℕ

abbrev pub in_batch : Text → LeaseResourceRow → Bool
in_batch batch_id r = text_eq r.batch_id batch_id

unfoldable pub lease_resources : Text → Db → List ResourceKey
lease_resources batch_id db =
    sort_keys (map (λ r. r.resource) (filter (in_batch batch_id) db.lease_resources))

-- `SELECT COUNT(*) FROM lease_resources WHERE batch_id = ?1 AND in_flight_attempt_id IS NOT NULL`.
unfoldable pub in_flight_slots : Text → Db → ℕ
in_flight_slots batch_id db =
    length (filter (λ r. in_batch batch_id r && is_some r.in_flight_attempt_id) db.lease_resources)

abbrev pub lease_of_task : Text → Text → LeaseRow → Bool
lease_of_task workspace_id task_id l = at_task workspace_id task_id l.workspace_id l.task_id

unfoldable pub view_of : Db → Option LeaseRow → Option ActiveLeaseView
view_of db none = none
view_of db (some l) = some (record {
  batch_id = l.batch_id;
  version = l.version;
  state = l.state;
  expires_at = l.expires_at;
  resources = lease_resources l.batch_id db;
  in_flight_count = in_flight_slots l.batch_id db;
})

unfoldable pub active_task_lease : CommandContext → Db → Option ActiveLeaseView
unfolding view_of
active_task_lease ctx db = view_of db (find (lease_of_task ctx.workspace_id ctx.task_id) db.leases)

-- `?3 IS NULL OR task_id <> ?3`.
abbrev pub not_excluded : Option Text → Text → Bool
not_excluded none t = true
not_excluded (some excluded) t = not (text_eq t excluded)

unfoldable pub agent_slot_occupied : CommandContext → Option Text → Db → Bool
agent_slot_occupied ctx excluding_task_id db =
    any
      (λ (l : LeaseRow).
        text_eq l.workspace_id ctx.workspace_id
        && text_eq l.agent_id ctx.agent_id
        && not_excluded excluding_task_id l.task_id)
      db.leases

-- Insertion into a `BTreeSet<String>`.
unfoldable pub set_insert : Text → List Text → List Text
set_insert t [] = t ∷ []
set_insert t (u ∷ us) =
    let rest = u ∷ set_insert t us in
    if text_eq t u then u ∷ us else (if text_le t u then t ∷ u ∷ us else rest)

-- Does a row's resource, read in the workspace, overlap one of the resources?
abbrev pub hits : Text → List ResourceKey → ResourceKey → Bool
hits workspace_id resources row =
    any (λ resource. resource_keys_overlap resource (record row { workspace_id = workspace_id }))
      resources

-- The leases of other tasks of the workspace.
abbrev pub other_leases : Text → Text → Db → List LeaseRow
other_leases workspace_id task_id db =
    filter (λ l. text_eq l.workspace_id workspace_id && not (text_eq l.task_id task_id)) db.leases

abbrev pub lease_hits : Text → Db → List ResourceKey → LeaseRow → Bool
lease_hits workspace_id db resources l =
    any (λ r. in_batch l.batch_id r && hits workspace_id resources r.resource) db.lease_resources

abbrev pub request_in_batch : Text → RequestResourceRow → Bool
request_in_batch batch_id r = text_eq r.batch_id batch_id

abbrev pub request_hits : Text → Db → List ResourceKey → RequestRow → Bool
request_hits workspace_id db resources q =
    any (λ r. request_in_batch q.batch_id r && hits workspace_id resources r.resource)
      db.request_resources

abbrev pub is_queued : LeaseRequestState → Bool
is_queued LeaseRequestState.queued = true
is_queued _ = false

abbrev pub is_offered : LeaseRequestState → Bool
is_offered LeaseRequestState.offered = true
is_offered _ = false

-- `state IN ('queued', 'offered')`.
abbrev pub is_pending : LeaseRequestState → Bool
is_pending LeaseRequestState.queued = true
is_pending LeaseRequestState.offered = true
is_pending _ = false

-- `exclude_offer_batch.is_some_and(|batch| batch == row.batch_id)`.
abbrev pub offer_excluded : Option Text → Text → Bool
offer_excluded none batch_id = false
offer_excluded (some batch) batch_id = text_eq batch batch_id

-- The requests of other tasks of the workspace in a state.
abbrev pub other_requests : (LeaseRequestState → Bool) → Text → Text → Db → List RequestRow
other_requests in_state workspace_id task_id db =
    filter
      (λ q.
        text_eq q.workspace_id workspace_id && not (text_eq q.task_id task_id) && in_state q.state)
      db.requests

unfoldable pub insert_names : Text → List Text → List Text → List Text
insert_names prefix [] names = names
insert_names prefix (task ∷ tasks) names =
    insert_names prefix tasks (set_insert (prefix ++ task) names)

-- The tasks of the leases that overlap.
abbrev pub holders : Text → Text → List ResourceKey → Db → List Text
holders workspace_id task_id resources db =
    map (λ l. l.task_id)
      (filter (lease_hits workspace_id db resources) (other_leases workspace_id task_id db))

-- The tasks of the offers that overlap.
abbrev pub offer_holders : Text → Text → List ResourceKey → Option Text → Db → List Text
offer_holders workspace_id task_id resources exclude_offer_batch db =
    map (λ q. q.task_id)
      (filter
        (λ q.
          not (offer_excluded exclude_offer_batch q.batch_id)
          && request_hits workspace_id db resources q)
        (other_requests is_offered workspace_id task_id db))

unfoldable pub conflicting_owners : Text → Text → List ResourceKey → Option Text → Db → List Text
unfolding insert_names
conflicting_owners workspace_id task_id resources exclude_offer_batch db =
    insert_names (text "offer:")
      (offer_holders workspace_id task_id resources exclude_offer_batch db)
      (insert_names (text "task:") (holders workspace_id task_id resources db) [])

unfoldable pub queued_conflicting_owners : Text → Text → List ResourceKey → Db → List Text
unfolding insert_names
queued_conflicting_owners workspace_id task_id resources db =
    insert_names (text "queue:")
      (map (λ q. q.task_id)
        (filter (request_hits workspace_id db resources)
          (other_requests is_queued workspace_id task_id db)))
      []

-- `DELETE FROM active_leases WHERE …`, whose foreign key deletes the resources of the batches.
unfoldable pub delete_leases : (LeaseRow → Bool) → Db → Db
delete_leases gone db = record db {
  leases = filter (λ l. not (gone l)) db.leases;
  lease_resources =
      filter (λ r. not (any (λ l. gone l && text_eq l.batch_id r.batch_id) db.leases))
        db.lease_resources;
}

-- `UPDATE active_leases SET state = 'draining', release_pending = 1 WHERE …`.
unfoldable pub drain_leases : (LeaseRow → Bool) → Db → Db
drain_leases chosen db = record db {
  leases =
      update_where chosen (λ l. record l { state = ActiveState.draining; release_pending = true })
        db.leases;
}

unfoldable pub release_all_task_leases : CommandContext → Db → Db
release_all_task_leases ctx db = delete_leases (lease_of_task ctx.workspace_id ctx.task_id) db

-- `status IN ('executing', 'uncertain')`.
abbrev pub is_unsettled : WriteStatus → Bool
is_unsettled WriteStatus.executing = true
is_unsettled WriteStatus.uncertain = true
is_unsettled _ = false

-- The unsettled attempts of a task whose batch still has a lease.
unfoldable pub in_flight_count : Text → Text → Db → ℕ
in_flight_count workspace_id task_id db = length (
    filter
      (λ (w : WriteRow).
        at_task workspace_id task_id w.workspace_id w.task_id
        && is_unsettled w.status
        && any (λ (l : LeaseRow). text_eq l.batch_id w.batch_id) db.leases)
      db.writes)

unfoldable pub task_in_flight_count : CommandContext → Db → ℕ
unfolding in_flight_count
task_in_flight_count ctx db = in_flight_count ctx.workspace_id ctx.task_id db

-- The unique indexes on `lease_resources`: (batch, resource) and (workspace, resource). The batch
-- is a foreign key.
abbrev pub lease_resource_taken : Text → ResourceKey → Db → Bool
lease_resource_taken batch_id resource db =
    any
      (λ (r : LeaseResourceRow).
        text_eq r.resource.resource_id resource.resource_id
        && (text_eq r.batch_id batch_id || text_eq r.resource.workspace_id resource.workspace_id))
      db.lease_resources

abbrev pub add_lease_resource : LeaseResourceRow → Db → Db
add_lease_resource row db = record db { lease_resources = db.lease_resources ++ row ∷ [] }

unfoldable pub insert_lease_resource : Text → ResourceKey → Tx Done
insert_lease_resource batch_id resource = do
  row ← gets (find_resource resource.workspace_id resource.resource_id)
  found ← or_fail (not_found "lease resource not found") row
  taken ← gets (lease_resource_taken batch_id resource)
  leased ← gets (λ db. any (λ (l : LeaseRow). text_eq l.batch_id batch_id) db.leases)
  fail_if (taken || not leased) sqlite
  modify (
      add_lease_resource (record {
        batch_id = batch_id;
        resource = resource;
        acquired_generation = found.generation;
        in_flight_attempt_id = none;
      }))

unfoldable pub mode_of : List ResourceKey → LeaseMode
mode_of resources =
    if any (λ r. kind_eq r.kind directory_tree) resources
    then exclusive_directory
    else exclusive_write

-- The unique indexes on `active_leases`: the batch, and (workspace, agent).
abbrev pub lease_taken : Text → CommandContext → Db → Bool
lease_taken batch_id ctx db =
    any
      (λ (l : LeaseRow).
        text_eq l.batch_id batch_id
        || (text_eq l.workspace_id ctx.workspace_id && text_eq l.agent_id ctx.agent_id))
      db.leases

abbrev pub add_lease : LeaseRow → Db → Db
add_lease row db = record db { leases = db.leases ++ row ∷ [] }

unfoldable pub insert_lease : CommandContext → Text → ℕ → List ResourceKey → Text → Tx Done
insert_lease ctx batch_id version resources expires_at = do
  taken ← gets (lease_taken batch_id ctx)
  fail_if taken sqlite
  modify (
      add_lease (record {
        batch_id = batch_id;
        workspace_id = ctx.workspace_id;
        task_id = ctx.task_id;
        agent_id = ctx.agent_id;
        mode = mode_of resources;
        state = ActiveState.active;
        version = version;
        acquired_at = ctx.observed_at;
        expires_at = expires_at;
        release_pending = false;
      }))

unfoldable pub insert_active_lease : CommandContext → Text → ℕ → List ResourceKey → Text → Tx Done
unfolding insert_lease
insert_active_lease ctx batch_id version resources expires_at = do
  insert_lease ctx batch_id version resources expires_at
  for_each resources (insert_lease_resource batch_id)

abbrev pub is_active_state : ActiveState → Bool
is_active_state ActiveState.active = true
is_active_state ActiveState.draining = false

abbrev pub set_lease_terms : Text → ℕ → Text → Db → Db
set_lease_terms batch_id version expires_at db = record db {
  leases =
      update_where (λ l. text_eq l.batch_id batch_id)
        (λ l. record l { version = version; expires_at = expires_at }) db.leases;
}

unfoldable pub new_lease : Env → CommandContext → List ResourceKey → Text → Tx ActiveLeaseView
new_lease env ctx resources expires_at = do
  batch_id ← new_uuid env
  insert_active_lease ctx batch_id 1 resources expires_at
  pure (record {
    batch_id = batch_id;
    version = 1;
    state = ActiveState.active;
    expires_at = expires_at;
    resources = resources;
    in_flight_count = 0;
  })

-- The version after growth or a new expiry.
unfoldable pub renewed_version : ActiveLeaseView → Bool → Text → Tx ℕ
renewed_version lease true expires_at = do
  version ← or_fail (corrupt "lease version overflow") (checked_suc lease.version)
  modify (set_lease_terms lease.batch_id version expires_at)
  pure version
renewed_version lease false expires_at = pure lease.version

-- The resources that a lease does not have yet.
abbrev pub additions_to : List ResourceKey → List ResourceKey → List ResourceKey
additions_to held resources = filter (λ r. not (any (same_identity r) held)) resources

unfoldable pub grow_lease :
    CommandContext → ActiveLeaseView → List ResourceKey → Text → Tx ActiveLeaseView
unfolding renewed_version
grow_lease ctx lease resources expires_at = do
  fail_if (not (is_active_state lease.state) || text_le lease.expires_at ctx.observed_at)
      (invalid_state "lease is draining or expired")
  let additions = additions_to lease.resources resources
  let grows = not (is_empty additions)
  fail_if (grows && not (lease.in_flight_count == 0))
      (invalid_state "cannot expand a lease while a write is in flight")
  for_each additions (insert_lease_resource lease.batch_id)
  version ← renewed_version lease (grows || not (text_eq lease.expires_at expires_at)) expires_at
  pure (record lease { version = version; expires_at = expires_at; resources = resources })

unfoldable pub ensure_active_lease :
    Env → CommandContext → Option ActiveLeaseView → List ResourceKey → Text → Tx ActiveLeaseView
unfolding new_lease grow_lease
ensure_active_lease env ctx none resources expires_at = new_lease env ctx resources expires_at
ensure_active_lease env ctx (some lease) resources expires_at =
    grow_lease ctx lease resources expires_at
