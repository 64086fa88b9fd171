-- ===== src/Store/Queue.antt =====
-- The lease queue of crates/stateful-store/src/store_v2.rs: requests, and their promotion to offers.
use stateful_core.Base.{
  ℕ, suc, Text, Bool, false, not, ◌&&◌, ◌||◌, Option, none, some, List, [], ◌∷◌, ◌++◌, map, find,
  any, filter, update_where, if◌then◌else◌, text_eq, text_le, is_empty, leb, sort_by,
}
use Prim.Native.Nat.{min}
use stateful_core.Coordination.{ResourceKey}
use stateful_core.Resource.{sort_keys, sets_overlap}
use stateful_core.Store.Models.{CommandContext, LeaseRequestState}
use stateful_core.Store.Tables.{Db, TaskRow, LeaseRow, RequestRow}
use stateful_core.Store.Context.{at_task, find_task, is_active_task, check_settings}
use stateful_core.Store.Time.{parse_timestamp, format_timestamp, setting_seconds, seconds_after}
use stateful_core.Store.Leases.{
  is_queued, is_offered, is_pending, request_in_batch, conflicting_owners, mode_of,
}
use stateful_core.Store.Tx.{
  Env, sqlite, corrupt, Tx, Done, ◌>>=◌, ◌>>◌, pure, gets, lift, modify, or_fail, fail_if,
  checked_suc, new_uuid,
}

-- `UPDATE lease_requests SET … WHERE …`.
abbrev pub update_requests : (RequestRow → Bool) → (RequestRow → RequestRow) → Db → Db
update_requests chosen f db = record db { requests = update_where chosen f db.requests }

-- `offer_expires_at <= ?1`, false on NULL.
abbrev pub offer_due : Text → Option Text → Bool
offer_due now none = false
offer_due now (some t) = text_le t now

unfoldable pub expire_offers : Text → Db → Db
expire_offers now =
    update_requests (λ q. is_offered q.state && offer_due now q.offer_expires_at)
      (λ q. record q { state = LeaseRequestState.expired; updated_at = now })

unfoldable pub request_resources : Text → Db → List ResourceKey
request_resources batch_id db =
    sort_keys (map (λ r. r.resource) (filter (request_in_batch batch_id) db.request_resources))

abbrev pub request_of_task : Text → Text → RequestRow → Bool
request_of_task workspace_id task_id q = at_task workspace_id task_id q.workspace_id q.task_id

unfoldable pub pending_of : Db → Option RequestRow → Option (Text × List ResourceKey)
pending_of db none = none
pending_of db (some q) = some (q.batch_id, request_resources q.batch_id db)

unfoldable pub pending_task_request : CommandContext → Db → Option (Text × List ResourceKey)
unfolding pending_of
pending_task_request ctx db =
    pending_of db
      (find (λ q. request_of_task ctx.workspace_id ctx.task_id q && is_pending q.state) db.requests)

-- The request of a batch, if it is the task's.
unfoldable pub lease_request_row : CommandContext → Text → Db → Option RequestRow
lease_request_row ctx batch_id db =
    find (λ q. request_of_task ctx.workspace_id ctx.task_id q && text_eq q.batch_id batch_id)
      db.requests

-- The task's pending request gives way to the new one.
unfoldable pub supersede : CommandContext → Text → Db → Db
supersede ctx batch_id =
    update_requests (λ q. request_of_task ctx.workspace_id ctx.task_id q && is_pending q.state)
      (λ q. record q {
        state = LeaseRequestState.superseded;
        superseded_by = some batch_id;
        version = suc q.version;
        updated_at = ctx.observed_at;
      })

-- `batch_id` and `queue_sequence` are unique, and so is a task's pending request.
abbrev pub request_taken : CommandContext → Text → ℕ → Db → Bool
request_taken ctx batch_id sequence db =
    any
      (λ q.
        text_eq q.batch_id batch_id
        || (leb q.queue_sequence sequence && leb sequence q.queue_sequence)
        || (request_of_task ctx.workspace_id ctx.task_id q && is_pending q.state))
      db.requests

abbrev pub add_request : RequestRow → List ResourceKey → Db → Db
add_request q resources db = record db {
  requests = db.requests ++ q ∷ [];
  request_resources =
      db.request_resources ++ map (λ r. record { batch_id = q.batch_id; resource = r }) resources;
}

unfoldable pub new_request : CommandContext → Text → ℕ → List ResourceKey → Text → RequestRow
new_request ctx batch_id sequence resources expires_at = record {
  batch_id = batch_id;
  workspace_id = ctx.workspace_id;
  task_id = ctx.task_id;
  agent_id = ctx.agent_id;
  mode = mode_of resources;
  state = LeaseRequestState.queued;
  version = 1;
  queue_sequence = sequence;
  offer_id = none;
  offered_at = none;
  offer_expires_at = none;
  superseded_by = none;
  expires_at = expires_at;
  created_at = ctx.observed_at;
  updated_at = ctx.observed_at;
}

unfoldable pub insert_request : CommandContext → Text → ℕ → List ResourceKey → Text → Tx Done
insert_request ctx batch_id sequence resources expires_at = do
  taken ← gets (request_taken ctx batch_id sequence)
  fail_if taken sqlite
  modify (add_request (new_request ctx batch_id sequence resources expires_at) resources)

-- `(batch_id, queue_position)`. The primary key of `lease_request_resources` is not checked: the
-- batch is new, and a merged set holds a resource once.
unfoldable pub enqueue_request : Env → CommandContext → List ResourceKey → Text → Tx (Text × ℕ)
unfolding new_request insert_request
enqueue_request env ctx resources expires_at = do
  batch_id ← new_uuid env
  modify (supersede ctx batch_id)
  last ← gets (λ db. db.lease_queue)
  sequence ← or_fail (corrupt "lease queue sequence overflow") (checked_suc last)
  modify (λ db. record db { lease_queue = sequence })
  insert_request ctx batch_id sequence resources expires_at
  pure (batch_id, sequence)

-- A row of the query of `promote_waiters`: a queued request with its task.
pub record Waiter : Type 0 where
  pub request : RequestRow
  pub task : TaskRow

unfoldable pub join_task : RequestRow → Option TaskRow → List Waiter → List Waiter
join_task q none rest = rest
join_task q (some t) rest = record { request = q; task = t } ∷ rest

unfoldable pub join_tasks : Db → List RequestRow → List Waiter
unfolding join_task
join_tasks db [] = []
join_tasks db (q ∷ qs) =
    let rest = join_tasks db qs in join_task q (find_task q.workspace_id q.task_id db) rest

unfoldable pub waiters : Db → List Waiter
unfolding join_tasks
waiters db = join_tasks db (
    sort_by (λ a b. leb a.queue_sequence b.queue_sequence)
      (filter (λ q. is_queued q.state) db.requests))

abbrev pub is_batch : Text → RequestRow → Bool
is_batch batch_id q = text_eq q.batch_id batch_id

unfoldable pub expire_request : Text → Text → Db → Db
expire_request now batch_id =
    update_requests (λ q. is_batch batch_id q && is_queued q.state)
      (λ q. record q { state = LeaseRequestState.expired; updated_at = now })

unfoldable pub offer_request : Text → Text → Text → Text → Db → Db
offer_request now batch_id offer_id offer_expires_at =
    update_requests (λ q. is_batch batch_id q && is_queued q.state)
      (λ q. record q {
        state = LeaseRequestState.offered;
        version = suc q.version;
        offer_id = some offer_id;
        offered_at = some now;
        offer_expires_at = some offer_expires_at;
        updated_at = now;
      })

-- The four reasons of the loop that come from the tables.
unfoldable pub request_blocked : RequestRow → List ResourceKey → Db → Bool
request_blocked q resources db =
    any (λ (l : LeaseRow). text_eq l.workspace_id q.workspace_id && text_eq l.agent_id q.agent_id)
      db.leases
    || any (λ (l : LeaseRow). at_task q.workspace_id q.task_id l.workspace_id l.task_id) db.leases
    || any
        (λ r.
          text_eq r.workspace_id q.workspace_id
          && text_eq r.agent_id q.agent_id
          && is_offered r.state)
        db.requests
    || not (is_empty (conflicting_owners q.workspace_id q.task_id resources (some q.batch_id) db))

unfoldable pub make_offer : Env → Text → ℕ → Waiter → Tx Done
make_offer env now now_value w = do
  check_settings corrupt w.task.settings
  offer_id ← new_uuid env
  ttl ← lift (setting_seconds w.task.settings.offer_ttl_seconds)
  offer_limit ← lift (seconds_after env now_value ttl)
  request_limit ← lift (parse_timestamp env w.request.expires_at)
  offer_expires_at ← lift (format_timestamp env (min offer_limit request_limit))
  modify (offer_request now w.request.batch_id offer_id offer_expires_at)

unfoldable pub expire_waiter : Text → Waiter → Tx Done
expire_waiter now w = modify (expire_request now w.request.batch_id)

-- A waiter that is due: an offer, or one more set of resources that blocks those behind it.
unfoldable pub try_waiter :
    Env → Text → ℕ → Waiter → List ResourceKey → List ResourceKey → Tx (List ResourceKey)
try_waiter env now now_value w resources blocked = do
  stuck ← gets (request_blocked w.request resources)
  if sets_overlap resources blocked || stuck
      then pure (blocked ++ resources)
      else (make_offer env now now_value w >> pure blocked)

-- An active task's waiter, in time or expired.
unfoldable pub time_waiter :
    Env → Text → ℕ → Waiter → List ResourceKey → List ResourceKey → Tx (List ResourceKey)
unfolding expire_waiter try_waiter
time_waiter env now now_value w resources blocked = do
  expires ← lift (parse_timestamp env w.request.expires_at)
  if leb expires now_value
      then (expire_waiter now w >> pure blocked)
      else try_waiter env now now_value w resources blocked

-- One turn of the loop. The result is `blocked_resources` after it.
unfoldable pub promote_one : Env → Text → ℕ → Waiter → List ResourceKey → Tx (List ResourceKey)
unfolding expire_waiter time_waiter
promote_one env now now_value w blocked = do
  resources ← gets (request_resources w.request.batch_id)
  if is_active_task w.task.status
      then time_waiter env now now_value w resources blocked
      else (expire_waiter now w >> pure blocked)

unfoldable pub promote_each : Env → Text → ℕ → List Waiter → List ResourceKey → Tx Done
promote_each env now now_value [] blocked = pure tt
promote_each env now now_value (w ∷ ws) blocked = do
  blocked' ← promote_one env now now_value w blocked
  promote_each env now now_value ws blocked'

unfoldable pub promote_waiters : Env → Text → Tx Done
promote_waiters env now = do
  modify (expire_offers now)
  now_value ← lift (parse_timestamp env now)
  queued ← gets waiters
  promote_each env now now_value queued []
