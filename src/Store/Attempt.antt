-- ===== src/Store/Attempt.antt =====
-- `prepare_write_attempt` of crates/stateful-store/src/store_v2.rs: the attempt of a write, and the
-- slots of the leased resources that it occupies.
use stateful_core.Base.{
  Text, Bool, true, not, ◌&&◌, ◌||◌, Option, none, some, List, [], ◌∷◌, ◌++◌, find, any,
  update_where, text_eq,
}
use stateful_core.Coordination.{ResourceObservation}
use stateful_core.Resource.{same_identity}
use stateful_core.Store.Models.{CommandContext, WritePrepareInput}
use stateful_core.Store.Tables.{Db, LeaseResourceRow, WriteRow, WriteStatus}
use stateful_core.Store.Context.{at_task}
use stateful_core.Store.Observations.{resources_of}
use stateful_core.Store.Evidence.{is_some, revoke_all}
use stateful_core.Store.Leases.{ActiveLeaseView, in_batch}
use stateful_core.Store.Tx.{
  Env, invalid_state, sqlite, Tx, Done, ◌>>=◌, ◌>>◌, pure, gets, modify, fail_if, for_each,
  new_uuid,
}

abbrev pub slot_of : Text → Text → LeaseResourceRow → Bool
slot_of batch_id resource_id r = in_batch batch_id r && text_eq r.resource.resource_id resource_id

unfoldable pub slot_taken : Option LeaseResourceRow → Tx Done
slot_taken none = fail_if true sqlite
slot_taken (some r) =
    fail_if (is_some r.in_flight_attempt_id)
      (invalid_state "write target already has an in-flight operation")

-- The first loop of `prepare_write_attempt`: the lease covers the target, whose slot is free.
unfoldable pub check_slot : ActiveLeaseView → ResourceObservation → Tx Done
unfolding slot_taken
check_slot lease o = do
  fail_if (not (any (same_identity o.resource) lease.resources))
      (invalid_state "write target is not covered by the active lease")
  slot ← gets (λ db. find (slot_of lease.batch_id o.resource.resource_id) db.lease_resources)
  slot_taken slot

abbrev pub is_free : LeaseResourceRow → Bool
is_free r = not (is_some r.in_flight_attempt_id)

-- The last loop: the slot of the target, if it is free, is the attempt's.
unfoldable pub acquire_slot : Text → Text → ResourceObservation → Tx Done
acquire_slot batch_id attempt_id o = do
  let chosen = λ (r : LeaseResourceRow). slot_of batch_id o.resource.resource_id r && is_free r
  updated ← gets (λ db. any chosen db.lease_resources)
  fail_if (not updated) (invalid_state "write slot acquisition lost its CAS")
  modify (λ db. record db {
    lease_resources =
        update_where chosen (λ r. record r { in_flight_attempt_id = some attempt_id })
          db.lease_resources;
  })

unfoldable pub new_write :
    CommandContext → WritePrepareInput → List ResourceObservation → Text → Text → Text → WriteRow
new_write ctx input current batch_id attempt_id permit_id = record {
  attempt_id = attempt_id;
  permit_id = permit_id;
  workspace_id = ctx.workspace_id;
  task_id = ctx.task_id;
  invocation_id = input.invocation_id;
  batch_id = batch_id;
  operation = input.operation;
  start_observations = current;
  status = WriteStatus.executing;
  started_at = ctx.observed_at;
  deadline = input.attempt_deadline;
  completed_at = none;
  terminal_result = none;
}

-- The primary key, the permit, and (workspace, task, invocation) are unique.
abbrev pub write_taken : CommandContext → Text → Text → Text → Db → Bool
write_taken ctx attempt_id permit_id invocation_id db =
    any
      (λ (w : WriteRow).
        text_eq w.attempt_id attempt_id
        || text_eq w.permit_id permit_id
        || (at_task ctx.workspace_id ctx.task_id w.workspace_id w.task_id
            && text_eq w.invocation_id invocation_id))
      db.writes

unfoldable pub prepare_write_attempt :
    Env
    → CommandContext
    → WritePrepareInput
    → List ResourceObservation
    → ActiveLeaseView
    → Tx (Text × Text)
unfolding check_slot acquire_slot new_write
prepare_write_attempt env ctx input current lease = do
  for_each current (check_slot lease)
  modify (revoke_all ctx (resources_of current) (some ctx.task_id))
  attempt_id ← new_uuid env
  permit_id ← new_uuid env
  taken ← gets (write_taken ctx attempt_id permit_id input.invocation_id)
  fail_if taken sqlite
  modify (λ db. record db {
    writes = db.writes ++ new_write ctx input current lease.batch_id attempt_id permit_id ∷ [];
  })
  for_each current (acquire_slot lease.batch_id attempt_id)
  pure (attempt_id, permit_id)
