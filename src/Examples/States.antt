-- ===== src/Examples/States.antt =====
-- The store's states in the scenario, one after each command.
use stateful_core.Base.{text, [], ◌∷◌, ◌++◌, none, some, true, false}
use stateful_core.Coordination.{
  default_settings, TaskStatus, ResourceKind, MutationOperation, Observed, EntryState,
}
use stateful_core.Store.Models.{Response, WritePrepareResult, ReadResultStatus}
use stateful_core.Store.Tables.{
  Db, empty_db, AuditPayload, ReadStatus, WriteStatus, ActiveState, IntentStatus, SourceKind,
  LeaseMode,
}
use stateful_core.Examples.Scenario.{start_task, start_read, complete_read, prepare_create, entry_a}

abbrev pub after_start : Db
after_start = record empty_db {
  tasks =
      record {
        workspace_id = text "w";
        task_id = text "t";
        agent_id = text "t";
        status = TaskStatus.active;
        terminal_status = none;
        next_action = text "go";
        settings = default_settings;
        handoff = none;
        heartbeat_at = 10 ∷ [];
        expires_at = 90 ∷ [];
        created_at = 10 ∷ [];
        updated_at = 10 ∷ [];
      }
      ∷ [];
  events =
      record {
        event_id = 1001 ∷ [];
        workspace_id = text "w";
        task_id = text "t";
        agent_id = text "t";
        request_id = 49 ∷ [];
        command = start_task;
        response =
            Response.task
              record { task_id = text "t"; status = TaskStatus.active; draining = false };
        recorded_at = 10 ∷ [];
      }
      ∷ [];
  receipts =
      record {
        workspace_id = text "w";
        agent_id = text "t";
        request_id = 49 ∷ [];
        contract_revision = text "lease-1";
        command_kind = text "task.start";
        payload_digest = text "task.start";
        response =
            Response.task
              record { task_id = text "t"; status = TaskStatus.active; draining = false };
        recorded_at = 10 ∷ [];
      }
      ∷ [];
  audit =
      record {
        event_id = 1000 ∷ [];
        workspace_id = text "w";
        task_id = text "t";
        agent_id = text "t";
        event_type = text "task.started";
        payload = AuditPayload.task_started (text "go") default_settings (90 ∷ []);
        created_at = 10 ∷ [];
      }
      ∷ [];
  uuids_drawn = 2;
}

abbrev pub after_read_start : Db
after_read_start = record after_start {
  resources =
      record {
        workspace_id = text "w";
        resource_id = text "entry:1:a";
        kind = ResourceKind.entry;
        canonical_path = text "a";
        state = Observed.entry EntryState.absent;
        generation = 1;
        updated_at = 11 ∷ [];
      }
      ∷ [];
  aliases =
      record { workspace_id = text "w"; resource_id = text "entry:1:a"; canonical_path = text "a" }
      ∷ [];
  reads =
      record {
        read_id = text "r";
        workspace_id = text "w";
        task_id = text "t";
        invocation_id = text "i";
        resources =
            record {
              resource = entry_a.resource;
              observed = Observed.entry EntryState.absent;
              generation = 1;
            }
            ∷ [];
        status = ReadStatus.started;
        started_at = 11 ∷ [];
        completed_at = none;
      }
      ∷ [];
  events =
      after_start.events
      ++ record {
        event_id = 1003 ∷ [];
        workspace_id = text "w";
        task_id = text "t";
        agent_id = text "t";
        request_id = 50 ∷ [];
        command = start_read;
        response =
            Response.read
              record { read_id = text "r"; status = ReadResultStatus.started; evidence_id = none };
        recorded_at = 11 ∷ [];
      }
        ∷ [];
  receipts =
      after_start.receipts
      ++ record {
        workspace_id = text "w";
        agent_id = text "t";
        request_id = 50 ∷ [];
        contract_revision = text "lease-1";
        command_kind = text "read.start";
        payload_digest = text "read.start";
        response =
            Response.read
              record { read_id = text "r"; status = ReadResultStatus.started; evidence_id = none };
        recorded_at = 11 ∷ [];
      }
        ∷ [];
  audit =
      after_start.audit
      ++ record {
        event_id = 1002 ∷ [];
        workspace_id = text "w";
        task_id = text "t";
        agent_id = text "t";
        event_type = text "read.started";
        payload = AuditPayload.read_started (text "r") (text "i") (
            record {
              resource = entry_a.resource;
              observed = Observed.entry EntryState.absent;
              generation = 1;
            }
            ∷ []);
        created_at = 11 ∷ [];
      }
        ∷ [];
  uuids_drawn = 4;
}

abbrev pub after_read : Db
after_read = record after_read_start {
  evidence =
      record {
        evidence_id = 1004 ∷ [];
        workspace_id = text "w";
        task_id = text "t";
        source_kind = SourceKind.read;
        source_id = text "r";
        resource = entry_a.resource;
        observation = record {
          resource = entry_a.resource;
          observed = Observed.entry EntryState.absent;
          generation = 1;
        };
        complete = true;
        stable = true;
        exact = true;
        valid = true;
        recorded_at = 12 ∷ [];
        read_started_at = some (11 ∷ []);
      }
      ∷ [];
  intents =
      record {
        workspace_id = text "w";
        task_id = text "t";
        resource = entry_a.resource;
        evidence_id = 1004 ∷ [];
        status = IntentStatus.active;
        created_at = 12 ∷ [];
        read_started_at = 11 ∷ [];
      }
      ∷ [];
  reads =
      record {
        read_id = text "r";
        workspace_id = text "w";
        task_id = text "t";
        invocation_id = text "i";
        resources =
            record {
              resource = entry_a.resource;
              observed = Observed.entry EntryState.absent;
              generation = 1;
            }
            ∷ [];
        status = ReadStatus.completed;
        started_at = 11 ∷ [];
        completed_at = some (12 ∷ []);
      }
      ∷ [];
  events =
      after_read_start.events
      ++ record {
        event_id = 1006 ∷ [];
        workspace_id = text "w";
        task_id = text "t";
        agent_id = text "t";
        request_id = 51 ∷ [];
        command = complete_read;
        response = Response.read record {
          read_id = text "r";
          status = ReadResultStatus.completed;
          evidence_id = some (1004 ∷ []);
        };
        recorded_at = 12 ∷ [];
      }
        ∷ [];
  receipts =
      after_read_start.receipts
      ++ record {
        workspace_id = text "w";
        agent_id = text "t";
        request_id = 51 ∷ [];
        contract_revision = text "lease-1";
        command_kind = text "read.complete";
        payload_digest = text "read.complete";
        response = Response.read record {
          read_id = text "r";
          status = ReadResultStatus.completed;
          evidence_id = some (1004 ∷ []);
        };
        recorded_at = 12 ∷ [];
      }
        ∷ [];
  audit =
      after_read_start.audit
      ++ record {
        event_id = 1005 ∷ [];
        workspace_id = text "w";
        task_id = text "t";
        agent_id = text "t";
        event_type = text "read.completed";
        payload = AuditPayload.read_completed (text "r") (1004 ∷ []) (
            record {
              resource = entry_a.resource;
              observed = Observed.entry EntryState.absent;
              generation = 1;
            }
            ∷ []);
        created_at = 12 ∷ [];
      }
        ∷ [];
  uuids_drawn = 7;
}

abbrev pub after_prepare : Db
after_prepare = record after_read {
  leases =
      record {
        batch_id = 1007 ∷ [];
        workspace_id = text "w";
        task_id = text "t";
        agent_id = text "t";
        mode = LeaseMode.exclusive_write;
        state = ActiveState.active;
        version = 1;
        acquired_at = 13 ∷ [];
        expires_at = 70 ∷ [];
        release_pending = false;
      }
      ∷ [];
  lease_resources =
      record {
        batch_id = 1007 ∷ [];
        resource = entry_a.resource;
        acquired_generation = 1;
        in_flight_attempt_id = some (1008 ∷ []);
      }
      ∷ [];
  writes =
      record {
        attempt_id = 1008 ∷ [];
        permit_id = 1009 ∷ [];
        workspace_id = text "w";
        task_id = text "t";
        invocation_id = text "j";
        batch_id = 1007 ∷ [];
        operation = MutationOperation.create (text "a");
        start_observations =
            record {
              resource = entry_a.resource;
              observed = Observed.entry EntryState.absent;
              generation = 1;
            }
            ∷ [];
        status = WriteStatus.executing;
        started_at = 13 ∷ [];
        deadline = 60 ∷ [];
        completed_at = none;
        terminal_result = none;
      }
      ∷ [];
  events =
      after_read.events
      ++ record {
        event_id = 1011 ∷ [];
        workspace_id = text "w";
        task_id = text "t";
        agent_id = text "t";
        request_id = 52 ∷ [];
        command = prepare_create;
        response =
            Response.prepare (WritePrepareResult.ready (1008 ∷ []) (1009 ∷ []) ((1007 ∷ []) ∷ []));
        recorded_at = 13 ∷ [];
      }
        ∷ [];
  receipts =
      after_read.receipts
      ++ record {
        workspace_id = text "w";
        agent_id = text "t";
        request_id = 52 ∷ [];
        contract_revision = text "lease-1";
        command_kind = text "write.prepare";
        payload_digest = text "write.prepare";
        response =
            Response.prepare (WritePrepareResult.ready (1008 ∷ []) (1009 ∷ []) ((1007 ∷ []) ∷ []));
        recorded_at = 13 ∷ [];
      }
        ∷ [];
  audit =
      after_read.audit
      ++ record {
        event_id = 1010 ∷ [];
        workspace_id = text "w";
        task_id = text "t";
        agent_id = text "t";
        event_type = text "write.prepared";
        payload = AuditPayload.write_prepared (1007 ∷ []) 1 (1008 ∷ []) (entry_a.resource ∷ []);
        created_at = 13 ∷ [];
      }
        ∷ [];
  uuids_drawn = 12;
}
