-- ===== src/Store/Steps/Quiet.antt =====
-- The primitive writes of the store's actions, as the leaves of a relation between databases.
use stateful_core.Base.{ℕ, Text, Bool, Option, List, ◌≡◌, update_where}
use stateful_core.Store.Tables.{
  Db, TaskRow, ProcessRow, ResourceRow, AliasRow, EvidenceRow, IntentRow, LeaseRow,
  LeaseResourceRow, RequestRow, ReadRow, WriteRow, AuditRow,
}
use stateful_core.Store.Leases.{delete_leases, drain_leases, set_lease_terms}
use stateful_core.Store.Queue.{update_requests}
use stateful_core.Store.Steps.{Preorder}

-- A request keeps its batch and its owner.
pub record KeepsOwner (f : RequestRow → RequestRow) : Type 0 where
  pub batch_id : (q : RequestRow) → (f q).batch_id ≡ q.batch_id
  pub workspace_id : (q : RequestRow) → (f q).workspace_id ≡ q.workspace_id
  pub task_id : (q : RequestRow) → (f q).task_id ≡ q.task_id

-- The relation holds over each write that takes no lease and makes no request. Tables that the
-- relation does not speak of may be set to anything.
pub record Quiet (R : Db → Db → Type 0) : Type 0 where
  pub preorder : Preorder R
  pub set_tasks : (v : List TaskRow) (db : Db) → R db (record db { tasks = v })
  pub set_processes : (v : List ProcessRow) (db : Db) → R db (record db { processes = v })
  pub set_resources : (v : List ResourceRow) (db : Db) → R db (record db { resources = v })
  pub set_aliases : (v : List AliasRow) (db : Db) → R db (record db { aliases = v })
  pub set_evidence : (v : List EvidenceRow) (db : Db) → R db (record db { evidence = v })
  pub set_intents : (v : List IntentRow) (db : Db) → R db (record db { intents = v })
  pub set_reads : (v : List ReadRow) (db : Db) → R db (record db { reads = v })
  pub set_writes : (v : List WriteRow) (db : Db) → R db (record db { writes = v })
  pub set_audit : (v : List AuditRow) (db : Db) → R db (record db { audit = v })
  pub set_lease_queue : (v : ℕ) (db : Db) → R db (record db { lease_queue = v })
  pub set_uuids_drawn : (v : ℕ) (db : Db) → R db (record db { uuids_drawn = v })
  pub set_slots :
      (p : LeaseResourceRow → Bool) (v : Option Text) (db : Db)
      → R db (record db {
        lease_resources =
            update_where p (λ r. record r { in_flight_attempt_id = v }) db.lease_resources;
      })
  pub delete : (p : LeaseRow → Bool) (db : Db) → R db (delete_leases p db)
  pub drain : (p : LeaseRow → Bool) (db : Db) → R db (drain_leases p db)
  pub set_terms :
      (batch_id : Text) (version : ℕ) (expires_at : Text) (db : Db)
      → R db (set_lease_terms batch_id version expires_at db)
  pub update :
      (p : RequestRow → Bool) (f : RequestRow → RequestRow)
      → KeepsOwner f
      → (db : Db) → R db (update_requests p f db)
