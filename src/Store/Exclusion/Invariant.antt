-- ===== src/Store/Exclusion/Invariant.antt =====
-- The states that the store can reach, and that two tasks never hold overlapping resources in them.
use stateful_core.Base.{Text, true, Option, none, some, ◌≡◌, refl, Mem, sym, ◌∙◌}
use stateful_core.Resource.{resource_keys_overlap}
use stateful_core.Store.Models.{CommandContext, Command, Response}
use stateful_core.Store.Tables.{Db, empty_db, LeaseRow, LeaseResourceRow, ReceiptRow}
use stateful_core.Store.Accepted.{
  accepted_command, replay_or_run, run_command, record_command, journal,
}
use stateful_core.Store.Maintain.{maintain, close_reads, drain_overdue, prune_audit}
use stateful_core.Store.Tx.{Env, Done, ok}
use stateful_core.Store.Exclusion.{Leased, Covers, Asked, Wants, Exclusive, Shrinks-Exclusive}
use stateful_core.Store.Exclusion.Actions.{KeepsExclusive, exclusive_quiet}
use stateful_core.Store.Exclusion.Quiet.{unchanged}
use stateful_core.Store.Exclusion.Commands.{operation-Exclusive}
use stateful_core.Store.Exclusion.Conflicts.{overlap-workspace}
use stateful_core.Store.Steps.{Steps, step_rules, Steps-modify}
use stateful_core.Store.Steps.Quiet.{Quiet}
use stateful_core.Store.Steps.Evidence.{new_uuid-Steps}
use stateful_core.Store.Steps.Queue.{
  validate_timestamp-Steps, validate_context-Steps, expire_offers-R, expire_tasks_and_leases-R,
  promote_waiters-Steps,
}

-- The empty store, after any accepted commands and maintenance. What fails is rolled back.
pub data Reached (env : Env) : Db → Type 0 where
  start : Reached env empty_db
  command :
      (ctx : CommandContext) (c : Command) (r : Response) (db db' : Db)
      → Reached env db
      → accepted_command env ctx c db ≡ ok (r, db')
      → Reached env db'
  maintained :
      (now : Text) (u : Done) (db db' : Db)
      → Reached env db
      → maintain env now db ≡ ok (u, db')
      → Reached env db'

q : Quiet KeepsExclusive
q = exclusive_quiet

empty-Exclusive : Exclusive empty_db
unfolding Leased Covers Asked Wants
empty-Exclusive = record {
  one_owner = λ b w t w' t' (l, m, hb, hw, ht) l'. elim m [ ];
  at_home = λ b w t k (l, m, hb, hw, ht) c. elim m [ ];
  owned = λ b k (r, m, hb, hk). elim m [ ];
  apart = λ b w t k b' w' t' k' (l, m, hb, hw, ht) c l' c' o. elim m [ ];
  asked_at_home = λ b w t k (l, m, hb, hw, ht) r. elim m [ ];
  asked_owned = λ b k (r, m, hb, hk). elim m [ ];
}

journal-R :
    (env : Env) (ctx : CommandContext) (c : Command) (r : Response) (event_id : Text) (db : Db)
    → KeepsExclusive db (journal env ctx c r event_id db)
unfolding journal
journal-R env ctx c r event_id db =
    Shrinks-Exclusive db (journal env ctx c r event_id db) (unchanged db _ refl refl refl refl)

record_command-Exclusive :
    (env : Env) (ctx : CommandContext) (c : Command) (r : Response)
    → Steps KeepsExclusive (record_command env ctx c r)
unfolding record_command
record_command-Exclusive env ctx c r =
    search (step_rules, q.preorder, Steps-modify, new_uuid-Steps q, journal-R) depth 30

run_command-Exclusive :
    (env : Env) (ctx : CommandContext) (c : Command) → Steps KeepsExclusive (run_command env ctx c)
unfolding run_command
run_command-Exclusive env ctx c =
    search
      (
        step_rules,
        q.preorder,
        Steps-modify,
        expire_tasks_and_leases-R q,
        promote_waiters-Steps q,
        operation-Exclusive,
        record_command-Exclusive,
      )
      depth 30

replay_or_run-Exclusive :
    (env : Env) (ctx : CommandContext) (c : Command) (o : Option ReceiptRow)
    → Steps KeepsExclusive (replay_or_run env ctx c o)
unfolding replay_or_run
replay_or_run-Exclusive env ctx c none = run_command-Exclusive env ctx c
replay_or_run-Exclusive env ctx c (some r) = search (step_rules, q.preorder) depth 30

accepted_command-Exclusive :
    (env : Env) (ctx : CommandContext) (c : Command)
    → Steps KeepsExclusive (accepted_command env ctx c)
unfolding accepted_command
accepted_command-Exclusive env ctx c =
    search (step_rules, q.preorder, validate_context-Steps q, replay_or_run-Exclusive) depth 30

close_reads-R : (now : Text) (db : Db) → KeepsExclusive db (close_reads now db)
unfolding close_reads
close_reads-R now db = Shrinks-Exclusive db _ (unchanged db _ refl refl refl refl)

drain_overdue-R : (now : Text) (db : Db) → KeepsExclusive db (drain_overdue now db)
unfolding drain_overdue
drain_overdue-R now db = q.drain _ db

prune_audit-R : (cutoff : Text) (db : Db) → KeepsExclusive db (prune_audit cutoff db)
unfolding prune_audit
prune_audit-R cutoff db = q.set_audit _ db

maintain-Exclusive : (env : Env) (now : Text) → Steps KeepsExclusive (maintain env now)
unfolding maintain
maintain-Exclusive env now =
    search
      (
        step_rules,
        q.preorder,
        Steps-modify,
        validate_timestamp-Steps q,
        expire_offers-R q,
        expire_tasks_and_leases-R q,
        close_reads-R,
        drain_overdue-R,
        prune_audit-R,
        promote_waiters-Steps q,
      )
      depth 30

-- In every state that the store reaches, each batch has one owner, leases and requests name
-- resources of their own workspace, no row is orphaned, and no two tasks hold overlapping leases.
pub Reached-Exclusive : (env : Env) (db : Db) → Reached env db → Exclusive db
Reached-Exclusive env _ start = empty-Exclusive
Reached-Exclusive env _ (command ctx c r db db' before h) =
    (accepted_command-Exclusive env ctx c).at db r db' h (Reached-Exclusive env db before)
Reached-Exclusive env _ (maintained now u db db' before h) =
    (maintain-Exclusive env now).at db u db' h (Reached-Exclusive env db before)

-- In every state that the store reaches, when two leases cover overlapping resources (the same
-- identity, the same path, or a directory and what it contains), they are the same task's.
pub overlap-one_task :
    (env : Env) (db : Db) (l l' : LeaseRow) (r r' : LeaseResourceRow)
    → Reached env db
    → Mem l db.leases
    → Mem l' db.leases
    → Mem r db.lease_resources
    → Mem r' db.lease_resources
    → r.batch_id ≡ l.batch_id
    → r'.batch_id ≡ l'.batch_id
    → resource_keys_overlap r.resource r'.resource ≡ true
    → (l.workspace_id ≡ l'.workspace_id) × (l.task_id ≡ l'.task_id)
unfolding Leased Covers
overlap-one_task env db l l' r r' reached ml ml' mr mr' hb hb' o =
    let e = Reached-Exclusive env db reached in
    (
      sym (
            e.at_home l.batch_id l.workspace_id l.task_id r.resource (l, ml, refl, refl, refl)
              (r, mr, hb, refl))
          ∙ overlap-workspace r.resource r'.resource o
          ∙ e.at_home l'.batch_id l'.workspace_id l'.task_id r'.resource (l', ml', refl, refl, refl)
              (r', mr', hb', refl),
      e.apart l.batch_id l.workspace_id l.task_id r.resource l'.batch_id l'.workspace_id l'.task_id
          r'.resource (l, ml, refl, refl, refl) (r, mr, hb, refl) (l', ml', refl, refl, refl)
          (r', mr', hb', refl) o,
    )
