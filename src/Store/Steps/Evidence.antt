-- ===== src/Store/Steps/Evidence.antt =====
-- Audit, evidence and observations step in every quiet relation.
use stateful_core.Base.{
  ℕ, Text, Option, none, some, List, [], ◌∷◌, Bool, true, false, if◌then◌else◌,
}
use stateful_core.Coordination.{ResourceKey, ResourceObservation}
use stateful_core.Store.Models.{CommandContext}
use stateful_core.Store.Tables.{Db, EvidenceRow, AuditPayload, ResourceRow}
use stateful_core.Store.Tx.{Env, new_uuid}
use stateful_core.Store.Evidence.{
  revoke_row, revoke_rows, revoke_overlapping, revoke_all, insert_evidence,
  insert_own_write_evidence,
}
use stateful_core.Store.Observations.{
  advance_resource, add_resource, add_alias, sync_observations, canonicalize_observations,
  current_observations, sync_row, sync_observation, sync_all, check_all, current_all,
}
use stateful_core.Store.Audit.{append_audit}
use stateful_core.Store.Steps.{
  Steps, step_rules, Steps-modify, Steps-pure, Steps-bind, Steps-gets, Steps-lift,
}
use stateful_core.Store.Steps.Quiet.{Quiet}

module _ {R : Db → Db → Type 0} (q : Quiet R) where
  pub new_uuid-Steps : (env : Env) → Steps R (new_uuid env)
  unfolding new_uuid
  new_uuid-Steps env = search (step_rules, q.preorder, Steps-modify, q.set_uuids_drawn) depth 30

  pub append_audit-Steps :
      (env : Env) (ctx : CommandContext) (event_type : Text) (payload : AuditPayload)
      → Steps R (append_audit env ctx event_type payload)
  unfolding append_audit
  append_audit-Steps env ctx event_type payload =
      search (step_rules, q.preorder, new_uuid-Steps, Steps-modify, q.set_audit) depth 30

  revoke_row-R : (db : Db) (e : EvidenceRow) → R db (revoke_row db e)
  unfolding revoke_row
  revoke_row-R db e = q.preorder.transitive _ _ _ (q.set_intents _ db) (q.set_evidence _ _)

  revoke_rows-R : (es : List EvidenceRow) (db : Db) → R db (revoke_rows es db)
  unfolding revoke_rows
  revoke_rows-R [] db = q.preorder.reflexive db
  revoke_rows-R (e ∷ es) db =
      q.preorder.transitive _ _ _ (revoke_row-R db e) (revoke_rows-R es (revoke_row db e))

  pub revoke_overlapping-R :
      (ctx : CommandContext) (r : ResourceKey) (exclude : Option Text) (db : Db)
      → R db (revoke_overlapping ctx r exclude db)
  unfolding revoke_overlapping
  revoke_overlapping-R ctx r exclude db = revoke_rows-R _ db

  pub revoke_all-R :
      (ctx : CommandContext) (rs : List ResourceKey) (exclude : Option Text) (db : Db)
      → R db (revoke_all ctx rs exclude db)
  unfolding revoke_all
  revoke_all-R ctx [] exclude db = q.preorder.reflexive db
  revoke_all-R ctx (r ∷ rs) exclude db =
      q.preorder.transitive _ _ _ (revoke_overlapping-R ctx r exclude db)
        (revoke_all-R ctx rs exclude (revoke_overlapping ctx r exclude db))

  pub insert_evidence-Steps :
      (ctx : CommandContext) (evidence_id read_id started : Text) (o : ResourceObservation)
      → Steps R (insert_evidence ctx evidence_id read_id started o)
  unfolding insert_evidence
  insert_evidence-Steps ctx evidence_id read_id started o =
      search (step_rules, q.preorder, Steps-modify, q.set_evidence, q.set_intents) depth 30

  pub insert_own_write_evidence-Steps :
      (env : Env) (ctx : CommandContext) (attempt_id : Text) (os : List ResourceObservation)
      → Steps R (insert_own_write_evidence env ctx attempt_id os)
  unfolding insert_own_write_evidence
  insert_own_write_evidence-Steps env ctx attempt_id os =
      search (step_rules, q.preorder, Steps-modify, new_uuid-Steps, q.set_evidence) depth 30

  advance_resource-R :
      (ctx : CommandContext) (o : ResourceObservation) (g : ℕ) (db : Db)
      → R db (advance_resource ctx o g db)
  unfolding advance_resource
  advance_resource-R ctx o g db =
      q.preorder.transitive _ _ _ (revoke_overlapping-R ctx o.resource none db)
        (q.set_resources _ _)

  add_resource-R :
      (ctx : CommandContext) (o : ResourceObservation) (db : Db) → R db (add_resource ctx o db)
  unfolding add_resource
  add_resource-R ctx o db =
      q.preorder.transitive _ _ _ (revoke_overlapping-R ctx o.resource none db)
        (q.set_resources _ _)

  pub if-R : (b : Bool) (db x y : Db) → R db x → R db y → R db (if b then x else y)
  if-R true db x y h k = h
  if-R false db x y h k = k

  add_alias-R : (r : ResourceKey) (db : Db) → R db (add_alias r db)
  unfolding add_alias
  add_alias-R r db = if-R _ db db _ (q.preorder.reflexive db) (q.set_aliases _ db)

  sync_row-Steps :
      (ctx : CommandContext) (o : ResourceObservation) (row : Option ResourceRow)
      → Steps R (sync_row ctx o row)
  unfolding sync_row
  sync_row-Steps ctx o none = search (step_rules, q.preorder, Steps-modify, add_resource-R) depth 30
  sync_row-Steps ctx o (some row) =
      search (step_rules, q.preorder, Steps-modify, advance_resource-R) depth 30

  sync_observation-Steps :
      (ctx : CommandContext) (seen : List ResourceKey) (o : ResourceObservation)
      → Steps R (sync_observation ctx seen o)
  unfolding sync_observation
  sync_observation-Steps ctx seen o =
      search (step_rules, q.preorder, Steps-modify, sync_row-Steps, add_alias-R) depth 30

  sync_all-Steps :
      (ctx : CommandContext) (seen : List ResourceKey) (os : List ResourceObservation)
      → Steps R (sync_all ctx seen os)
  unfolding sync_all
  sync_all-Steps ctx seen [] = search (step_rules, q.preorder) depth 30
  sync_all-Steps ctx seen (o ∷ os) =
      let rest = λ (s : List ResourceKey). sync_all-Steps ctx s os in
      search (step_rules, q.preorder, sync_observation-Steps, rest) depth 30

  pub sync_observations-Steps :
      (ctx : CommandContext) (os : List ResourceObservation) → Steps R (sync_observations ctx os)
  unfolding sync_observations
  sync_observations-Steps ctx os = sync_all-Steps ctx [] _

  check_all-Steps :
      (ctx : CommandContext) (seen : List ResourceKey) (os : List ResourceObservation)
      → Steps R (check_all ctx seen os)
  unfolding check_all
  check_all-Steps ctx seen [] = search (step_rules, q.preorder) depth 30
  check_all-Steps ctx seen (o ∷ os) =
      let rest = λ (s : List ResourceKey). check_all-Steps ctx s os in
      search (step_rules, q.preorder, rest) depth 30

  pub canonicalize_observations-Steps :
      (ctx : CommandContext) (os : List ResourceObservation)
      → Steps R (canonicalize_observations ctx os)
  unfolding canonicalize_observations
  canonicalize_observations-Steps ctx os = search (step_rules, q.preorder, check_all-Steps) depth 30

  current_all-Steps : (rs : List ResourceKey) → Steps R (current_all rs)
  unfolding current_all
  current_all-Steps [] = search (step_rules, q.preorder) depth 30
  current_all-Steps (r ∷ rs) = Steps-bind q.preorder _ _ (Steps-gets q.preorder _) (λ found.
      Steps-bind q.preorder _ _ (Steps-lift q.preorder found)
        (λ o. Steps-bind q.preorder _ _ (current_all-Steps rs) (λ rest. Steps-pure q.preorder _)))

  pub current_observations-Steps : (rs : List ResourceKey) → Steps R (current_observations rs)
  unfolding current_observations
  current_observations-Steps rs = search (step_rules, q.preorder, current_all-Steps) depth 30
