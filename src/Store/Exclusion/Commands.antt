-- ===== src/Store/Exclusion/Commands.antt =====
-- Every command keeps the leases of different tasks apart.
use stateful_core.Base.{
  Text, Bool, true, false, not, ◌||◌, Option, none, some, List, [], ◌∷◌, ◌≡◌, refl, sym, subst,
  arith, is_empty, if◌then◌else◌, Bool-cases, inl, inr, ap, ◌∙◌, ◌==◌,
}
use stateful_core.Coordination.{ResourceKey, ResourceObservation}
use stateful_core.Store.Models.{
  CommandContext, WritePrepareInput, WritePrepareResult, LeaseActivateInput, LeaseActivateResult,
  Command,
}
use stateful_core.Store.Tables.{Db, RequestRow}
use stateful_core.Store.Observations.{resources_of}
use stateful_core.Store.Evidence.{is_some}
use stateful_core.Store.Leases.{conflicting_owners, is_offered}
use stateful_core.Store.Queue.{lease_request_row, request_resources}
use stateful_core.Store.Steps.Runs.{bind-Ran, pure-ok}
use stateful_core.Store.Prepare.{
  Demand, read_demand, decide_write, write_prepare, blocked_write, free_write,
}
use stateful_core.Store.Activate.{
  activation, activate_against, activate_if_clear, activate_resources, try_activation,
  lease_activate, activate_request, activate_row, is_offer,
}
use stateful_core.Store.Accepted.{respond, operation}
use stateful_core.Store.Tx.{Env, StoreError, ok, ◌>>=◌, continue_with, gets, pure, or_fail}
use stateful_core.Store.Exclusion.{Exclusive}
use stateful_core.Store.Exclusion.Growth.{AtHome, Ready}
use stateful_core.Store.Exclusion.Actions.{
  KeepsExclusive, KeepsReady, exclusive_quiet, ready_quiet, view_batch, ensure_active_lease-Ready,
  insert_active_lease-Steps_ready, enqueue_request-Exclusive,
}
use stateful_core.Store.Exclusion.Conflicts.{no_conflict-Clear}
use stateful_core.Store.Exclusion.Demands.{
  canonicalize-AtHome, demand-AtHome, demand-Ready, request-AtHome,
}
use stateful_core.Store.Steps.{
  Steps, step_rules, Steps-bind, Steps-bind_on, Steps-gets_on, Steps-fail_if, Steps-lift,
}
use stateful_core.Store.Steps.Quiet.{Quiet}
use stateful_core.Store.Steps.Queue.{
  validate_future_window-Steps, task_coordination_settings-Steps, require_task_owner-Steps,
}
use stateful_core.Store.Steps.Evidence.{canonicalize_observations-Steps, current_observations-Steps}
use stateful_core.Store.Steps.Commands.{
  task_start-Steps, task_heartbeat-Steps, end_task-Steps, read_start-Steps, read_complete-Steps,
  lease_release-Steps,
}
use stateful_core.Store.Steps.Complete.{write_complete-Steps}
use stateful_core.Store.Steps.Grows.{
  blocked_write-Steps, free_write-Steps, commit_activation-Steps, check_prepare_times-Steps,
  or_invalid_input-Steps,
}

q : Quiet KeepsExclusive
q = exclusive_quiet

-- The write goes ahead or not.
decided :
    (env : Env) (ctx : CommandContext) (i : WritePrepareInput) (d : Demand) (stop : Bool) (db : Db)
    (r : WritePrepareResult) (db' : Db)
    → (if stop then blocked_write env ctx i d else free_write env ctx i d) db ≡ ok (r, db')
    → AtHome ctx d.union
    → (stop ≡ false → Ready ctx d.union (view_batch d.active) db)
    → Exclusive db
    → Exclusive db'
decided env ctx i d true db r db' h home ready exclusive =
    (blocked_write-Steps q env ctx i d (enqueue_request-Exclusive ctx d.union home env)).at db r db'
      h exclusive
decided env ctx i d false db r db' h home ready exclusive =
    ((free_write-Steps (ready_quiet ctx d.union (view_batch d.active)) env ctx i d
        (ensure_active_lease-Ready ctx d.union home env d.active)).at
      db r db' h (ready refl)).exclusive

no_conflicts : (a b c : Bool) → (a || b || not c) ≡ false → c ≡ true
no_conflicts a b c h = ground arith

decide_write-Exclusive :
    (env : Env) (ctx : CommandContext) (i : WritePrepareInput) (os : List ResourceObservation)
    → AtHome ctx (resources_of os)
    → Steps KeepsExclusive (decide_write env ctx i os)
unfolding decide_write
decide_write-Exclusive env ctx i os home =
    Steps-gets_on q.preorder (read_demand ctx os) _ (λ db r db' h exclusive.
      decided env ctx i (read_demand ctx os db).0 _ db r db' h
        (demand-AtHome ctx db os exclusive home)
        (λ go.
          demand-Ready ctx db os exclusive home (
            no_conflicts (is_some (read_demand ctx os db).0.pending) (read_demand ctx os db).1 _
              go))
        exclusive)

write_prepare-Exclusive :
    (env : Env) (ctx : CommandContext) (i : WritePrepareInput)
    → Steps KeepsExclusive (write_prepare env ctx i)
unfolding write_prepare
write_prepare-Exclusive env ctx i =
    Steps-bind q.preorder _ _ (require_task_owner-Steps q ctx true) (λ _.
      Steps-bind q.preorder _ _ (check_prepare_times-Steps q env ctx i) (λ _.
        Steps-bind_on q.preorder (λ os. AtHome ctx (resources_of os)) _ _
          (canonicalize_observations-Steps q ctx i.current)
          (λ db os db' h. canonicalize-AtHome ctx i.current db os db' h)
          (λ os home. Steps-bind q.preorder _ _ (Steps-fail_if q.preorder _ _) (λ _.
            Steps-bind q.preorder _ _ (or_invalid_input-Steps q _)
              (λ _. decide_write-Exclusive env ctx i os home)))))

activate_against-Exclusive :
    (env : Env) (ctx : CommandContext) (i : LeaseActivateInput) (r : RequestRow)
    (rs : List ResourceKey) (evidence : Bool) (conflicts : List Text)
    → AtHome ctx rs
    → Steps (KeepsReady ctx rs none) (activate_against env ctx i r rs evidence conflicts)
unfolding activate_against
activate_against-Exclusive env ctx i r rs evidence conflicts home =
    let quiet = ready_quiet ctx rs none in
    let commit = λ (x : RequestRow).
      commit_activation-Steps quiet env ctx i rs
        (insert_active_lease-Steps_ready ctx rs home i.batch_id) x in
    search (step_rules, quiet.preorder, commit) depth 30

-- With a conflict the activation is declined.
activate_against-declined :
    (env : Env) (ctx : CommandContext) (i : LeaseActivateInput) (r : RequestRow)
    (rs : List ResourceKey) (evidence : Bool) (conflicts : List Text) (db : Db)
    (a : LeaseActivateResult) (db' : Db)
    → is_empty conflicts ≡ false
    → activate_against env ctx i r rs evidence conflicts db ≡ ok (a, db')
    → db ≡ db'
unfolding activate_against ◌>>=◌ continue_with
activate_against-declined env ctx i r rs evidence conflicts db a db' c h = ground arith

empty_list : {A : Type 0} (xs : List A) → is_empty xs ≡ true → xs ≡ []
empty_list [] h = refl
empty_list (x ∷ xs) h = cc

activate_if_clear-Exclusive :
    (env : Env) (ctx : CommandContext) (i : LeaseActivateInput) (r : RequestRow)
    (rs : List ResourceKey) (evidence : Bool)
    → AtHome ctx rs
    → Steps KeepsExclusive (activate_if_clear env ctx i r rs evidence)
unfolding activate_if_clear
activate_if_clear-Exclusive env ctx i r rs evidence home =
    let owners = conflicting_owners ctx.workspace_id ctx.task_id rs (some i.batch_id) in
    Steps-gets_on q.preorder owners _ (λ db a db' h exclusive.
      elim (Bool-cases (is_empty (owners db))) [
        | inl free ↦
            let ready : Ready ctx rs none db = record {
              exclusive = exclusive;
              clear =
                  no_conflict-Clear ctx rs home db (some i.batch_id) exclusive
                    (empty_list (owners db) free);
              mine = tt;
            } in
            ((activate_against-Exclusive env ctx i r rs evidence (owners db) home).at db a db' h
              ready).exclusive
        | inr taken ↦
            subst Exclusive
              (activate_against-declined env ctx i r rs evidence (owners db) db a db' taken h)
              exclusive
      ])

activate_resources-Exclusive :
    (env : Env) (ctx : CommandContext) (i : LeaseActivateInput) (r : RequestRow) (at : Text)
    (rs : List ResourceKey)
    → AtHome ctx rs
    → Steps KeepsExclusive (activate_resources env ctx i r at rs)
unfolding activate_resources
activate_resources-Exclusive env ctx i r at rs home =
    let go = λ (evidence : Bool). activate_if_clear-Exclusive env ctx i r rs evidence home in
    search (step_rules, q.preorder, current_observations-Steps q, go) depth 30

module _ {A : Type 0} where
  or_fail-ok :
      (e : StoreError) (o : Option A) (db : Db) (a : A) (db' : Db)
      → or_fail e o db ≡ ok (a, db')
      → (o ≡ some a) × (db ≡ db')
  unfolding ◌>>=◌
  or_fail-ok e o db a db' h = ground arith

  gets-ok :
      (g : Db → A) (db : Db) (a : A) (db' : Db) → gets g db ≡ ok (a, db') → (g db ≡ a) × (db ≡ db')
  unfolding ◌>>=◌
  gets-ok g db a db' h = ground arith

try_activation-Exclusive :
    (env : Env) (ctx : CommandContext) (i : LeaseActivateInput) (r : RequestRow) (db : Db)
    (a : LeaseActivateResult) (db' : Db)
    → lease_request_row ctx i.batch_id db ≡ some r
    → try_activation env ctx i r db ≡ ok (a, db')
    → Exclusive db
    → Exclusive db'
unfolding try_activation
try_activation-Exclusive env ctx i r db a db' row h exclusive =
    let offered = bind-Ran _ _ db a db' h in
    let (_, here) = or_fail-ok _ _ db offered.value offered.between offered.first in
    let wanted = bind-Ran _ _ offered.between a db' offered.rest in
    let (rs, there) = gets-ok _ offered.between wanted.value wanted.between wanted.first in
    let home =
      subst (AtHome ctx) (ap (request_resources i.batch_id) here ∙ rs)
        (request-AtHome ctx db i.batch_id r row exclusive) in
    (activate_resources-Exclusive env ctx i r offered.value wanted.value home).at wanted.between a
      db' wanted.rest (subst Exclusive (here ∙ there) exclusive)

activate_request-Exclusive :
    (env : Env) (ctx : CommandContext) (i : LeaseActivateInput) (r : RequestRow) (db : Db)
    (a : LeaseActivateResult) (db' : Db)
    → lease_request_row ctx i.batch_id db ≡ some r
    → activate_request env ctx i r db ≡ ok (a, db')
    → Exclusive db
    → Exclusive db'
unfolding activate_request
activate_request-Exclusive env ctx i r db a db' row h exclusive =
    elim (Bool-cases (
      not (is_offered r.state)
      || not (is_offer r.offer_id i.offer_id)
      || not (r.version == i.version))) [
        | inl stale ↦
            let (_, here) = pure-ok (activation i false) a db db' (
              ap (λ b. (if b then pure (activation i false) else try_activation env ctx i r) db)
                (sym stale)
              ∙ h) in
            subst Exclusive here exclusive
        | inr good ↦
            try_activation-Exclusive env ctx i r db a db' row
              (ap (λ b. (if b then pure (activation i false) else try_activation env ctx i r) db)
                  (sym good)
                ∙ h)
              exclusive
      ]

-- The request of the activation, and what follows.
activate_row-Exclusive :
    (env : Env) (ctx : CommandContext) (i : LeaseActivateInput) (row : Option RequestRow) (db : Db)
    (a : LeaseActivateResult) (db' : Db)
    → lease_request_row ctx i.batch_id db ≡ row
    → activate_row env ctx i row db ≡ ok (a, db')
    → Exclusive db
    → Exclusive db'
unfolding activate_row
activate_row-Exclusive env ctx i row db a db' found h exclusive =
    let request = bind-Ran _ _ db a db' h in
    let (is_row, here) = or_fail-ok _ row db request.value request.between request.first in
    activate_request-Exclusive env ctx i request.value request.between a db'
      (ap (lease_request_row ctx i.batch_id) (sym here) ∙ found ∙ is_row) request.rest
      (subst Exclusive here exclusive)

lease_activate-Exclusive :
    (env : Env) (ctx : CommandContext) (i : LeaseActivateInput)
    → Steps KeepsExclusive (lease_activate env ctx i)
unfolding lease_activate
lease_activate-Exclusive env ctx i =
    Steps-bind q.preorder _ _ (require_task_owner-Steps q ctx true) (λ _.
      Steps-bind q.preorder _ _ (task_coordination_settings-Steps q ctx) (λ settings.
        Steps-bind q.preorder _ _ (Steps-lift q.preorder _) (λ limit.
          Steps-bind q.preorder _ _ (validate_future_window-Steps q env _ _ limit _) (λ _.
            Steps-gets_on q.preorder _ _
              (λ db a db' h. activate_row-Exclusive env ctx i _ db a db' refl h)))))

pub operation-Exclusive :
    (env : Env) (ctx : CommandContext) (c : Command) → Steps KeepsExclusive (operation env ctx c)
unfolding operation respond
operation-Exclusive env ctx (Command.task_start i) =
    search (step_rules, q.preorder, task_start-Steps q) depth 30
operation-Exclusive env ctx (Command.task_heartbeat i) =
    search (step_rules, q.preorder, task_heartbeat-Steps q) depth 30
operation-Exclusive env ctx (Command.task_finalize i) =
    search (step_rules, q.preorder, end_task-Steps q) depth 30
operation-Exclusive env ctx (Command.task_cancel i) =
    search (step_rules, q.preorder, end_task-Steps q) depth 30
operation-Exclusive env ctx (Command.read_start i) =
    search (step_rules, q.preorder, read_start-Steps q) depth 30
operation-Exclusive env ctx (Command.read_complete i) =
    search (step_rules, q.preorder, read_complete-Steps q) depth 30
operation-Exclusive env ctx (Command.write_prepare i) =
    search (step_rules, q.preorder, write_prepare-Exclusive) depth 30
operation-Exclusive env ctx (Command.lease_activate i) =
    search (step_rules, q.preorder, lease_activate-Exclusive) depth 30
operation-Exclusive env ctx (Command.lease_release i) =
    search (step_rules, q.preorder, lease_release-Steps q) depth 30
operation-Exclusive env ctx (Command.write_complete i) =
    search (step_rules, q.preorder, write_complete-Steps q) depth 30
