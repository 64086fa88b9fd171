-- ===== src/Store/Activate/Offer.antt =====
-- What an activation of a lease says of the offer.
use stateful_core.Base.{
  ℕ, Text, Bool, true, false, not, ◌||◌, Option, none, some, List, [], ◌∷◌, ◌≡◌, refl, ap, ◌∙◌,
  arith, ◌==◌, is_empty, if◌then◌else◌,
}
use stateful_core.Coordination.{
  ResourceKey, ResourceObservation, CoordinationSettings, validate_settings,
}
use stateful_core.Store.Models.{CommandContext, LeaseActivateInput, LeaseActivateResult}
use stateful_core.Store.Tables.{Db, RequestRow}
use stateful_core.Store.Context.{
  require_task_owner, task_coordination_settings, check_settings, settings_message,
}
use stateful_core.Store.Time.{validate_future_window}
use stateful_core.Store.Observations.{current_observations, current_all}
use stateful_core.Store.Evidence.{has_current_evidence, is_some}
use stateful_core.Store.Leases.{
  agent_slot_occupied, active_task_lease, conflicting_owners, is_offered,
}
use stateful_core.Store.Queue.{lease_request_row, request_resources}
use stateful_core.Store.Tx.{
  Env, StoreError, Result, corrupt, ok, err, Tx, ◌>>=◌, pure, lift, or_fail,
}
use stateful_core.Store.Activate.{
  is_offer, activate_against, activate_if_clear, activate_resources, try_activation,
  activate_request, activate_row, lease_activate, activation,
}
use stateful_core.Store.Steps.Reading.{
  IsReading, pure-IsReading, gets-IsReading, lift-IsReading, or_fail-IsReading, fail_if-IsReading,
  after-IsReading, after-gets, ◌reads◌,
}

current_all-IsReading : (rs : List ResourceKey) → IsReading (current_all rs)
unfolding current_all
current_all-IsReading [] = pure-IsReading []
current_all-IsReading (r ∷ rs) = gets-IsReading _ reads λ found.
    lift-IsReading found reads λ o. current_all-IsReading rs reads λ rest. pure-IsReading (o ∷ rest)

pub current_observations-IsReading : (rs : List ResourceKey) → IsReading (current_observations rs)
unfolding current_observations
current_observations-IsReading rs = current_all-IsReading rs reads λ os. pure-IsReading _

check_settings-IsReading : (wrap : _) (s : CoordinationSettings) → IsReading (check_settings wrap s)
unfolding check_settings
check_settings-IsReading wrap s =
    elim (validate_settings s)
      as (λ x.
        IsReading (elim x [ none ↦ pure tt | some e ↦ lift (err (wrap (settings_message e))) ])) [
          | none ↦ pure-IsReading tt
          | some e ↦ lift-IsReading _
        ]

pub task_coordination_settings-IsReading :
    (ctx : CommandContext) → IsReading (task_coordination_settings ctx)
unfolding task_coordination_settings
task_coordination_settings-IsReading ctx = gets-IsReading _ reads λ row.
    or_fail-IsReading _ row reads λ task.
    check_settings-IsReading corrupt task.settings reads λ _. pure-IsReading _

pub require_task_owner-IsReading :
    (ctx : CommandContext) (active : Bool) → IsReading (require_task_owner ctx active)
unfolding require_task_owner
require_task_owner-IsReading ctx active = gets-IsReading _ reads λ row.
    or_fail-IsReading _ row reads λ task.
    fail_if-IsReading _ _ reads λ _. fail_if-IsReading _ _ reads λ _. pure-IsReading _

pub validate_future_window-IsReading :
    (env : Env) (a b : Text) (n : ℕ) (field : _)
    → IsReading (validate_future_window env a b n field)
unfolding validate_future_window
validate_future_window-IsReading env a b n field =
    lift-IsReading _ reads λ t. lift-IsReading _ reads λ u. fail_if-IsReading _ _

pub or_fail-some :
    {A : Type 0} (e : StoreError) (o : Option A) (db : Db) (a : A)
    → or_fail e o db ≡ ok (a, db)
    → o ≡ some a
unfolding ◌>>=◌
or_fail-some e none db a h = cc
or_fail-some e (some b) db a h = cc

inactive : ¬ (false ≡ true)
inactive h = cc

active_of : Result (LeaseActivateResult × Db) → Bool
active_of (ok (r, _)) = r.active
active_of (err _) = false

-- The decision between declining and going on.
not_declined :
    (c : Bool) (input : LeaseActivateInput) (m : Tx LeaseActivateResult) (db : Db)
    (r : LeaseActivateResult) (db' : Db)
    → (if c then pure (activation input false) else m) db ≡ ok (r, db')
    → r.active ≡ true
    → (c ≡ false) × (m db ≡ ok (r, db'))
unfolding ◌>>=◌ active_of
not_declined true input m db r db' h a = absurd (declined h a)
  where
    declined : pure (activation input false) db ≡ ok (r, db') → r.active ≡ true → ⊥
    declined x y = inactive (ap active_of x ∙ y)
not_declined false input m db r db' h a = (refl, h)

all_false :
    (a b c d : Bool)
    → (not a || b || not c || d) ≡ false
    → (a ≡ true) × (b ≡ false) × (c ≡ true) × (d ≡ false)
all_false a b c d h = ground arith

module _ (ctx : CommandContext) (input : LeaseActivateInput) (db : Db) where
  -- What an active answer says of an offer of these resources.
  abbrev pub IsClear : Text → List ResourceObservation → Type 0
  IsClear offered_at observations =
      (current_observations (request_resources input.batch_id db) db ≡ ok (observations, db))
      × (has_current_evidence ctx observations (some offered_at) db ≡ true)
      × (agent_slot_occupied ctx none db ≡ false)
      × (is_empty (
            conflicting_owners ctx.workspace_id ctx.task_id (request_resources input.batch_id db)
              (some input.batch_id) db)
          ≡ true)
      × (is_some (active_task_lease ctx db) ≡ false)

  -- What an active answer says of the request.
  abbrev pub IsGranted : RequestRow → Type 0
  IsGranted request =
      (is_offered request.state ≡ true)
      × (is_offer request.offer_id input.offer_id ≡ true)
      × ((request.version == input.version) ≡ true)
      × ((offered_at : Text) × (request.offered_at ≡ some offered_at)
          × ((observations : List ResourceObservation) × IsClear offered_at observations))

module _ (env : Env) (ctx : CommandContext) (input : LeaseActivateInput) (db : Db)
    (r : LeaseActivateResult) (db' : Db) (active : r.active ≡ true) where
  activate_resources-IsClear :
      (request : RequestRow) (offered_at : Text)
      → activate_resources env ctx input request offered_at (request_resources input.batch_id db) db
        ≡ ok (r, db')
      → (observations : List ResourceObservation) × IsClear ctx input db offered_at observations
  unfolding activate_resources activate_if_clear activate_against
  activate_resources-IsClear request offered_at h =
      let resources = request_resources input.batch_id db in
      let (observations, read, k) =
        after-IsReading _ (current_observations-IsReading resources) db r db' h in
      let (e, busy, clear, held) =
        all_false (has_current_evidence ctx observations (some offered_at) db)
          (agent_slot_occupied ctx none db)
          (is_empty
            (conflicting_owners ctx.workspace_id ctx.task_id resources (some input.batch_id) db))
          (is_some (active_task_lease ctx db))
          (not_declined _ input _ db r db'
            (after-gets _ _ db r db'
              (after-gets _ _ db r db' (after-gets _ _ db r db' (after-gets _ _ db r db' k))))
            active).0 in
      (observations, (read, e, busy, clear, held))

  three_false :
      (a b c : Bool) → (not a || not b || not c) ≡ false → (a ≡ true) × (b ≡ true) × (c ≡ true)
  three_false a b c h = ground arith

  try_activation-IsClear :
      (request : RequestRow)
      → try_activation env ctx input request db ≡ ok (r, db')
      → (offered_at : Text) × (request.offered_at ≡ some offered_at)
        × ((observations : List ResourceObservation) × IsClear ctx input db offered_at observations)
  unfolding try_activation
  try_activation-IsClear request h =
      let (offered_at, e, k) =
        after-IsReading _ (or_fail-IsReading _ request.offered_at) db r db' h in
      (
        offered_at,
        or_fail-some _ request.offered_at db offered_at e,
        activate_resources-IsClear request offered_at (after-gets _ _ db r db' k),
      )

  activate_request-IsGranted :
      (request : RequestRow)
      → activate_request env ctx input request db ≡ ok (r, db')
      → IsGranted ctx input db request
  unfolding activate_request
  activate_request-IsGranted request h =
      let (c, k) = not_declined _ input (try_activation env ctx input request) db r db' h active in
      let (offered, named, version) =
        three_false (is_offered request.state) (is_offer request.offer_id input.offer_id)
          (request.version == input.version) c in
      (offered, named, version, try_activation-IsClear request k)

-- A lease is activated only on the offer that the client names, in its version, while the task has current
-- evidence of all its resources since the offer was made, the agent has no other lease, and no lease or offer of
-- another task covers any of them.
pub lease_activate-IsGranted :
    (env : Env) (ctx : CommandContext) (input : LeaseActivateInput) (db : Db)
    (r : LeaseActivateResult) (db' : Db)
    → lease_activate env ctx input db ≡ ok (r, db')
    → (active : r.active ≡ true)
    → (request : RequestRow) × (lease_request_row ctx input.batch_id db ≡ some request)
      × IsGranted ctx input db request
unfolding lease_activate activate_row
lease_activate-IsGranted env ctx input db r db' h active =
    let (current, h0, h1) = after-IsReading _ (require_task_owner-IsReading ctx true) db r db' h in
    let (settings, h2, h3) =
      after-IsReading _ (task_coordination_settings-IsReading ctx) db r db' h1 in
    let (limit, h4, h5) = after-IsReading _ (lift-IsReading _) db r db' h3 in
    let (u, h6, h7) =
      after-IsReading _ (validate_future_window-IsReading env _ _ _ _) db r db' h5 in
    let (request, h8, h9) =
      after-IsReading _ (or_fail-IsReading _ (lease_request_row ctx input.batch_id db)) db r db'
        (after-gets _ _ db r db' h7) in
    (
      request,
      or_fail-some _ (lease_request_row ctx input.batch_id db) db request h8,
      activate_request-IsGranted env ctx input db r db' active request h9,
    )
