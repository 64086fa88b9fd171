-- ===== src/Store/Prepare/Ready.antt =====
-- What a permit to write says of the task's evidence.
use stateful_core.Base.{
  ℕ, Text, Bool, true, false, not, ◌||◌, Option, none, some, List, [], ◌∷◌, is_empty, if◌then◌else◌,
  ◌==◌, ◌≡◌, refl, sym, ap, ◌∙◌, arith,
}
use stateful_core.Coordination.{ResourceKey, ResourceObservation}
use stateful_core.Resource.Error.{Checked}
use stateful_core.Store.Time.{validate_future}
use stateful_core.Resource.Observation.{observations_same_state}
use stateful_core.Store.Models.{
  CommandContext, WritePrepareInput, WritePrepareResult, ready, queued, reread_required, denied,
}
use stateful_core.Store.Tables.{Db}
use stateful_core.Store.Observations.{
  canonicalize_observations, current_observations, resources_of, check_all,
}
use stateful_core.Store.Evidence.{has_current_evidence, is_some}
use stateful_core.Store.Leases.{ActiveLeaseView}
use stateful_core.Store.Queue.{enqueue_request, promote_waiters}
use stateful_core.Store.Tx.{Env, ok, Tx, ◌>>=◌, pure}
use stateful_core.Store.Prepare.{
  Demand, read_demand, queue_up, reuse_or_queue, queue_for, blocked_write, free_write,
  check_prepare_times, decide_write, write_prepare, or_invalid_input, keys_eq,
}
use stateful_core.Store.Steps.Runs.{bind-Ran, pure-ok}
use stateful_core.Store.Steps.Reading.{
  IsReading, pure-IsReading, lift-IsReading, fail_if-IsReading, after-IsReading, after-gets,
  ◌reads◌,
}
use stateful_core.Store.Activate.Offer.{
  require_task_owner-IsReading, task_coordination_settings-IsReading,
  validate_future_window-IsReading, current_observations-IsReading,
}

abbrev pub is_ready : WritePrepareResult → Bool
is_ready (ready _ _ _) = true
is_ready (queued _) = false
is_ready (reread_required _) = false
is_ready (denied _) = false

-- No permit comes out of this.
record IsUnready (m : Tx WritePrepareResult) : Type 0 where
  refuses : (db db' : Db) (r : WritePrepareResult) → m db ≡ ok (r, db') → is_ready r ≡ false

pure-IsUnready : (r : WritePrepareResult) → is_ready r ≡ false → IsUnready (pure r)
pure-IsUnready r h = record {
  refuses = λ db db' s e. ap is_ready (sym (pure-ok r s db db' e).0) ∙ h;
}

after-IsUnready :
    {A : Type 0} (m : Tx A) {f : A → Tx WritePrepareResult}
    → ((a : A) → IsUnready (f a))
    → IsUnready (m >>= f)
after-IsUnready m {f} h = record {
  refuses = λ db db' r e.
      let ran = bind-Ran m f db r db' e in (h ran.value).refuses ran.between db' r ran.rest;
}

if-IsUnready :
    {m k : Tx WritePrepareResult} (b : Bool)
    → IsUnready m
    → IsUnready k
    → IsUnready (if b then m else k)
if-IsUnready true h h' = h
if-IsUnready false h h' = h'

queue_up-IsUnready :
    (env : Env) (ctx : CommandContext) (input : WritePrepareInput) (d : Demand)
    → IsUnready (queue_up env ctx input d)
unfolding queue_up
queue_up-IsUnready env ctx input d =
    after-IsUnready (enqueue_request env ctx d.union input.request_expires_at) (λ (b : Text × ℕ).
      after-IsUnready (promote_waiters env ctx.observed_at)
        (λ _. after-IsUnready _ (λ _. pure-IsUnready (queued b.0) refl)))

reuse_or_queue-IsUnready :
    (env : Env) (ctx : CommandContext) (input : WritePrepareInput) (d : Demand)
    (p : Option (Text × List ResourceKey))
    → IsUnready (reuse_or_queue env ctx input d p)
unfolding reuse_or_queue
reuse_or_queue-IsUnready env ctx input d none = queue_up-IsUnready env ctx input d
reuse_or_queue-IsUnready env ctx input d (some (b, resources)) =
    if-IsUnready (keys_eq resources d.union)
      (after-IsUnready _ (λ _. pure-IsUnready (queued b) refl)) (queue_up-IsUnready env ctx input d)

queue_for-IsUnready :
    (env : Env) (ctx : CommandContext) (input : WritePrepareInput) (d : Demand)
    (a : Option ActiveLeaseView)
    → IsUnready (queue_for env ctx input d a)
unfolding queue_for
queue_for-IsUnready env ctx input d none = reuse_or_queue-IsUnready env ctx input d d.pending
queue_for-IsUnready env ctx input d (some lease) =
    if-IsUnready (not (lease.in_flight_count == 0)) (pure-IsUnready (denied _) refl)
      (after-IsUnready _ (λ _. queue_up-IsUnready env ctx input d))

blocked_write-IsUnready :
    (env : Env) (ctx : CommandContext) (input : WritePrepareInput) (d : Demand)
    → IsUnready (blocked_write env ctx input d)
unfolding blocked_write
blocked_write-IsUnready env ctx input d = after-IsUnready _ (λ seen.
    if-IsUnready (not seen) (pure-IsUnready (reread_required _) refl)
      (queue_for-IsUnready env ctx input d d.active))

or_invalid_input-IsReading : {A : Type 0} (c : Checked A) → IsReading (or_invalid_input c)
unfolding or_invalid_input
or_invalid_input-IsReading (Checked.ok a) = record { same = λ db x b h. cc }
or_invalid_input-IsReading (Checked.err e) = record { same = λ db x b h. cc }

check_all-IsReading :
    (ctx : CommandContext) (seen : List ResourceKey) (os : List ResourceObservation)
    → IsReading (check_all ctx seen os)
unfolding check_all
check_all-IsReading ctx seen [] = pure-IsReading tt
check_all-IsReading ctx seen (o ∷ os) =
    lift-IsReading _ reads λ _. check_all-IsReading ctx (o.resource ∷ seen) os

canonicalize_observations-IsReading :
    (ctx : CommandContext) (os : List ResourceObservation)
    → IsReading (canonicalize_observations ctx os)
unfolding canonicalize_observations
canonicalize_observations-IsReading ctx os =
    check_all-IsReading ctx [] _ reads λ _. pure-IsReading _

check_prepare_times-IsReading :
    (env : Env) (ctx : CommandContext) (input : WritePrepareInput)
    → IsReading (check_prepare_times env ctx input)
unfolding check_prepare_times validate_future
check_prepare_times-IsReading env ctx input =
    task_coordination_settings-IsReading ctx reads λ settings. lift-IsReading _ reads λ ttl.
    validate_future_window-IsReading env _ _ _ _ reads λ _. lift-IsReading _ reads λ expiry.
    validate_future_window-IsReading env _ _ _ _ reads λ _.
    (lift-IsReading _ reads λ t. lift-IsReading _ reads λ now. fail_if-IsReading _ _) reads λ _.
    fail_if-IsReading _ _

-- If the first branch gives no permit, it was not taken.
not_unready :
    (b : Bool) (m k : Tx WritePrepareResult) (db db' : Db) (r : WritePrepareResult)
    → IsUnready m
    → is_ready r ≡ true
    → (if b then m else k) db ≡ ok (r, db')
    → (b ≡ false) × (k db ≡ ok (r, db'))
not_unready true m k db db' r h a e = absurd (no (sym (h.refuses db db' r e) ∙ a))
  where
    no : ¬ (false ≡ true)
    no x = cc
not_unready false m k db db' r h a e = (refl, e)

none_of_three : (a b c : Bool) → (a || b || not c) ≡ false → (a ≡ false) × (b ≡ false) × (c ≡ true)
none_of_three a b c h = ground arith

both_hold : (a b : Bool) → (not a || not b) ≡ false → (a ≡ true) × (b ≡ true)
both_hold a b h = ground arith

module _ (ctx : CommandContext) (db : Db) where
  -- What a permit says of the reported resources.
  abbrev pub IsPermitted : List ResourceObservation → Type 0
  IsPermitted reported =
      (is_some (read_demand ctx reported db).0.pending ≡ false)
      × ((read_demand ctx reported db).1 ≡ false)
      × (is_empty (read_demand ctx reported db).0.conflicts ≡ true)
      × ((current : List ResourceObservation) × (current_observations (resources_of reported) db
            ≡ ok (current, db))
          × (observations_same_state current reported ≡ true)
          × (has_current_evidence ctx current none db ≡ true))

decide_write-IsPermitted :
    (env : Env) (ctx : CommandContext) (input : WritePrepareInput)
    (reported : List ResourceObservation) (db db' : Db) (r : WritePrepareResult)
    → is_ready r ≡ true
    → decide_write env ctx input reported db ≡ ok (r, db')
    → IsPermitted ctx db reported
unfolding decide_write free_write read_demand
decide_write-IsPermitted env ctx input reported db db' r a h =
    let d = (read_demand ctx reported db).0 in
    let (free, k) =
      not_unready _ _ _ db db' r (blocked_write-IsUnready env ctx input d) a
        (after-gets _ _ db r db' h) in
    let (pending, busy, clear) =
      none_of_three (is_some d.pending) (read_demand ctx reported db).1 (is_empty d.conflicts)
        free in
    let (current, e, l) =
      after-IsReading _ (current_observations-IsReading (resources_of reported)) db r db' k in
    let (ready_now, m) =
      not_unready _ _ _ db db' r (pure-IsUnready (reread_required _) refl) a
        (after-gets _ _ db r db' l) in
    let (same, evidence) =
      both_hold (observations_same_state current reported)
        (has_current_evidence ctx current none db) ready_now in
    (pending, busy, clear, (current, e, same, evidence))

-- A permit to write is given only if the reported observations are canonical and the resources still are as
-- reported, the task has current evidence of each, it has no pending request, no other task of the agent holds a
-- lease, and no lease, offer or queued request of another task covers what the task holds and asks for.
pub write_prepare-IsPermitted :
    (env : Env) (ctx : CommandContext) (input : WritePrepareInput) (db db' : Db)
    (r : WritePrepareResult)
    → is_ready r ≡ true
    → write_prepare env ctx input db ≡ ok (r, db')
    → (reported : List ResourceObservation) × (canonicalize_observations ctx input.current db
        ≡ ok (reported, db))
      × IsPermitted ctx db reported
unfolding write_prepare
write_prepare-IsPermitted env ctx input db db' r a h =
    let (u, h0, h1) = after-IsReading _ (require_task_owner-IsReading ctx true) db r db' h in
    let (v, h2, h3) = after-IsReading _ (check_prepare_times-IsReading env ctx input) db r db' h1 in
    let (reported, h4, h5) =
      after-IsReading _ (canonicalize_observations-IsReading ctx input.current) db r db' h3 in
    let (w, h6, h7) = after-IsReading _ (fail_if-IsReading _ _) db r db' h5 in
    let (x, h8, h9) = after-IsReading _ (or_invalid_input-IsReading _) db r db' h7 in
    (reported, h4, decide_write-IsPermitted env ctx input reported db db' r a h9)
