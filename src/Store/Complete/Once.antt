-- ===== src/Store/Complete/Once.antt =====
-- A write attempt is completed once, by the one who prepared it.
use stateful_core.Base.{
  Bool, true, false, not, ◌||◌, some, find, text_eq, text_eq-eq, ◌≡◌, refl, arith,
}
use stateful_core.Store.Models.{CommandContext, WriteCompleteInput, WriteCompleteResult}
use stateful_core.Store.Tables.{Db, WriteRow}
use stateful_core.Store.Tx.{Env, StoreError, ok, Done, ◌>>=◌, fail_if}
use stateful_core.Store.Complete.{is_executing, attempt_of_task, write_complete_command}
use stateful_core.Store.Activate.Offer.{require_task_owner-IsReading, or_fail-some}
use stateful_core.Store.Steps.Reading.{
  or_fail-IsReading, fail_if-IsReading, after-IsReading, after-gets,
}

fail_if-false :
    (b : Bool) (e : StoreError) (db : Db) (u : Done) → fail_if b e db ≡ ok (u, db) → b ≡ false
unfolding ◌>>=◌
fail_if-false true e db u h = cc
fail_if-false false e db u h = refl

both_equal : (a b : Bool) → (not a || not b) ≡ false → (a ≡ true) × (b ≡ true)
both_equal a b h = ground arith

-- A completion is accepted only for an attempt of the task that is still executing, with the invocation and the
-- permit that it was prepared with.
pub write_complete_command-executing :
    (env : Env) (ctx : CommandContext) (input : WriteCompleteInput) (db : Db)
    (r : WriteCompleteResult) (db' : Db)
    → write_complete_command env ctx input db ≡ ok (r, db')
    → (attempt : WriteRow) × (find (attempt_of_task ctx input.attempt_id) db.writes ≡ some attempt)
      × (attempt.invocation_id ≡ input.invocation_id)
      × (attempt.permit_id ≡ input.permit_id)
      × (is_executing attempt.status ≡ true)
unfolding write_complete_command
write_complete_command-executing env ctx input db r db' h =
    let (current, h0, h1) = after-IsReading _ (require_task_owner-IsReading ctx false) db r db' h in
    let row = find (attempt_of_task ctx input.attempt_id) db.writes in
    let (attempt, h2, h3) =
      after-IsReading _ (or_fail-IsReading _ row) db r db' (after-gets _ _ db r db' h1) in
    let (u, h4, h5) = after-IsReading _ (fail_if-IsReading _ _) db r db' h3 in
    let (v, h6, h7) = after-IsReading _ (fail_if-IsReading _ _) db r db' h5 in
    let (invocation, permit) =
      both_equal (text_eq attempt.invocation_id input.invocation_id)
        (text_eq attempt.permit_id input.permit_id) (fail_if-false _ _ db u h4) in
    (
      attempt,
      or_fail-some _ row db attempt h2,
      text_eq-eq attempt.invocation_id input.invocation_id invocation,
      text_eq-eq attempt.permit_id input.permit_id permit,
      executing (is_executing attempt.status) (fail_if-false _ _ db v h6),
    )
  where
    executing : (b : Bool) → not b ≡ false → b ≡ true
    executing b x = ground arith
