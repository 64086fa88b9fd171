-- ===== src/Store/Accepted/Replay.antt =====
-- Idempotency of `accepted_command`: what a repeated request id does.
use stateful_core.Base.{
  true, false, Option, none, some, List, [], ◌∷◌, ◌++◌, ◌≡◌, refl, arith, find, if◌then◌else◌,
  Bool-cases, inl, inr, ◌⊎◌, text_eq, text_eq_refl, text_eq-eq,
}
use stateful_core.Store.Models.{CommandContext, Command, Response}
use stateful_core.Store.Tables.{Db, ReceiptRow}
use stateful_core.Store.Context.{validate_context}
use stateful_core.Store.Time.{validate_timestamp}
use stateful_core.Store.Leases.{delete_leases, drain_leases}
use stateful_core.Store.Accepted.{
  accepted_command, replay_or_run, run_command, receipt_of, find_receipt, mismatches,
  record_command, journal, command_kind, receipt_row,
}
use stateful_core.Store.Tx.{
  Env, Done, ok, err, idempotency_mismatch, ◌>>=◌, ◌>>◌, pure, gets, continue_with, new_uuid,
}
use stateful_core.Store.Steps.{Steps-modify}
use stateful_core.Store.Steps.Quiet.{Quiet}
use stateful_core.Store.Steps.Grows.{Grows}
use stateful_core.Store.Steps.Runs.{bind-Ran, pure-ok}
use stateful_core.Store.Steps.Queue.{expire_tasks_and_leases-R, promote_waiters-Steps}
use stateful_core.Store.Steps.Operation.{operation-Steps}

-- The receipts stay.
abbrev SameReceipts : Db → Db → Type 0
SameReceipts db db' = db'.receipts ≡ db.receipts

keeps_receipts : Quiet SameReceipts
unfolding delete_leases drain_leases
keeps_receipts = record {
  preorder = record { reflexive = λ db. refl; transitive = λ a b c h k. cc };
  set_tasks = λ v db. refl;
  set_processes = λ v db. refl;
  set_resources = λ v db. refl;
  set_aliases = λ v db. refl;
  set_evidence = λ v db. refl;
  set_intents = λ v db. refl;
  set_reads = λ v db. refl;
  set_writes = λ v db. refl;
  set_audit = λ v db. refl;
  set_lease_queue = λ v db. refl;
  set_uuids_drawn = λ v db. refl;
  set_slots = λ p v db. refl;
  delete = λ p db. refl;
  drain = λ p db. refl;
  set_terms = λ b v e db. refl;
  update = λ p f k db. refl;
}

growth_keeps_receipts : Grows SameReceipts
growth_keeps_receipts = record {
  lease = λ l db. refl;
  resource = λ r db. refl;
  request = λ q rs db. refl;
}

find-append_new :
    (ctx : CommandContext) (r : ReceiptRow) (rs : List ReceiptRow)
    → find (receipt_of ctx) rs ≡ none
    → receipt_of ctx r ≡ true
    → find (receipt_of ctx) (rs ++ r ∷ []) ≡ some r
find-append_new ctx r [] h k = ground arith
find-append_new ctx r (x ∷ rs) h k = ground (arith, find-append_new ctx r rs)

-- What is checked of a context does not depend on the database.
validate_context-anywhere :
    (env : Env) (ctx : CommandContext) (db db' x : Db) (u : Done)
    → validate_context env ctx db ≡ ok (u, x)
    → (x ≡ db) × (validate_context env ctx db' ≡ ok (tt, db'))
unfolding validate_context validate_timestamp ◌>>=◌ continue_with
validate_context-anywhere env ctx db db' x u h = ground arith

record_command-receipts :
    (env : Env) (ctx : CommandContext) (c : Command) (r : Response) (db db' : Db) (u : Done)
    → record_command env ctx c r db ≡ ok (u, db')
    → db'.receipts ≡ db.receipts ++ receipt_row env ctx c r ∷ []
unfolding record_command journal new_uuid ◌>>=◌ continue_with
record_command-receipts env ctx c r db db' u h = ground arith

-- The rest of a command after its operation, from where the receipts are still the old ones.
finish-receipts :
    (env : Env) (ctx : CommandContext) (c : Command) (a r : Response) (db db' : Db)
    → (record_command env ctx c a >> pure a) db ≡ ok (r, db')
    → db'.receipts ≡ db.receipts ++ receipt_row env ctx c r ∷ []
finish-receipts env ctx c a r db db' h =
    let ran = bind-Ran _ _ db r db' h in
    let old = record_command-receipts env ctx c a db ran.between ran.value ran.first in
    let stops = pure-ok a r ran.between db' ran.rest in
    let same = stops.0 in let here = stops.1 in cc

run_command-receipts :
    (env : Env) (ctx : CommandContext) (c : Command) (r : Response) (db db' : Db)
    → run_command env ctx c db ≡ ok (r, db')
    → db'.receipts ≡ db.receipts ++ receipt_row env ctx c r ∷ []
unfolding run_command
run_command-receipts env ctx c r db db' h =
    let expired = expire_tasks_and_leases-R keeps_receipts ctx.observed_at in
    let a = bind-Ran _ _ db r db' h in
    let s0 = (Steps-modify keeps_receipts.preorder _ expired).at db a.value a.between a.first in
    let b = bind-Ran _ _ a.between r db' a.rest in
    let s1 =
      (promote_waiters-Steps keeps_receipts env ctx.observed_at).at a.between b.value b.between
        b.first in
    let o = bind-Ran _ _ b.between r db' b.rest in
    let s2 =
      (operation-Steps keeps_receipts growth_keeps_receipts env ctx c).at b.between o.value
        o.between o.first in
    let s3 = finish-receipts env ctx c o.value r o.between db' o.rest in cc

receipt_of-row :
    (env : Env) (ctx : CommandContext) (c : Command) (r : Response)
    → receipt_of ctx (receipt_row env ctx c r) ≡ true
unfolding receipt_row
receipt_of-row env ctx c r = simp (text_eq_refl)

mismatches-row :
    (env : Env) (ctx : CommandContext) (c : Command) (r : Response)
    → mismatches env c (receipt_row env ctx c r) ≡ false
unfolding receipt_row mismatches
mismatches-row env ctx c r = simp (text_eq_refl)

-- After an accepted command its receipt is there.
find_receipt-after :
    (env : Env) (ctx : CommandContext) (c : Command) (r : Response) (db db' : Db)
    → find_receipt ctx db ≡ none
    → run_command env ctx c db ≡ ok (r, db')
    → find_receipt ctx db' ≡ some (receipt_row env ctx c r)
unfolding find_receipt
find_receipt-after env ctx c r db db' fresh h =
    let grown = run_command-receipts env ctx c r db db' h in
    let found =
      find-append_new ctx (receipt_row env ctx c r) db.receipts fresh
        (receipt_of-row env ctx c r) in
    cc

-- A request that has a receipt answers it, or that it was another request, and changes nothing.
accepted_command-of_receipt :
    (env : Env) (ctx : CommandContext) (c : Command) (db : Db) (row : ReceiptRow)
    → validate_context env ctx db ≡ ok (tt, db)
    → find_receipt ctx db ≡ some row
    → accepted_command env ctx c db
      ≡ (if mismatches env c row then err idempotency_mismatch else ok (row.response, db))
unfolding accepted_command replay_or_run ◌>>=◌ continue_with
accepted_command-of_receipt env ctx c db row valid found = ground arith

-- The receipt that a successful command leaves or finds.
Answered : Env → CommandContext → Command → Response → Db → Type 0
Answered env ctx c r db' =
    (row : ReceiptRow) × (find_receipt ctx db' ≡ some row)
    × (mismatches env c row ≡ false)
    × (row.response ≡ r)

replay_or_run-Answered :
    (env : Env) (ctx : CommandContext) (c : Command) (r : Response) (db db' : Db)
    (o : Option ReceiptRow)
    → find_receipt ctx db ≡ o
    → replay_or_run env ctx c o db ≡ ok (r, db')
    → Answered env ctx c r db'
unfolding Answered replay_or_run ◌>>=◌ receipt_row
replay_or_run-Answered env ctx c r db db' none fresh h = (
  receipt_row env ctx c r,
  find_receipt-after env ctx c r db db' fresh h,
  mismatches-row env ctx c r,
  refl,
)
replay_or_run-Answered env ctx c r db db' (some row) found h =
    elim (Bool-cases (mismatches env c row)) [
      | inl bad ↦ cc
      | inr good ↦ (row, ground arith, good, ground arith)
    ]

after_check :
    (env : Env) (ctx : CommandContext) (c : Command) (r : Response) (db db' : Db)
    → (gets (find_receipt ctx) >>= replay_or_run env ctx c) db ≡ ok (r, db')
    → Answered env ctx c r db'
unfolding ◌>>=◌ continue_with
after_check env ctx c r db db' h =
    replay_or_run-Answered env ctx c r db db' (find_receipt ctx db) refl h

-- What a successful command did: it replayed a receipt, or ran and wrote one.
accepted_command-Answered :
    (env : Env) (ctx : CommandContext) (c : Command) (r : Response) (db db' : Db)
    → accepted_command env ctx c db ≡ ok (r, db')
    → (validate_context env ctx db' ≡ ok (tt, db')) × Answered env ctx c r db'
unfolding accepted_command
accepted_command-Answered env ctx c r db db' h =
    let v = bind-Ran _ _ db r db' h in
    let valid = validate_context-anywhere env ctx db db' v.between v.value v.first in
    (valid.1, after_check env ctx c r v.between db' v.rest)

-- A command that was accepted is answered alike, and changes nothing, when it is sent again.
pub accepted_command-again :
    (env : Env) (ctx : CommandContext) (c : Command) (r : Response) (db db' : Db)
    → accepted_command env ctx c db ≡ ok (r, db')
    → accepted_command env ctx c db' ≡ ok (r, db')
unfolding Answered
accepted_command-again env ctx c r db db' h =
    let (valid, (row, found, same, answer)) = accepted_command-Answered env ctx c r db db' h in
    let replay = accepted_command-of_receipt env ctx c db' row valid found in ground arith

mismatches-other :
    (env : Env) (c d : Command) (row : ReceiptRow)
    → mismatches env c row ≡ false
    → (text_eq (command_kind c) (command_kind d) ≡ false)
      ⊎ (text_eq (env.payload_digest c) (env.payload_digest d) ≡ false)
    → mismatches env d row ≡ true
unfolding mismatches
mismatches-other env c d row same other =
    let kind = text_eq-eq row.command_kind (command_kind c) (ground arith) in
    let digest = text_eq-eq row.payload_digest (env.payload_digest c) (ground arith) in
    ground (arith, kind, digest)

-- After a command was accepted, its request id with a command of another kind or payload digest is
-- refused as an idempotency mismatch.
pub accepted_command-mismatch :
    (env : Env) (ctx : CommandContext) (c d : Command) (r : Response) (db db' : Db)
    → accepted_command env ctx c db ≡ ok (r, db')
    → (text_eq (command_kind c) (command_kind d) ≡ false)
      ⊎ (text_eq (env.payload_digest c) (env.payload_digest d) ≡ false)
    → accepted_command env ctx d db' ≡ err idempotency_mismatch
unfolding Answered
accepted_command-mismatch env ctx c d r db db' h other =
    let (valid, (row, found, same, answer)) = accepted_command-Answered env ctx c r db db' h in
    let replay = accepted_command-of_receipt env ctx d db' row valid found in
    let bad = mismatches-other env c d row same other in ground arith
