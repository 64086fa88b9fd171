-- ===== src/Store/Exclusion/Actions.antt =====
-- The actions that take leases and make requests, from a state in which the resources are free.
use stateful_core.Base.{
  ℕ, Text, Bool, true, false, Option, none, some, Option-cases, List, [], ◌∷◌, ◌≡◌, refl, sym, ap,
  subst, arith, Mem, All, any, inl, inr, text_eq, Mem-filter,
}
use stateful_core.Coordination.{ResourceKey}
use stateful_core.Store.Models.{CommandContext}
use stateful_core.Store.Tables.{Db, ActiveState, LeaseRow, LeaseResourceRow, RequestRow}
use stateful_core.Store.Leases.{
  ActiveLeaseView, add_lease, add_lease_resource, lease_taken, insert_lease, insert_lease_resource,
  additions_to, mode_of, insert_active_lease, new_lease, grow_lease, ensure_active_lease,
}
use stateful_core.Store.Observations.{find_resource}
use stateful_core.Store.Queue.{
  add_request, new_request, request_taken, insert_request, enqueue_request,
}
use stateful_core.Store.Tx.{Env, Done, ok, ◌>>=◌, continue_with, for_each}
use stateful_core.Store.Exclusion.{Exclusive, Shrinks, Shrinks-Exclusive}
use stateful_core.Store.Exclusion.Quiet.{quiet_of}
use stateful_core.Store.Exclusion.Growth.{AtHome, Clear, Mine, Ready, add_resource-Ready}
use stateful_core.Store.Exclusion.Rows.{add_lease-Ready, add_request-Exclusive}
use stateful_core.Store.Steps.{Steps, step_rules, Steps-modify, Steps-for_each_member}
use stateful_core.Store.Steps.Quiet.{Quiet}
use stateful_core.Store.Steps.Runs.{bind-Ran}
use stateful_core.Store.Steps.Evidence.{new_uuid-Steps}
use stateful_core.Store.Steps.Grows.{renewed_version-Steps, supersede-R}

abbrev pub KeepsExclusive : Db → Db → Type 0
KeepsExclusive db db' = Exclusive db → Exclusive db'

abbrev pub KeepsReady : CommandContext → List ResourceKey → Option Text → Db → Db → Type 0
KeepsReady ctx rs o db db' = Ready ctx rs o db → Ready ctx rs o db'

pub exclusive_quiet : Quiet KeepsExclusive
exclusive_quiet =
    quiet_of KeepsExclusive (record { reflexive = λ db e. e; transitive = λ a b c f g e. g (f e) })
      Shrinks-Exclusive

Mine-Shrinks :
    (ctx : CommandContext) (o : Option Text) (db db' : Db)
    → Shrinks db db'
    → Mine ctx o db
    → Mine ctx o db'
Mine-Shrinks ctx none db db' s m = m
Mine-Shrinks ctx (some b) db db' s m = λ w t l. m w t (s.leased b w t l)

pub ready_quiet :
    (ctx : CommandContext) (rs : List ResourceKey) (o : Option Text) → Quiet (KeepsReady ctx rs o)
ready_quiet ctx rs o =
    quiet_of (KeepsReady ctx rs o)
      (record { reflexive = λ db e. e; transitive = λ a b c f g e. g (f e) })
      (λ db db' s ready. record {
        exclusive = Shrinks-Exclusive db db' s ready.exclusive;
        clear = λ b w t k k' l c. ready.clear b w t k k' (s.leased b w t l) (s.covers b k' c);
        mine = Mine-Shrinks ctx o db db' s ready.mine;
      })

-- What an inserted resource row is.
insert_lease_resource-ok :
    (b : Text) (k : ResourceKey) (db : Db) (u : Done) (db' : Db)
    → insert_lease_resource b k db ≡ ok (u, db')
    → (row : LeaseResourceRow) × (db' ≡ add_lease_resource row db)
      × (row.batch_id ≡ b)
      × (row.resource ≡ k)
      × (any (λ (l : LeaseRow). text_eq l.batch_id row.batch_id) db.leases ≡ true)
unfolding insert_lease_resource ◌>>=◌ continue_with
insert_lease_resource-ok b k db u db' h =
    elim (Option-cases (find_resource k.workspace_id k.resource_id db)) [
      | inl missing ↦ cc
      | inr (found, known) ↦ (
        record {
          batch_id = b;
          resource = k;
          acquired_generation = found.generation;
          in_flight_attempt_id = none;
        },
        ground arith,
        refl,
        refl,
        ground arith,
      )
    ]

insert_lease-ok :
    (ctx : CommandContext) (b : Text) (v : ℕ) (rs : List ResourceKey) (e : Text) (db : Db)
    (u : Done) (db' : Db)
    → insert_lease ctx b v rs e db ≡ ok (u, db')
    → (row : LeaseRow) × (db' ≡ add_lease row db)
      × (row.batch_id ≡ b)
      × (row.workspace_id ≡ ctx.workspace_id)
      × (row.task_id ≡ ctx.task_id)
      × (lease_taken b ctx db ≡ false)
unfolding insert_lease ◌>>=◌ continue_with
insert_lease-ok ctx b v rs e db u db' h = (
  record {
    batch_id = b;
    workspace_id = ctx.workspace_id;
    task_id = ctx.task_id;
    agent_id = ctx.agent_id;
    mode = mode_of rs;
    state = ActiveState.active;
    version = v;
    acquired_at = ctx.observed_at;
    expires_at = e;
    release_pending = false;
  },
  ground arith,
  refl,
  refl,
  refl,
  ground arith,
)

insert_request-ok :
    (ctx : CommandContext) (b : Text) (n : ℕ) (rs : List ResourceKey) (e : Text) (db : Db)
    (u : Done) (db' : Db)
    → insert_request ctx b n rs e db ≡ ok (u, db')
    → (db' ≡ add_request (new_request ctx b n rs e) rs db) × (request_taken ctx b n db ≡ false)
unfolding insert_request ◌>>=◌ continue_with
insert_request-ok ctx b n rs e db u db' h = ground arith

any-weaken :
    {A : Type 0} (p q : A → Bool) (xs : List A)
    → ((a : A) → q a ≡ true → p a ≡ true)
    → any p xs ≡ false
    → any q xs ≡ false
any-weaken p q [] h e = refl
any-weaken p q (x ∷ xs) h e = ground (arith, h x, any-weaken p q xs h)

pub every_member :
    {A : Type 0} (P : A → Type 0) (xs : List A) → ((a : A) → Mem a xs → P a) → All P xs
every_member P [] h = tt
every_member P (x ∷ xs) h = (h x (inl refl), every_member P xs (λ a m. h a (inr m)))

abbrev pub view_batch : Option ActiveLeaseView → Option Text
view_batch none = none
view_batch (some l) = some l.batch_id

module _ (ctx : CommandContext) (rs : List ResourceKey) (home : AtHome ctx rs) where
  insert_lease_resource-Ready :
      (b : Text) (k : ResourceKey)
      → Mem k rs
      → Steps (KeepsReady ctx rs (some b)) (insert_lease_resource b k)
  insert_lease_resource-Ready b k m = record {
    at = λ db u db' h ready.
        let (row, after, hb, hk, leased) = insert_lease_resource-ok b k db u db' h in
        let start = subst (λ x. Ready ctx rs (some x) db) (sym hb) ready in
        let added =
          add_resource-Ready ctx rs home row (subst (λ x. Mem x rs) (sym hk) m) db start leased in
        subst (λ x. Ready ctx rs (some x) db') hb
          (subst (Ready ctx rs (some row.batch_id)) (sym after) added);
  }

  insert_each-Ready :
      (b : Text) (ks : List ResourceKey)
      → ((k : ResourceKey) → Mem k ks → Mem k rs)
      → Steps (KeepsReady ctx rs (some b)) (for_each ks (insert_lease_resource b))
  insert_each-Ready b ks sub =
      Steps-for_each_member (ready_quiet ctx rs (some b)).preorder ks (insert_lease_resource b)
        (every_member _ ks (λ k m. insert_lease_resource-Ready b k (sub k m)))

  insert_additions-Ready :
      (l : ActiveLeaseView)
      → Steps
          (KeepsReady ctx rs (some l.batch_id))
          (for_each (additions_to l.resources rs) (insert_lease_resource l.batch_id))
  insert_additions-Ready l =
      insert_each-Ready l.batch_id (additions_to l.resources rs) (λ k m. (Mem-filter _ k rs m).0)

  grow_lease-Ready :
      (l : ActiveLeaseView) (e : Text)
      → Steps (KeepsReady ctx rs (some l.batch_id)) (grow_lease ctx l rs e)
  unfolding grow_lease
  grow_lease-Ready l e =
      let q = ready_quiet ctx rs (some l.batch_id) in
      search (step_rules, q.preorder, insert_additions-Ready, renewed_version-Steps q) depth 30

  -- From a state in which nobody else holds the resources.
  insert_active_lease-Ready :
      (b : Text) (v : ℕ) (e : Text) (db : Db) (u : Done) (db' : Db)
      → insert_active_lease ctx b v rs e db ≡ ok (u, db')
      → Exclusive db
      → Clear ctx rs db
      → Ready ctx rs (some b) db'
  unfolding insert_active_lease
  insert_active_lease-Ready b v e db u db' h exclusive clear =
      let ran = bind-Ran _ _ db u db' h in
      let (row, after, hb, hw, ht, fresh) =
        insert_lease-ok ctx b v rs e db ran.value ran.between ran.first in
      let new =
        any-weaken _ (λ (l : LeaseRow). text_eq l.batch_id row.batch_id) db.leases
          (λ l e. let same = ap (text_eq l.batch_id) hb in ground arith) fresh in
      let added = add_lease-Ready row db exclusive new ctx rs hw ht clear in
      (insert_each-Ready b rs (λ k m. m)).at ran.between u db' ran.rest (
        subst (λ x. Ready ctx rs (some x) ran.between) hb
          (subst (Ready ctx rs (some row.batch_id)) (sym after) added))

  pub insert_active_lease-Steps_ready :
      (b : Text) (v : ℕ) (e : Text)
      → Steps (KeepsReady ctx rs none) (insert_active_lease ctx b v rs e)
  insert_active_lease-Steps_ready b v e = record {
    at = λ db u db' h ready.
        let after = insert_active_lease-Ready b v e db u db' h ready.exclusive ready.clear in
        record { exclusive = after.exclusive; clear = after.clear; mine = tt };
  }

  new_lease-Ready : (env : Env) (e : Text) → Steps (KeepsReady ctx rs none) (new_lease env ctx rs e)
  unfolding new_lease
  new_lease-Ready env e =
      let q = ready_quiet ctx rs none in
      search (step_rules, q.preorder, new_uuid-Steps q, insert_active_lease-Steps_ready) depth 30

  pub ensure_active_lease-Ready :
      (env : Env) (o : Option ActiveLeaseView) (e : Text)
      → Steps (KeepsReady ctx rs (view_batch o)) (ensure_active_lease env ctx o rs e)
  unfolding ensure_active_lease
  ensure_active_lease-Ready env none e = new_lease-Ready env e
  ensure_active_lease-Ready env (some l) e = grow_lease-Ready l e

  insert_request-Exclusive :
      (b : Text) (n : ℕ) (e : Text) → Steps KeepsExclusive (insert_request ctx b n rs e)
  unfolding new_request
  insert_request-Exclusive b n e = record {
    at = λ db u db' h exclusive.
        let (after, fresh) = insert_request-ok ctx b n rs e db u db' h in
        let new =
          any-weaken _ (λ (x : RequestRow). text_eq x.batch_id b) db.requests (λ x e. ground arith)
            fresh in
        subst Exclusive (sym after)
          (add_request-Exclusive (new_request ctx b n rs e) rs db exclusive new home);
  }

  pub enqueue_request-Exclusive :
      (env : Env) (e : Text) → Steps KeepsExclusive (enqueue_request env ctx rs e)
  unfolding enqueue_request
  enqueue_request-Exclusive env e =
      search
        (
          step_rules,
          exclusive_quiet.preorder,
          Steps-modify,
          new_uuid-Steps exclusive_quiet,
          supersede-R exclusive_quiet,
          exclusive_quiet.set_lease_queue,
          insert_request-Exclusive,
        )
        depth 30
