-- ===== src/Store/Exclusion/Demands.antt =====
-- What `write_prepare` demands is of the task's workspace, and free when it goes ahead.
use stateful_core.Base.{
  Text, Bool, true, false, ◌&&◌, Option, none, some, List, [], ◌∷◌, ◌++◌, ◌≡◌, refl, sym, ap, ◌∙◌,
  subst, arith, Mem, any, find, ◌⊎◌, inl, inr, if◌then◌else◌, is_empty, text_eq-eq, Mem-filter,
  Mem-map, Mem-find, Mem-append, Mem-sort_by,
}
use stateful_core.Coordination.{ResourceKey, ResourceObservation}
use stateful_core.Resource.{same_identity, key_le, sort_observations}
use stateful_core.Store.Models.{CommandContext}
use stateful_core.Store.Tables.{Db, LeaseRow, RequestRow}
use stateful_core.Store.Context.{at_task}
use stateful_core.Store.Observations.{
  resources_of, check_observation, check_all, canonicalize_observations, merge_each,
  merge_resource_keys,
}
use stateful_core.Store.Leases.{
  request_in_batch, is_pending, active_task_lease, view_of, lease_resources, in_batch,
  lease_of_task,
}
use stateful_core.Store.Queue.{
  pending_task_request, pending_of, request_resources, request_of_task, lease_request_row,
}
use stateful_core.Store.Prepare.{read_demand, resource_union, lease_keys, merge_pending}
use stateful_core.Store.Tx.{Done, ok, ◌>>=◌, continue_with}
use stateful_core.Store.Steps.Runs.{bind-Ran, pure-ok}
use stateful_core.Store.Exclusion.{Leased, Covers, Asked, Wants, Exclusive}
use stateful_core.Store.Exclusion.Growth.{AtHome, Mine, Ready}
use stateful_core.Store.Exclusion.Actions.{view_batch}
use stateful_core.Store.Exclusion.Conflicts.{no_conflict-Clear}

Mem-grown :
    (b : Bool) (x k : ResourceKey) (a : List ResourceKey)
    → Mem k (if b then a else a ++ x ∷ [])
    → Mem k a ⊎ (k ≡ x)
Mem-grown true x k a m = inl m
Mem-grown false x k a m = elim (Mem-append k a (x ∷ []) m) [
  | inl old ↦ inl old
  | inr (inl new) ↦ inr new
  | inr (inr absent) ↦ elim absent [ ]
]

Mem-merge_each :
    (k : ResourceKey) (a b : List ResourceKey) → Mem k (merge_each a b) → Mem k a ⊎ Mem k b
unfolding merge_each
Mem-merge_each k a [] m = inl m
Mem-merge_each k a (x ∷ b) m =
    elim (Mem-merge_each k (if any (same_identity x) a then a else a ++ x ∷ []) b m) [
      | inr later ↦ inr (inr later)
      | inl now ↦ elim (Mem-grown (any (same_identity x) a) x k a now) [
        | inl old ↦ inl old
        | inr new ↦ inr (inl new)
      ]
    ]

Mem-merge :
    (k : ResourceKey) (a b : List ResourceKey) → Mem k (merge_resource_keys a b) → Mem k a ⊎ Mem k b
unfolding merge_resource_keys
Mem-merge k a b m = Mem-merge_each k a b (Mem-sort_by key_le k (merge_each a b) m)

at_task-eq : (w t w' t' : Text) → at_task w t w' t' ≡ true → (w' ≡ w) × (t' ≡ t)
unfolding at_task
at_task-eq w t w' t' h = (text_eq-eq w' w (ground arith), text_eq-eq t' t (ground arith))

lease_resources-Covers :
    (b : Text) (db : Db) (k : ResourceKey) → Mem k (lease_resources b db) → Covers db b k
unfolding lease_resources Covers
lease_resources-Covers b db k m =
    let (r, mr, e) = Mem-map _ k _ (Mem-sort_by key_le k _ m) in
    let kept = Mem-filter (in_batch b) r db.lease_resources mr in
    (r, kept.0, text_eq-eq r.batch_id b kept.1, sym e)

pub request_resources-Wants :
    (b : Text) (db : Db) (k : ResourceKey) → Mem k (request_resources b db) → Wants db b k
unfolding request_resources Wants
request_resources-Wants b db k m =
    let (r, mr, e) = Mem-map _ k _ (Mem-sort_by key_le k _ m) in
    let kept = Mem-filter (request_in_batch b) r db.request_resources mr in
    (r, kept.0, text_eq-eq r.batch_id b kept.1, sym e)

empty-append : {A : Type 0} (xs ys : List A) → is_empty (xs ++ ys) ≡ true → xs ≡ []
empty-append [] ys h = refl
empty-append (x ∷ xs) ys h = cc

-- The checks of the observations, one by one.
check_all-AtHome :
    (ctx : CommandContext) (seen : List ResourceKey) (os : List ResourceObservation) (db : Db)
    (u : Done) (db' : Db)
    → check_all ctx seen os db ≡ ok (u, db')
    → AtHome ctx (resources_of os)
unfolding check_all ◌>>=◌ continue_with check_observation
check_all-AtHome ctx seen [] db u db' h k m = elim m [ ]
check_all-AtHome ctx seen (o ∷ os) db u db' h k (inl here) =
    ap (λ (x : ResourceKey). x.workspace_id) here
    ∙ text_eq-eq o.resource.workspace_id ctx.workspace_id (ground arith)
check_all-AtHome ctx seen (o ∷ os) db u db' h k (inr later) =
    check_all-AtHome ctx (o.resource ∷ seen) os db u db' (ground arith) k later

pub canonicalize-AtHome :
    (ctx : CommandContext) (os : List ResourceObservation) (db : Db)
    (reported : List ResourceObservation) (db' : Db)
    → canonicalize_observations ctx os db ≡ ok (reported, db')
    → AtHome ctx (resources_of reported)
unfolding canonicalize_observations
canonicalize-AtHome ctx os db reported db' h =
    let ran = bind-Ran _ _ db reported db' h in
    let (same, _) = pure-ok _ reported _ db' ran.rest in
    let home = check_all-AtHome ctx [] (sort_observations os) db ran.value ran.between ran.first in
    subst (λ x. AtHome ctx (resources_of x)) same home

module _ (ctx : CommandContext) (db : Db) where
  -- The task's lease is its own.
  found_lease :
      (l : LeaseRow)
      → find (lease_of_task ctx.workspace_id ctx.task_id) db.leases ≡ some l
      → Leased db l.batch_id ctx.workspace_id ctx.task_id
  unfolding Leased
  found_lease l h =
      let (m, p) = Mem-find _ l db.leases h in
      let (hw, ht) = at_task-eq ctx.workspace_id ctx.task_id l.workspace_id l.task_id p in
      (l, m, refl, hw, ht)

  view-AtHome :
      (o : Option LeaseRow)
      → find (lease_of_task ctx.workspace_id ctx.task_id) db.leases ≡ o
      → Exclusive db
      → AtHome ctx (lease_keys (view_of db o))
  unfolding view_of
  view-AtHome none h exclusive k m = elim m [ ]
  view-AtHome (some l) h exclusive k m =
      exclusive.at_home l.batch_id ctx.workspace_id ctx.task_id k (found_lease l h)
        (lease_resources-Covers l.batch_id db k m)

  view-Mine :
      (o : Option LeaseRow)
      → find (lease_of_task ctx.workspace_id ctx.task_id) db.leases ≡ o
      → Exclusive db
      → Mine ctx (view_batch (view_of db o)) db
  unfolding view_of
  view-Mine none h exclusive = tt
  view-Mine (some l) h exclusive =
      λ w t x. exclusive.one_owner l.batch_id w t ctx.workspace_id ctx.task_id x (found_lease l h)

  found_request :
      (p : RequestRow → Bool) (q : RequestRow)
      → find p db.requests ≡ some q
      → at_task ctx.workspace_id ctx.task_id q.workspace_id q.task_id ≡ true
      → Asked db q.batch_id ctx.workspace_id ctx.task_id
  unfolding Asked
  found_request p q h here =
      let (m, _) = Mem-find p q db.requests h in
      let (hw, ht) = at_task-eq ctx.workspace_id ctx.task_id q.workspace_id q.task_id here in
      (q, m, refl, hw, ht)

  pending-AtHome :
      (o : Option RequestRow)
      → find (λ q. request_of_task ctx.workspace_id ctx.task_id q && is_pending q.state) db.requests
        ≡ o
      → Exclusive db
      → (union : List ResourceKey) → AtHome ctx union
      → AtHome ctx (merge_pending union (pending_of db o))
  unfolding pending_of merge_pending
  pending-AtHome none h exclusive union home k m = home k m
  pending-AtHome (some q) h exclusive union home k m =
      elim (Mem-merge k union (request_resources q.batch_id db) m) [
        | inl old ↦ home k old
        | inr new ↦
            exclusive.asked_at_home q.batch_id ctx.workspace_id ctx.task_id k
              (found_request _ q h (let own = (Mem-find _ q db.requests h).1 in ground arith))
              (request_resources-Wants q.batch_id db k new)
      ]

  pub demand-AtHome :
      (reported : List ResourceObservation)
      → Exclusive db
      → AtHome ctx (resources_of reported)
      → AtHome ctx (read_demand ctx reported db).0.union
  unfolding read_demand resource_union active_task_lease pending_task_request
  demand-AtHome reported exclusive home k m =
      let held = pending-AtHome _ refl exclusive _ (view-AtHome _ refl exclusive) in
      elim (Mem-merge k _ (resources_of reported) m) [ inl old ↦ held k old | inr new ↦ home k new ]

  pub demand-Ready :
      (reported : List ResourceObservation)
      → Exclusive db
      → AtHome ctx (resources_of reported)
      → is_empty (read_demand ctx reported db).0.conflicts ≡ true
      → Ready ctx
          (read_demand ctx reported db).0.union
          (view_batch (read_demand ctx reported db).0.active)
          db
  unfolding read_demand active_task_lease
  demand-Ready reported exclusive home free = record {
    exclusive = exclusive;
    clear =
        no_conflict-Clear ctx _ (demand-AtHome reported exclusive home) db none exclusive
          (empty-append _ _ free);
    mine = view-Mine _ refl exclusive;
  }

  -- The resources of a request of the task.
  pub request-AtHome :
      (b : Text) (q : RequestRow)
      → lease_request_row ctx b db ≡ some q
      → Exclusive db
      → AtHome ctx (request_resources b db)
  unfolding lease_request_row
  request-AtHome b q h exclusive k m =
      let own = (Mem-find _ q db.requests h).1 in
      let batch = text_eq-eq q.batch_id b (ground arith) in
      let asked = found_request _ q h (ground arith) in
      exclusive.asked_at_home b ctx.workspace_id ctx.task_id k
        (subst (λ x. Asked db x ctx.workspace_id ctx.task_id) batch asked)
        (request_resources-Wants b db k m)
