-- ===== src/Store/Exclusion/Quiet.antt =====
-- Every write but a new lease or request only shrinks what is leased.
use stateful_core.Base.{
  Text, Bool, true, not, ◌&&◌, Option, ◌≡◌, refl, sym, ap, ◌∙◌, subst, arith, Mem, any,
  update_where, if◌then◌else◌, text_eq, text_eq_refl, Mem-filter, filter-Mem, Mem-any,
  Mem-update_where, update_where-Mem,
}
use stateful_core.Store.Tables.{Db, LeaseRow, LeaseResourceRow, RequestRow}
use stateful_core.Store.Leases.{delete_leases, drain_leases}
use stateful_core.Store.Queue.{update_requests}
use stateful_core.Store.Exclusion.{Leased, Covers, Asked, Wants, Shrinks}
use stateful_core.Store.Steps.{Preorder}
use stateful_core.Store.Steps.Quiet.{Quiet, KeepsOwner}

-- The four tables are the same.
pub unchanged :
    (db db' : Db)
    → db'.leases ≡ db.leases
    → db'.lease_resources ≡ db.lease_resources
    → db'.requests ≡ db.requests
    → db'.request_resources ≡ db.request_resources
    → Shrinks db db'
unfolding Leased Covers Asked Wants
unchanged db db' l c q r = record {
  leased = λ b w t (x, m, hb, hw, ht). (x, subst (Mem x) l m, hb, hw, ht);
  covers = λ b k (x, m, hb, hk). (x, subst (Mem x) c m, hb, hk);
  live = λ b w t k h (x, m, hb, hw, ht). (x, subst (Mem x) (sym l) m, hb, hw, ht);
  asked = λ b w t (x, m, hb, hw, ht). (x, subst (Mem x) q m, hb, hw, ht);
  asking = λ b w t (x, m, hb, hw, ht). (x, subst (Mem x) (sym q) m, hb, hw, ht);
  wants = λ b k (x, m, hb, hk). (x, subst (Mem x) r m, hb, hk);
}

Shrinks-Preorder : Preorder Shrinks
Shrinks-Preorder = record {
  reflexive = λ db. unchanged db db refl refl refl refl;
  transitive = λ a b c s t. record {
    leased = λ x w u h. s.leased x w u (t.leased x w u h);
    covers = λ x k h. s.covers x k (t.covers x k h);
    live = λ x w u k h l. t.live x w u k h (s.live x w u k (t.covers x k h) l);
    asked = λ x w u h. s.asked x w u (t.asked x w u h);
    asking = λ x w u h. t.asking x w u (s.asking x w u h);
    wants = λ x k h. s.wants x k (t.wants x k h);
  };
}

-- The lease of a resource that outlives a deletion outlives it too.
kept_lease :
    (gone : LeaseRow → Bool) (db : Db) (r : LeaseResourceRow) (l : LeaseRow)
    → Mem l db.leases
    → l.batch_id ≡ r.batch_id
    → not (any (λ x. gone x && text_eq x.batch_id r.batch_id) db.leases) ≡ true
    → not (gone l) ≡ true
kept_lease gone db r l m same kept =
    let spared =
      Mem-any (λ x. gone x && text_eq x.batch_id r.batch_id) l db.leases m (ground arith) in
    let eq = ap (λ b. text_eq b r.batch_id) same in
    let itself = text_eq_refl r.batch_id in ground arith

delete-Shrinks : (gone : LeaseRow → Bool) (db : Db) → Shrinks db (delete_leases gone db)
unfolding delete_leases Leased Covers Asked Wants
delete-Shrinks gone db = record {
  leased = λ b w t (x, m, hb, hw, ht). (x, (Mem-filter _ x db.leases m).0, hb, hw, ht);
  covers = λ b k (x, m, hb, hk). (x, (Mem-filter _ x db.lease_resources m).0, hb, hk);
  live = λ b w t k (r, m, hb, hk) (l, ml, lb, hw, ht). (
    l,
    filter-Mem _ l db.leases ml
        (kept_lease gone db r l ml (lb ∙ sym hb) (Mem-filter _ r db.lease_resources m).1),
    lb,
    hw,
    ht,
  );
  asked = λ b w t h. h;
  asking = λ b w t h. h;
  wants = λ b k h. h;
}

-- An update of the leases that keeps their batch and owner.
update_leases-Shrinks :
    (p : LeaseRow → Bool) (f : LeaseRow → LeaseRow) (db : Db)
    → ((l : LeaseRow) → (f l).batch_id ≡ l.batch_id)
    → ((l : LeaseRow) → (f l).workspace_id ≡ l.workspace_id)
    → ((l : LeaseRow) → (f l).task_id ≡ l.task_id)
    → Shrinks db (record db { leases = update_where p f db.leases })
unfolding Leased Covers Asked Wants
update_leases-Shrinks p f db kb kw kt = record {
  leased = λ b w t (l, m, hb, hw, ht).
      let (x, mx, e) = Mem-update_where p f l db.leases m in
      let fields = kept x l e in (x, mx, sym fields.0 ∙ hb, sym fields.1 ∙ hw, sym fields.2 ∙ ht);
  covers = λ b k h. h;
  live = λ b w t k h (l, m, hb, hw, ht).
      let fields = kept l (if p l then f l else l) refl in
      (
        if p l then f l else l,
        update_where-Mem p f l db.leases m,
        fields.0 ∙ hb,
        fields.1 ∙ hw,
        fields.2 ∙ ht,
      );
  asked = λ b w t h. h;
  asking = λ b w t h. h;
  wants = λ b k h. h;
}
  where
    kept :
        (x l : LeaseRow)
        → l ≡ (if p x then f x else x)
        → (l.batch_id ≡ x.batch_id) × (l.workspace_id ≡ x.workspace_id) × (l.task_id ≡ x.task_id)
    kept x l e = ground (arith, kb x, kw x, kt x)

update_requests-Shrinks :
    (p : RequestRow → Bool) (f : RequestRow → RequestRow)
    → KeepsOwner f
    → (db : Db) → Shrinks db (update_requests p f db)
unfolding Leased Covers Asked Wants
update_requests-Shrinks p f keeps db = record {
  leased = λ b w t h. h;
  covers = λ b k h. h;
  live = λ b w t k h l. l;
  asked = λ b w t (l, m, hb, hw, ht).
      let (x, mx, e) = Mem-update_where p f l db.requests m in
      let fields = kept x l e in (x, mx, sym fields.0 ∙ hb, sym fields.1 ∙ hw, sym fields.2 ∙ ht);
  asking = λ b w t (l, m, hb, hw, ht).
      let fields = kept l (if p l then f l else l) refl in
      (
        if p l then f l else l,
        update_where-Mem p f l db.requests m,
        fields.0 ∙ hb,
        fields.1 ∙ hw,
        fields.2 ∙ ht,
      );
  wants = λ b k h. h;
}
  where
    kept :
        (x l : RequestRow)
        → l ≡ (if p x then f x else x)
        → (l.batch_id ≡ x.batch_id) × (l.workspace_id ≡ x.workspace_id) × (l.task_id ≡ x.task_id)
    kept x l e = ground (arith, keeps.batch_id x, keeps.workspace_id x, keeps.task_id x)

set_slots-Shrinks :
    (p : LeaseResourceRow → Bool) (v : Option Text) (db : Db)
    → Shrinks db (record db {
      lease_resources =
          update_where p (λ r. record r { in_flight_attempt_id = v }) db.lease_resources;
    })
unfolding Leased Covers Asked Wants
set_slots-Shrinks p v db = record {
  leased = λ b w t h. h;
  covers = λ b k (l, m, hb, hk).
      let (x, mx, e) =
        Mem-update_where p (λ r. record r { in_flight_attempt_id = v }) l db.lease_resources m in
      let fields = kept x l e in (x, mx, sym fields.0 ∙ hb, sym fields.1 ∙ hk);
  live = λ b w t k h l. l;
  asked = λ b w t h. h;
  asking = λ b w t h. h;
  wants = λ b k h. h;
}
  where
    kept :
        (x l : LeaseResourceRow)
        → l ≡ (if p x then record x { in_flight_attempt_id = v } else x)
        → (l.batch_id ≡ x.batch_id) × (l.resource ≡ x.resource)
    kept x l e = ground arith

pub shrinks : Quiet Shrinks
unfolding drain_leases
shrinks = record {
  preorder = Shrinks-Preorder;
  set_tasks = λ v db. unchanged db _ refl refl refl refl;
  set_processes = λ v db. unchanged db _ refl refl refl refl;
  set_resources = λ v db. unchanged db _ refl refl refl refl;
  set_aliases = λ v db. unchanged db _ refl refl refl refl;
  set_evidence = λ v db. unchanged db _ refl refl refl refl;
  set_intents = λ v db. unchanged db _ refl refl refl refl;
  set_reads = λ v db. unchanged db _ refl refl refl refl;
  set_writes = λ v db. unchanged db _ refl refl refl refl;
  set_audit = λ v db. unchanged db _ refl refl refl refl;
  set_lease_queue = λ v db. unchanged db _ refl refl refl refl;
  set_uuids_drawn = λ v db. unchanged db _ refl refl refl refl;
  set_slots = set_slots-Shrinks;
  delete = delete-Shrinks;
  drain = λ p db. update_leases-Shrinks p _ db (λ l. refl) (λ l. refl) (λ l. refl);
  set_terms = λ b v e db. update_leases-Shrinks _ _ db (λ l. refl) (λ l. refl) (λ l. refl);
  update = update_requests-Shrinks;
}

-- A relation that holds wherever leases only shrink.
pub quiet_of : (R : Db → Db → Type 0) → Preorder R → ((a b : Db) → Shrinks a b → R a b) → Quiet R
quiet_of R pre from = record {
  preorder = pre;
  set_tasks = λ v db. from _ _ (shrinks.set_tasks v db);
  set_processes = λ v db. from _ _ (shrinks.set_processes v db);
  set_resources = λ v db. from _ _ (shrinks.set_resources v db);
  set_aliases = λ v db. from _ _ (shrinks.set_aliases v db);
  set_evidence = λ v db. from _ _ (shrinks.set_evidence v db);
  set_intents = λ v db. from _ _ (shrinks.set_intents v db);
  set_reads = λ v db. from _ _ (shrinks.set_reads v db);
  set_writes = λ v db. from _ _ (shrinks.set_writes v db);
  set_audit = λ v db. from _ _ (shrinks.set_audit v db);
  set_lease_queue = λ v db. from _ _ (shrinks.set_lease_queue v db);
  set_uuids_drawn = λ v db. from _ _ (shrinks.set_uuids_drawn v db);
  set_slots = λ p v db. from _ _ (shrinks.set_slots p v db);
  delete = λ p db. from _ _ (shrinks.delete p db);
  drain = λ p db. from _ _ (shrinks.drain p db);
  set_terms = λ b v e db. from _ _ (shrinks.set_terms b v e db);
  update = λ p f k db. from _ _ (shrinks.update p f k db);
}
