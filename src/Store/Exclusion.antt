-- ===== src/Store/Exclusion.antt =====
-- Who holds and who asks for which resource, over the tables of crates/stateful-store/src/store_v2.rs.
pub mod Quiet
pub mod Growth
pub mod Rows
pub mod Actions
pub mod Conflicts
pub mod Demands
pub mod Commands
pub mod Invariant
use stateful_core.Base.{Text, List, ◌≡◌, true, Mem}
use stateful_core.Coordination.{ResourceKey}
use stateful_core.Resource.{resource_keys_overlap}
use stateful_core.Store.Tables.{Db, LeaseRow, LeaseResourceRow, RequestRow, RequestResourceRow}

-- A batch's lease is a task's.
unfoldable pub Leased : Db → Text → Text → Text → Type 0
Leased db batch workspace task =
    (l : LeaseRow) × Mem l db.leases
    × (l.batch_id ≡ batch)
    × (l.workspace_id ≡ workspace)
    × (l.task_id ≡ task)

-- A batch covers a resource.
unfoldable pub Covers : Db → Text → ResourceKey → Type 0
Covers db batch k =
    (r : LeaseResourceRow) × Mem r db.lease_resources × (r.batch_id ≡ batch) × (r.resource ≡ k)

-- A batch's request is a task's.
unfoldable pub Asked : Db → Text → Text → Text → Type 0
Asked db batch workspace task =
    (q : RequestRow) × Mem q db.requests
    × (q.batch_id ≡ batch)
    × (q.workspace_id ≡ workspace)
    × (q.task_id ≡ task)

-- A batch asks for a resource.
unfoldable pub Wants : Db → Text → ResourceKey → Type 0
Wants db batch k =
    (r : RequestResourceRow) × Mem r db.request_resources × (r.batch_id ≡ batch) × (r.resource ≡ k)

-- Leases and requests are of one task each and name resources of its workspace, no row is
-- orphaned, and the leases of two tasks never overlap.
pub record Exclusive (db : Db) : Type 0 where
  pub one_owner : (b w t w' t' : Text) → Leased db b w t → Leased db b w' t' → (w ≡ w') × (t ≡ t')
  pub at_home :
      (b w t : Text) (k : ResourceKey) → Leased db b w t → Covers db b k → k.workspace_id ≡ w
  pub owned :
      (b : Text) (k : ResourceKey) → Covers db b k → (w : Text) × (t : Text) × Leased db b w t
  pub apart :
      (b w t : Text) (k : ResourceKey) (b' w' t' : Text) (k' : ResourceKey)
      → Leased db b w t
      → Covers db b k
      → Leased db b' w' t'
      → Covers db b' k'
      → resource_keys_overlap k k' ≡ true
      → t ≡ t'
  pub asked_at_home :
      (b w t : Text) (k : ResourceKey) → Asked db b w t → Wants db b k → k.workspace_id ≡ w
  pub asked_owned :
      (b : Text) (k : ResourceKey) → Wants db b k → (w : Text) × (t : Text) × Asked db b w t

-- Nothing is leased or asked that was not: leases may go, with their resources.
pub record Shrinks (db db' : Db) : Type 0 where
  pub leased : (b w t : Text) → Leased db' b w t → Leased db b w t
  pub covers : (b : Text) (k : ResourceKey) → Covers db' b k → Covers db b k
  pub live : (b w t : Text) (k : ResourceKey) → Covers db' b k → Leased db b w t → Leased db' b w t
  pub asked : (b w t : Text) → Asked db' b w t → Asked db b w t
  pub asking : (b w t : Text) → Asked db b w t → Asked db' b w t
  pub wants : (b : Text) (k : ResourceKey) → Wants db' b k → Wants db b k

pub Shrinks-Exclusive : (db db' : Db) → Shrinks db db' → Exclusive db → Exclusive db'
Shrinks-Exclusive db db' s e = record {
  one_owner = λ b w t w' t' l l'. e.one_owner b w t w' t' (s.leased b w t l) (s.leased b w' t' l');
  at_home = λ b w t k l c. e.at_home b w t k (s.leased b w t l) (s.covers b k c);
  owned = λ b k c. let (w, t, l) = e.owned b k (s.covers b k c) in (w, t, s.live b w t k c l);
  apart = λ b w t k b' w' t' k' l c l' c'.
      e.apart b w t k b' w' t' k' (s.leased b w t l) (s.covers b k c) (s.leased b' w' t' l')
        (s.covers b' k' c');
  asked_at_home = λ b w t k q r. e.asked_at_home b w t k (s.asked b w t q) (s.wants b k r);
  asked_owned =
      λ b k r. let (w, t, q) = e.asked_owned b k (s.wants b k r) in (w, t, s.asking b w t q);
}
