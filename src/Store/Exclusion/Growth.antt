-- ===== src/Store/Exclusion/Growth.antt =====
-- New leases, resources and requests keep the leases of different tasks apart, if no other task
-- holds what is added.
use stateful_core.Base.{
  Text, true, Option, none, some, List, [], ◌∷◌, ◌≡◌, refl, sym, ap, ◌∙◌, subst, Mem, any, ◌⊎◌, inl,
  inr, text_eq, text_eq-eq, any-found, Mem-append,
}
use stateful_core.Coordination.{ResourceKey}
use stateful_core.Resource.{resource_keys_overlap}
use stateful_core.Resource.Overlap.{resource_keys_overlap_comm}
use stateful_core.Store.Models.{CommandContext}
use stateful_core.Store.Tables.{Db, LeaseRow, LeaseResourceRow}
use stateful_core.Store.Leases.{add_lease_resource}
use stateful_core.Store.Exclusion.{Leased, Covers, Asked, Wants, Exclusive}

-- The resources are of the context's workspace.
abbrev pub AtHome : CommandContext → List ResourceKey → Type 0
AtHome ctx rs = (k : ResourceKey) → Mem k rs → k.workspace_id ≡ ctx.workspace_id

-- Only the context's task holds what overlaps the resources.
abbrev pub Clear : CommandContext → List ResourceKey → Db → Type 0
Clear ctx rs db =
    (b w t : Text) (k k' : ResourceKey)
    → Leased db b w t
    → Covers db b k'
    → Mem k rs
    → resource_keys_overlap k k' ≡ true
    → t ≡ ctx.task_id

-- A lease of the batch is the context's.
abbrev pub Mine : CommandContext → Option Text → Db → Type 0
Mine ctx none db = Unit
Mine ctx (some b) db = (w t : Text) → Leased db b w t → (w ≡ ctx.workspace_id) × (t ≡ ctx.task_id)

-- The batch may grow by the resources.
pub record Ready (ctx : CommandContext) (rs : List ResourceKey) (o : Option Text) (db : Db)
    : Type 0 where
  pub exclusive : Exclusive db
  pub clear : Clear ctx rs db
  pub mine : Mine ctx o db

Covers-add :
    (row : LeaseResourceRow) (db : Db) (b : Text) (k : ResourceKey)
    → Covers (add_lease_resource row db) b k
    → Covers db b k ⊎ (b ≡ row.batch_id) × (k ≡ row.resource)
unfolding Covers
Covers-add row db b k (r, m, hb, hk) = elim (Mem-append r db.lease_resources (row ∷ []) m) [
  | inl old ↦ inl (r, old, hb, hk)
  | inr (inr absent) ↦ elim absent [ ]
  | inr (inl new) ↦ inr (
    sym hb ∙ ap (λ (x : LeaseResourceRow). x.batch_id) new,
    sym hk ∙ ap (λ (x : LeaseResourceRow). x.resource) new,
  )
]

module _ (ctx : CommandContext) (rs : List ResourceKey) (home : AtHome ctx rs)
    (row : LeaseResourceRow) (among : Mem row.resource rs) (db : Db)
    (ready : Ready ctx rs (some row.batch_id) db) where
  own :
      (b w t : Text)
      → Leased db b w t
      → b ≡ row.batch_id
      → (w ≡ ctx.workspace_id) × (t ≡ ctx.task_id)
  own b w t l hb = ready.mine w t (subst (λ x. Leased db x w t) hb l)

  apart_of :
      (b w t : Text) (k : ResourceKey) (b' w' t' : Text) (k' : ResourceKey)
      → Leased db b w t
      → Covers db b k ⊎ (b ≡ row.batch_id) × (k ≡ row.resource)
      → Leased db b' w' t'
      → Covers db b' k' ⊎ (b' ≡ row.batch_id) × (k' ≡ row.resource)
      → resource_keys_overlap k k' ≡ true
      → t ≡ t'
  apart_of b w t k b' w' t' k' l (inl c) l' (inl c') o =
      ready.exclusive.apart b w t k b' w' t' k' l c l' c' o
  apart_of b w t k b' w' t' k' l (inl c) l' (inr (hb, hk)) o =
      ready.clear b w t k' k l c (subst (λ x. Mem x rs) (sym hk) among)
        (resource_keys_overlap_comm k' k ∙ o)
      ∙ sym (own b' w' t' l' hb).1
  apart_of b w t k b' w' t' k' l (inr (hb, hk)) l' (inl c') o =
      (own b w t l hb).1
      ∙ sym (ready.clear b' w' t' k k' l' c' (subst (λ x. Mem x rs) (sym hk) among) o)
  apart_of b w t k b' w' t' k' l (inr (hb, hk)) l' (inr (hb', hk')) o =
      (own b w t l hb).1 ∙ sym (own b' w' t' l' hb').1

  at_home_of :
      (b w t : Text) (k : ResourceKey)
      → Leased db b w t
      → Covers db b k ⊎ (b ≡ row.batch_id) × (k ≡ row.resource)
      → k.workspace_id ≡ w
  at_home_of b w t k l (inl c) = ready.exclusive.at_home b w t k l c
  at_home_of b w t k l (inr (hb, hk)) =
      ap (λ (x : ResourceKey). x.workspace_id) hk ∙ home row.resource among ∙ sym (own b w t l hb).0

  clear_of :
      (b w t : Text) (k k' : ResourceKey)
      → Leased db b w t
      → Covers db b k' ⊎ (b ≡ row.batch_id) × (k' ≡ row.resource)
      → Mem k rs
      → resource_keys_overlap k k' ≡ true
      → t ≡ ctx.task_id
  clear_of b w t k k' l (inl c) m o = ready.clear b w t k k' l c m o
  clear_of b w t k k' l (inr (hb, hk)) m o = (own b w t l hb).1

  owned_of :
      (b : Text) (k : ResourceKey)
      → any (λ (l : LeaseRow). text_eq l.batch_id row.batch_id) db.leases ≡ true
      → Covers db b k ⊎ (b ≡ row.batch_id) × (k ≡ row.resource)
      → (w : Text) × (t : Text) × Leased db b w t
  unfolding Leased
  owned_of b k leased (inl c) = ready.exclusive.owned b k c
  owned_of b k leased (inr (hb, hk)) =
      let (l, m, e) = any-found _ db.leases leased in
      (l.workspace_id, l.task_id, (l, m, text_eq-eq l.batch_id row.batch_id e ∙ sym hb, refl, refl))

  pub add_resource-Ready :
      any (λ (l : LeaseRow). text_eq l.batch_id row.batch_id) db.leases ≡ true
      → Ready ctx rs (some row.batch_id) (add_lease_resource row db)
  unfolding Leased Asked Wants
  add_resource-Ready leased = record {
    exclusive = record {
      one_owner = ready.exclusive.one_owner;
      at_home = λ b w t k l c. at_home_of b w t k l (Covers-add row db b k c);
      owned = λ b k c. owned_of b k leased (Covers-add row db b k c);
      apart = λ b w t k b' w' t' k' l c l' c'.
          apart_of b w t k b' w' t' k' l (Covers-add row db b k c) l' (Covers-add row db b' k' c');
      asked_at_home = ready.exclusive.asked_at_home;
      asked_owned = ready.exclusive.asked_owned;
    };
    clear = λ b w t k k' l c. clear_of b w t k k' l (Covers-add row db b k' c);
    mine = ready.mine;
  }
