-- ===== src/Store/Exclusion/Conflicts.antt =====
-- No conflicting owner means that nobody else holds what overlaps.
use stateful_core.Base.{
  Text, text, true, false, Option, List, [], ◌∷◌, ◌++◌, map, ◌≡◌, refl, sym, ap, ◌∙◌, subst, arith,
  Mem, filter, inl, inr, Bool-cases, text_eq, text_eq-eq, text_eq_refl, any-Mem, filter-Mem,
}
use stateful_core.Coordination.{ResourceKey}
use stateful_core.Resource.{resource_keys_overlap}
use stateful_core.Store.Models.{CommandContext}
use stateful_core.Store.Tables.{Db, LeaseRow, LeaseResourceRow}
use stateful_core.Store.Leases.{
  set_insert, insert_names, conflicting_owners, other_leases, lease_hits, holders, offer_holders,
}
use stateful_core.Store.Exclusion.{Leased, Covers, Exclusive}
use stateful_core.Store.Exclusion.Growth.{AtHome, Clear}

set_insert-nonempty : (t : Text) (us : List Text) → set_insert t us ≡ [] → ⊥
unfolding set_insert
set_insert-nonempty t [] h = cc
set_insert-nonempty t (u ∷ us) h = ground arith

insert_names-empty :
    (p : Text) (ts names : List Text) → insert_names p ts names ≡ [] → (ts ≡ []) × (names ≡ [])
unfolding insert_names
insert_names-empty p [] names h = (refl, h)
insert_names-empty p (t ∷ ts) names h =
    elim (set_insert-nonempty (p ++ t) names
      (insert_names-empty p ts (set_insert (p ++ t) names) h).1) [ ]

-- Both lists of names are empty, so no lease of another task hits the resources.
no_holder :
    (w t : Text) (rs : List ResourceKey) (o : Option Text) (db : Db)
    → conflicting_owners w t rs o db ≡ []
    → holders w t rs db ≡ []
unfolding conflicting_owners
no_holder w t rs o db h =
    (insert_names-empty (text "task:") (holders w t rs db) []
      (insert_names-empty (text "offer:") (offer_holders w t rs o db) _ h).1).0

map-nonempty : {A B : Type 0} (f : A → B) (x : A) (xs : List A) → Mem x xs → map f xs ≡ [] → ⊥
map-nonempty f x [] m h = m
map-nonempty f x (y ∷ ys) m h = cc

pub overlap-workspace :
    (a b : ResourceKey) → resource_keys_overlap a b ≡ true → a.workspace_id ≡ b.workspace_id
unfolding resource_keys_overlap
overlap-workspace a b h = text_eq-eq a.workspace_id b.workspace_id (ground arith)

module _ (ctx : CommandContext) (rs : List ResourceKey) (home : AtHome ctx rs) (db : Db) where
  -- The lease of another task would be in the list.
  hit :
      (b : Text) (l : LeaseRow) (r : LeaseResourceRow) (k : ResourceKey)
      → Mem l db.leases
      → l.batch_id ≡ b
      → l.workspace_id ≡ ctx.workspace_id
      → text_eq l.task_id ctx.task_id ≡ false
      → Mem r db.lease_resources
      → r.batch_id ≡ b
      → r.resource.workspace_id ≡ ctx.workspace_id
      → Mem k rs
      → resource_keys_overlap k r.resource ≡ true
      → Mem l (
          filter (lease_hits ctx.workspace_id db rs) (other_leases ctx.workspace_id ctx.task_id db))
  hit b l r k ml hb hw ht mr hrb hrw mk o =
      let place = ap (λ x. text_eq x ctx.workspace_id) hw ∙ text_eq_refl ctx.workspace_id in
      let other = filter-Mem _ l db.leases ml (ground arith) in
      let batch = ap (λ x. text_eq r.batch_id x) (hb ∙ sym hrb) ∙ text_eq_refl r.batch_id in
      let key =
        any-Mem
          (λ x. resource_keys_overlap x (record r.resource { workspace_id = ctx.workspace_id })) k
          rs mk
          (subst (λ x. resource_keys_overlap k (record r.resource { workspace_id = x }) ≡ true) hrw
            o) in
      filter-Mem _ l _ other (any-Mem _ r db.lease_resources mr (ground arith))

  pub no_conflict-Clear :
      (o : Option Text)
      → Exclusive db
      → conflicting_owners ctx.workspace_id ctx.task_id rs o db ≡ []
      → Clear ctx rs db
  unfolding Leased Covers
  no_conflict-Clear o exclusive none_else b w t k k' (l, ml, hb, hw, ht) (r, mr, hrb, hrk) m over =
      let at_w = exclusive.at_home b w t k' (l, ml, hb, hw, ht) (r, mr, hrb, hrk) in
      let here = sym (overlap-workspace k k' over) ∙ home k m in
      elim (Bool-cases (text_eq l.task_id ctx.task_id)) [
        | inl same ↦ sym ht ∙ text_eq-eq l.task_id ctx.task_id same
        | inr other ↦
            let found =
              hit b l r k ml hb (hw ∙ sym at_w ∙ here) other mr hrb
                (ap (λ (x : ResourceKey). x.workspace_id) hrk ∙ here) m
                (ap (resource_keys_overlap k) hrk ∙ over) in
            elim (map-nonempty (λ (x : LeaseRow). x.task_id) l _ found
              (no_holder ctx.workspace_id ctx.task_id rs o db none_else)) [ ]
      ]
