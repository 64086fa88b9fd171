-- ===== src/Store/Exclusion/Rows.antt =====
-- New lease and request rows keep the leases of different tasks apart.
use stateful_core.Base.{
  Text, false, some, List, [], ◌∷◌, ◌≡◌, refl, sym, ap, ◌∙◌, subst, Mem, any, ◌⊎◌, inl, inr,
  text_eq, text_eq_refl, Mem-any, Mem-append, append-Mem, Mem-map,
}
use stateful_core.Coordination.{ResourceKey}
use stateful_core.Store.Models.{CommandContext}
use stateful_core.Store.Tables.{Db, LeaseRow, RequestRow, RequestResourceRow}
use stateful_core.Store.Leases.{add_lease}
use stateful_core.Store.Exclusion.{Leased, Covers, Asked, Wants, Exclusive}
use stateful_core.Store.Exclusion.Growth.{Clear, Ready}
use stateful_core.Store.Queue.{add_request}

-- A lease of a new batch covers nothing yet.
module _ (row : LeaseRow) (db : Db) where
  Leased-add :
      (b w t : Text)
      → Leased (add_lease row db) b w t
      → Leased db b w t ⊎ (b ≡ row.batch_id) × (w ≡ row.workspace_id) × (t ≡ row.task_id)
  unfolding Leased
  Leased-add b w t (r, m, hb, hw, ht) = elim (Mem-append r db.leases (row ∷ []) m) [
    | inl old ↦ inl (r, old, hb, hw, ht)
    | inr (inr absent) ↦ elim absent [ ]
    | inr (inl new) ↦ inr (
      sym hb ∙ ap (λ (x : LeaseRow). x.batch_id) new,
      sym hw ∙ ap (λ (x : LeaseRow). x.workspace_id) new,
      sym ht ∙ ap (λ (x : LeaseRow). x.task_id) new,
    )
  ]

  Leased-kept : (b w t : Text) → Leased db b w t → Leased (add_lease row db) b w t
  unfolding Leased
  Leased-kept b w t (r, m, h, hw, ht) = (r, append-Mem r db.leases (row ∷ []) (inl m), h, hw, ht)

  module _ (exclusive : Exclusive db)
      (new : any (λ (l : LeaseRow). text_eq l.batch_id row.batch_id) db.leases ≡ false) where
    no_lease : (b w t : Text) → Leased db b w t → b ≡ row.batch_id → ⊥
    unfolding Leased
    no_lease b w t (l, m, hb, hw, ht) e =
        let absent = Mem-any _ l db.leases m new in
        let present = text_eq_refl row.batch_id in let same = hb ∙ e in cc

    no_cover : (b : Text) (k : ResourceKey) → Covers db b k → b ≡ row.batch_id → ⊥
    no_cover b k c e = let (w, t, l) = exclusive.owned b k c in no_lease b w t l e

    -- The lease of a covered resource is an old one.
    old_lease :
        (b w t : Text) (k : ResourceKey)
        → Covers db b k
        → Leased (add_lease row db) b w t
        → Leased db b w t
    old_lease b w t k c l = elim (Leased-add b w t l) [
      | inl old ↦ old
      | inr (hb, hw, ht) ↦ elim (no_cover b k c hb) [ ]
    ]

    one_owner_of :
        (b w t w' t' : Text)
        → Leased db b w t ⊎ (b ≡ row.batch_id) × (w ≡ row.workspace_id) × (t ≡ row.task_id)
        → Leased db b w' t' ⊎ (b ≡ row.batch_id) × (w' ≡ row.workspace_id) × (t' ≡ row.task_id)
        → (w ≡ w') × (t ≡ t')
    one_owner_of b w t w' t' (inl l) (inl l') = exclusive.one_owner b w t w' t' l l'
    one_owner_of b w t w' t' (inl l) (inr (hb, hw, ht)) = elim (no_lease b w t l hb) [ ]
    one_owner_of b w t w' t' (inr (hb, hw, ht)) (inl l) = elim (no_lease b w' t' l hb) [ ]
    one_owner_of b w t w' t' (inr (hb, hw, ht)) (inr (hb', hw', ht')) = (hw ∙ sym hw', ht ∙ sym ht')

    add_lease-Exclusive : Exclusive (add_lease row db)
    unfolding Covers Asked Wants
    add_lease-Exclusive = record {
      one_owner =
          λ b w t w' t' l l'. one_owner_of b w t w' t' (Leased-add b w t l) (Leased-add b w' t' l');
      at_home = λ b w t k l c. exclusive.at_home b w t k (old_lease b w t k c l) c;
      owned = λ b k c. let (w, t, l) = exclusive.owned b k c in (w, t, Leased-kept b w t l);
      apart = λ b w t k b' w' t' k' l c l' c'.
          exclusive.apart b w t k b' w' t' k' (old_lease b w t k c l) c
            (old_lease b' w' t' k' c' l') c';
      asked_at_home = exclusive.asked_at_home;
      asked_owned = exclusive.asked_owned;
    }

    mine_of :
        (w t : Text)
        → Leased db row.batch_id w t
          ⊎ (row.batch_id ≡ row.batch_id) × (w ≡ row.workspace_id) × (t ≡ row.task_id)
        → (w ≡ row.workspace_id) × (t ≡ row.task_id)
    mine_of w t (inl l) = elim (no_lease row.batch_id w t l refl) [ ]
    mine_of w t (inr (hb, hw, ht)) = (hw, ht)

    pub add_lease-Ready :
        (ctx : CommandContext) (rs : List ResourceKey)
        → row.workspace_id ≡ ctx.workspace_id
        → row.task_id ≡ ctx.task_id
        → Clear ctx rs db
        → Ready ctx rs (some row.batch_id) (add_lease row db)
    unfolding Covers
    add_lease-Ready ctx rs hw ht clear = record {
      exclusive = add_lease-Exclusive;
      clear = λ b w t k k' l c. clear b w t k k' (old_lease b w t k' c l) c;
      mine =
          λ w t l. let (ew, et) = mine_of w t (Leased-add row.batch_id w t l) in (ew ∙ hw, et ∙ ht);
    }

-- A request of a new batch for resources of its workspace.
module _ (row : RequestRow) (rs : List ResourceKey) (db : Db) where
  Asked-add :
      (b w t : Text)
      → Asked (add_request row rs db) b w t
      → Asked db b w t ⊎ (b ≡ row.batch_id) × (w ≡ row.workspace_id) × (t ≡ row.task_id)
  unfolding Asked
  Asked-add b w t (r, m, hb, hw, ht) = elim (Mem-append r db.requests (row ∷ []) m) [
    | inl old ↦ inl (r, old, hb, hw, ht)
    | inr (inr absent) ↦ elim absent [ ]
    | inr (inl new) ↦ inr (
      sym hb ∙ ap (λ (x : RequestRow). x.batch_id) new,
      sym hw ∙ ap (λ (x : RequestRow). x.workspace_id) new,
      sym ht ∙ ap (λ (x : RequestRow). x.task_id) new,
    )
  ]

  Asked-kept : (b w t : Text) → Asked db b w t → Asked (add_request row rs db) b w t
  unfolding Asked
  Asked-kept b w t (r, m, h, hw, ht) = (r, append-Mem r db.requests (row ∷ []) (inl m), h, hw, ht)

  Asked-new : Asked (add_request row rs db) row.batch_id row.workspace_id row.task_id
  unfolding Asked
  Asked-new = (row, append-Mem row db.requests (row ∷ []) (inr (inl refl)), refl, refl, refl)

  Wants-add :
      (b : Text) (k : ResourceKey)
      → Wants (add_request row rs db) b k
      → Wants db b k ⊎ (b ≡ row.batch_id) × Mem k rs
  unfolding Wants
  Wants-add b k (r, m, hb, hk) = elim (Mem-append r db.request_resources _ m) [
    | inl old ↦ inl (r, old, hb, hk)
    | inr new ↦
        let (x, mx, e) = Mem-map _ r rs new in
        inr (
          sym hb ∙ ap (λ (y : RequestResourceRow). y.batch_id) e,
          subst (λ y. Mem y rs) (sym (ap (λ (y : RequestResourceRow). y.resource) e) ∙ hk) mx,
        )
  ]

  module _ (exclusive : Exclusive db)
      (new : any (λ (q : RequestRow). text_eq q.batch_id row.batch_id) db.requests ≡ false)
      (home : (k : ResourceKey) → Mem k rs → k.workspace_id ≡ row.workspace_id) where
    no_request : (b w t : Text) → Asked db b w t → b ≡ row.batch_id → ⊥
    unfolding Asked
    no_request b w t (l, m, hb, hw, ht) e =
        let absent = Mem-any _ l db.requests m new in
        let present = text_eq_refl row.batch_id in let same = hb ∙ e in cc

    request_home_of :
        (b w t : Text) (k : ResourceKey)
        → Asked db b w t ⊎ (b ≡ row.batch_id) × (w ≡ row.workspace_id) × (t ≡ row.task_id)
        → Wants db b k ⊎ (b ≡ row.batch_id) × Mem k rs
        → k.workspace_id ≡ w
    request_home_of b w t k (inl q) (inl r) = exclusive.asked_at_home b w t k q r
    request_home_of b w t k (inl q) (inr (hb, m)) = elim (no_request b w t q hb) [ ]
    request_home_of b w t k (inr (hb, hw, ht)) (inl r) =
        let (w', t', q) = exclusive.asked_owned b k r in elim (no_request b w' t' q hb) [ ]
    request_home_of b w t k (inr (hb, hw, ht)) (inr (_, m)) = home k m ∙ sym hw

    request_owner_of :
        (b : Text) (k : ResourceKey)
        → Wants db b k ⊎ (b ≡ row.batch_id) × Mem k rs
        → (w : Text) × (t : Text) × Asked (add_request row rs db) b w t
    request_owner_of b k (inl r) =
        let (w, t, q) = exclusive.asked_owned b k r in (w, t, Asked-kept b w t q)
    request_owner_of b k (inr (hb, m)) = (
      row.workspace_id,
      row.task_id,
      subst (λ x. Asked (add_request row rs db) x row.workspace_id row.task_id) (sym hb) Asked-new,
    )

    pub add_request-Exclusive : Exclusive (add_request row rs db)
    unfolding Leased Covers
    add_request-Exclusive = record {
      one_owner = exclusive.one_owner;
      at_home = exclusive.at_home;
      owned = exclusive.owned;
      apart = exclusive.apart;
      asked_at_home = λ b w t k q r. request_home_of b w t k (Asked-add b w t q) (Wants-add b k r);
      asked_owned = λ b k r. request_owner_of b k (Wants-add b k r);
    }
