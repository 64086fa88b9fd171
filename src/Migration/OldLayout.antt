-- ===== src/Migration/OldLayout.antt =====
-- `find_layout` of crates/stateful-store/src/migration_v2.rs, run on an old database.
use stateful_core.Base.{Bool, true, false, Option, ◌≡◌, refl, ◌∙◌, ◌⊎◌, inl, inr}
use stateful_core.Migration.Disk.{main, Disk, FileSet, Action}
use stateful_core.Migration.Sqlite.{Sqlite}
use stateful_core.Migration.Triple.{Triple, pure-Triple, ◌then◌}
use stateful_core.Migration.Keeps.{query-Keeps, query-Triple}
use stateful_core.Migration.Opening.{
  FoundLayout, legacy, unknown, after_empty, after_marker, after_v2, find_layout,
}
use stateful_core.Migration.Sqlite.{has_v2_marker, is_v2_database, is_empty_database}
use stateful_core.Migration.Layout.{has_legacy_layout}
use stateful_core.Base.{if◌then◌else◌}
use stateful_core.Migration.Safe.{IsLegacy, Untouched}

-- A step that a fact about its argument allows, where the state gives this fact.
module _ {A : Type 0} {P I : Disk → Type 0} {F : Disk → Type 0} {Q : A → Disk → Type 0} where
  given :
      {m : Action A} (b : Bool)
      → ((disk : Disk) → F disk → P disk → b ≡ false)
      → (b ≡ false → Triple P m Q I)
      → Triple (λ disk. P disk × F disk) m Q I
  given b fact t = record { holds = λ disk fate i. (t (fact disk i.1 i.0)).holds disk fate i.0 }

module _ {D : Type 0} (data_of : FileSet → Option D) (d : D) (db : Sqlite)
    (is_old : IsLegacy data_of db d) where
  -- Only these two are found in an old database.
  abbrev pub IsOld : FoundLayout → Type 0
  IsOld layout = (layout ≡ legacy) ⊎ (layout ≡ unknown)

  abbrev pub OldAt : FoundLayout → Disk → Type 0
  OldAt layout disk = Untouched data_of d disk × IsOld layout

  IsOld-layout : (b : Bool) → IsOld (if b then legacy else unknown)
  IsOld-layout true = inl refl
  IsOld-layout false = inr refl

  after_empty-Old :
      (b : Bool)
      → b ≡ false
      → Triple (Untouched data_of d) (after_empty db b) OldAt (Untouched data_of d)
  unfolding after_empty
  after_empty-Old true h = cc
  after_empty-Old false h = query-Keeps db has_legacy_layout main then λ is_legacy.
      pure-Triple _ (λ disk i. (i, IsOld-layout is_legacy))

  after_marker-Old :
      (b : Bool)
      → b ≡ false
      → Triple (Untouched data_of d) (after_marker db b) OldAt (Untouched data_of d)
  unfolding after_marker
  after_marker-Old true h = cc
  after_marker-Old false h = query-Triple db is_empty_database main then λ b.
      given b (λ disk e i. e ∙ is_old.not_empty (disk main) i.1) (after_empty-Old b)

  after_v2-Old :
      (b : Bool)
      → b ≡ false
      → Triple (Untouched data_of d) (after_v2 db b) OldAt (Untouched data_of d)
  unfolding after_v2
  after_v2-Old true h = cc
  after_v2-Old false h = query-Triple db has_v2_marker main then λ b.
      given b (λ disk e i. e ∙ is_old.not_marked (disk main) i.1) (after_marker-Old b)

  pub find_layout-Old : Triple (Untouched data_of d) (find_layout db) OldAt (Untouched data_of d)
  unfolding find_layout
  find_layout-Old = query-Triple db (is_v2_database db) main then λ b.
      given b (λ disk e i. e ∙ is_old.not_v2 (disk main) i.1) (after_v2-Old b)
