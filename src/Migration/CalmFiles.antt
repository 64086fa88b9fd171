-- ===== src/Migration/CalmFiles.antt =====
-- The helpers on files are done when every access proceeds and no file is irregular.
use stateful_core.Base.{
  Text, Bool, true, false, Option, none, some, [], ◌∷◌, ◌++◌, ◌≡◌, refl, sym, ◌∙◌, subst,
}
use stateful_core.Migration.Disk.{
  Place, Suffix, plain, wal, shm, journal, Node, regular, irregular, Disk, put, effect, for_each,
}
use stateful_core.Migration.Disk.{when}
use stateful_core.Migration.Files.{
  node_exists, with_disk, open_node, renamed, regular_file_exists, restrict_file_permissions,
  sync_parent, read_file, write_from, remove_file_if_exists, remove_database_sidecars,
  remove_database_set, create_private_file, rename,
}
use stateful_core.Migration.Sqlite.{node_of}
use stateful_core.Base.{◌==◌}
use stateful_core.Migration.Disk.{suffix_index}
use stateful_core.Migration.Changes.{IsFound, put_same, place_index_same}
use stateful_core.Migration.Calm.{
  Total, IsOk, access-Total, pure-Total, weaken-Total, ◌next◌, effect-Total, fail_if-Total,
  IsRegular, AllRegular,
}

-- `P` is kept when the file is removed or written.
abbrev pub KeptAt : (Disk → Type 0) → Place → Suffix → Type 0
KeptAt P p s = (content : Option Text) (disk : Disk) → P disk → P (put p s (node_of content) disk)

IsFound-IsOk :
    (P : Disk → Type 0) (p : Place) (s : Suffix) (disk : Disk) (entry : Option Node)
    → disk p s ≡ entry
    → IsRegular entry
    → P disk
    → IsOk (λ found disk'. P disk' × IsFound found (disk' p s)) (with_disk disk (node_exists entry))
IsFound-IsOk P p s disk none e r i = (i, e)
IsFound-IsOk P p s disk (some (regular c)) e r i = (i, (c, e))
IsFound-IsOk P p s disk (some irregular) e r i = elim r [ ]

module _ {P : Disk → Type 0} (all_regular : (disk : Disk) → P disk → AllRegular disk) where
  pub regular_file_exists-Total :
      (p : Place) (s : Suffix)
      → Total P (regular_file_exists p s) (λ found disk. P disk × IsFound found (disk p s))
  unfolding regular_file_exists
  regular_file_exists-Total p s =
      access-Total (λ disk. with_disk disk (node_exists (disk p s)))
        (λ disk i. IsFound-IsOk P p s disk (disk p s) refl (all_regular disk i p s) i)

  pub idle-Total : Total P (effect (λ disk. disk)) (λ _. P)
  idle-Total = effect-Total (λ disk. disk) (λ disk i. i)

  pub sync_parent-Total : Total P sync_parent (λ _. P)
  unfolding sync_parent
  sync_parent-Total = idle-Total

  idle_if :
      (p : Place) (s : Suffix) (found : Bool)
      → Total
          (λ disk. P disk × IsFound found (disk p s))
          (when found (effect (λ disk. disk)))
          (λ _. P)
  unfolding when
  idle_if p s true = effect-Total (λ disk. disk) (λ disk i. i.0)
  idle_if p s false = pure-Total tt (λ disk i. i.0)

  pub restrict_file_permissions-Total :
      (p : Place) (s : Suffix) → Total P (restrict_file_permissions p s) (λ _. P)
  unfolding restrict_file_permissions
  restrict_file_permissions-Total p s =
      regular_file_exists-Total p s next λ found. idle_if p s found

  -- A removed file is gone.
  remove_if :
      (p : Place) (s : Suffix)
      → KeptAt P p s
      → (found : Bool)
      → Total
          (λ disk. P disk × IsFound found (disk p s))
          (when found (effect (put p s none)))
          (λ _ disk. P disk × (disk p s ≡ none))
  unfolding when
  remove_if p s kept true =
      effect-Total (put p s none) (λ disk i. (kept none disk i.0, put_same p s none disk))
  remove_if p s kept false = pure-Total tt (λ disk i. i)

  pub remove_file_if_exists-Total :
      (p : Place) (s : Suffix)
      → KeptAt P p s
      → Total P (remove_file_if_exists p s) (λ _ disk. P disk × (disk p s ≡ none))
  unfolding remove_file_if_exists
  remove_file_if_exists-Total p s kept =
      regular_file_exists-Total p s next λ found. remove_if p s kept found

  remove_sidecar-Total :
      (p : Place) (s : Suffix) → KeptAt P p s → Total P (remove_file_if_exists p s) (λ _. P)
  remove_sidecar-Total p s kept =
      weaken-Total (remove_file_if_exists p s) (λ disk i. i) (λ _ disk i. i.0)
        (remove_file_if_exists-Total p s kept)

  remove_database_sidecars-Total :
      (p : Place)
      → KeptAt P p wal
      → KeptAt P p shm
      → KeptAt P p journal
      → Total P (remove_database_sidecars p) (λ _. P)
  unfolding remove_database_sidecars for_each
  remove_database_sidecars-Total p kw ks kj = remove_sidecar-Total p wal kw next λ _.
      remove_sidecar-Total p shm ks next λ _.
      remove_sidecar-Total p journal kj next λ _. pure-Total tt (λ disk i. i)

module _ {P : Disk → Type 0} (all_regular : (disk : Disk) → P disk → AllRegular disk) where
  plain_stays :
      (p : Place) (s : Suffix) (disk : Disk) (content : Option Text)
      → suffix_index s == 0 ≡ false
      → put p s (node_of content) disk p plain ≡ disk p plain
  plain_stays p s disk content e = rw (place_index_same p, e) refl

  pub remove_database_set-Total :
      (p : Place)
      → ((s : Suffix) → KeptAt P p s)
      → Total P (remove_database_set p) (λ _ disk. P disk × (disk p plain ≡ none))
  unfolding remove_database_set
  remove_database_set-Total p kept =
      remove_file_if_exists-Total all_regular p plain (kept plain) next λ _.
      remove_database_sidecars-Total (λ disk i. all_regular disk i.0) p
        (λ c disk i. (kept wal c disk i.0, plain_stays p wal disk c refl ∙ i.1))
        (λ c disk i. (kept shm c disk i.0, plain_stays p shm disk c refl ∙ i.1))
        (λ c disk i. (kept journal c disk i.0, plain_stays p journal disk c refl ∙ i.1))

  -- A file is created where there is none.
  pub create_private_file-Total :
      (p : Place)
      → KeptAt P p plain
      → Total
          (λ disk. P disk × (disk p plain ≡ none))
          (create_private_file p)
          (λ _ disk. P disk × (disk p plain ≡ some (regular [])))
  unfolding create_private_file
  create_private_file-Total p kept =
      regular_file_exists-Total (λ disk i. all_regular disk i.0) p plain next λ found.
      fail_if-Total found _ (λ disk i. absent (disk p plain) found i.1 i.0.1) next λ _.
      effect-Total (put p plain (some (regular [])))
        (λ disk i. (kept (some []) disk i.0.0, put_same p plain _ disk))
      next λ _. restrict_file_permissions-Total (λ disk i. all_regular disk i.0) p plain
    where
      absent :
          (entry : Option Node) (found : Bool) → IsFound found entry → entry ≡ none → found ≡ false
      absent entry false f e = refl
      absent entry true (c, f) e = cc

  pub write_from-Total :
      (p : Place) (s : Suffix)
      → KeptAt P p s
      → (written rest : Text)
      → Total
          (λ disk. P disk × ((c : Text) × (disk p s ≡ some (regular c))))
          (write_from p s written rest)
          (λ _ disk. P disk × ((c : Text) × (disk p s ≡ some (regular c))))
  unfolding write_from
  write_from-Total p s kept written [] = pure-Total tt (λ disk i. i)
  write_from-Total p s kept written (c ∷ cs) =
      effect-Total (put p s (some (regular (written ++ c ∷ [])))) (λ disk i.
        (kept (some (written ++ c ∷ [])) disk i.0, (written ++ c ∷ [], put_same p s _ disk)))
      next λ _. write_from-Total p s kept (written ++ c ∷ []) cs

  open_node-IsOk :
      (disk : Disk) (p : Place) (s : Suffix) (c : Text)
      → P disk
      → (entry : Option Node) → disk p s ≡ entry
      → entry ≡ some (regular c)
      → IsOk
          (λ content disk'. P disk' × (disk' p s ≡ some (regular content)))
          (open_node disk entry)
  open_node-IsOk disk p s c i none e h = cc
  open_node-IsOk disk p s c i (some (regular _)) e h = (i, e)
  open_node-IsOk disk p s c i (some irregular) e h = cc

  pub read_file-Total :
      (p : Place) (s : Suffix)
      → ((disk : Disk) → P disk → (c : Text) × (disk p s ≡ some (regular c)))
      → Total P (read_file p s) (λ content disk. P disk × (disk p s ≡ some (regular content)))
  unfolding read_file
  read_file-Total p s has =
      access-Total (λ disk. open_node disk (disk p s))
        (λ disk i. open_node-IsOk disk p s (has disk i).0 i (disk p s) refl (has disk i).1)

  pub rename-Total :
      {Q : Disk → Type 0} (p q : Place) (s : Suffix)
      → ((disk : Disk) → P disk → (c : Text) × (disk p s ≡ some (regular c)))
      → ((disk : Disk) (c : Text) → P disk → Q (put p s none (put q s (some (regular c)) disk)))
      → Total P (rename p q s) (λ _. Q)
  unfolding rename
  rename-Total {Q = Q} p q s has step =
      access-Total (λ disk. renamed disk p q s (disk p s))
        (λ disk i.
          let h = has disk i in
          subst (λ x. IsOk (λ _. Q) (renamed disk p q s x)) (sym h.1) (step disk h.0 i))
