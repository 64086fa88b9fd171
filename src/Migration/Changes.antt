-- ===== src/Migration/Changes.antt =====
-- What the helpers on files achieve: a file that is removed is gone, one that is created is empty, one
-- that is written holds what was written, and a renamed one stands at its new place.
use stateful_core.Base.{
  Text, Bool, true, false, Option, none, some, List, [], ◌∷◌, ◌++◌, ◌==◌, if◌then◌else◌, ◌≡◌, refl,
  sym, ap, ◌∙◌, append-nil, append_assoc, All, Bool-cases, inl, inr,
}
use stateful_core.Migration.Disk.{
  Place, main, backup, manifest, manifest_tmp, candidate, recovery, restore, lock, Suffix, plain,
  wal, shm, journal, sidecars, Node, regular, irregular, Disk, put, place_index, suffix_index, io,
  Action, Done, effect, for_each,
}
use stateful_core.Migration.Disk.{when}
use stateful_core.Migration.Files.{
  node_exists, with_disk, open_node, renamed, regular_file_exists, restrict_file_permissions,
  read_file, write_from, remove_file_if_exists, create_private_file, rename, sync_file,
  remove_database_set, remove_database_sidecars,
}
use stateful_core.Migration.Triple.{
  Triple, Keeps, Answered, access-Triple, pure-Triple, ◌then◌, effect-Triple, fail_if-Keeps,
  weaken-Triple,
}
use stateful_core.Migration.Keeps.{
  Ignores, regular_file_exists-Keeps, restrict_file_permissions-Keeps,
}

pub place_index_same : (p : Place) → (place_index p == place_index p) ≡ true
place_index_same main = refl
place_index_same backup = refl
place_index_same manifest = refl
place_index_same manifest_tmp = refl
place_index_same candidate = refl
place_index_same recovery = refl
place_index_same restore = refl
place_index_same lock = refl

suffix_index_same : (s : Suffix) → (suffix_index s == suffix_index s) ≡ true
suffix_index_same plain = refl
suffix_index_same wal = refl
suffix_index_same shm = refl
suffix_index_same journal = refl

pub put_same :
    (p : Place) (s : Suffix) (entry : Option Node) (disk : Disk) → put p s entry disk p s ≡ entry
put_same p s entry disk = rw (place_index_same p, suffix_index_same s) refl

pub put-none :
    (p : Place) (s t : Suffix) (disk : Disk) → disk p t ≡ none → put p s none disk p t ≡ none
put-none p s t disk h = elim (Bool-cases (suffix_index s == suffix_index t)) [
  | inl e ↦ rw (place_index_same p, e) refl
  | inr e ↦ rw (place_index_same p, e) h
]

module _ (P : Disk → Type 0) where
  exists-none :
      (p : Place) (s : Suffix) (disk : Disk) (entry : Option Node)
      → disk p s ≡ entry
      → P disk
      → Answered
          (λ found disk'. P disk' × (found ≡ false → disk' p s ≡ none))
          P
          disk
          (with_disk disk (node_exists entry))
  exists-none p s disk none e i = (i, λ _. e)
  exists-none p s disk (some (regular _)) e i = (i, λ h. cc)
  exists-none p s disk (some irregular) e i = i

-- What a test for a file says of it.
abbrev pub IsFound : Bool → Option Node → Type 0
IsFound true entry = (c : Text) × (entry ≡ some (regular c))
IsFound false entry = entry ≡ none

module _ {P : Disk → Type 0} where
  -- A step that keeps `P` until it is done, and then has `Q`.
  pub held-Triple :
      {I : Disk → Type 0} (m : Action Done)
      → ((disk : Disk) → P disk → I disk)
      → Keeps P m
      → Triple P m (λ _. P) I
  held-Triple m weak keep = weaken-Triple m (λ disk p. p) (λ _ disk p. p) weak keep

  pub regular_file_exists-Triple :
      (p : Place) (s : Suffix)
      → Triple P
          (regular_file_exists p s)
          (λ found disk. P disk × (found ≡ false → disk p s ≡ none))
          P
  unfolding regular_file_exists
  regular_file_exists-Triple p s =
      access-Triple (λ disk. with_disk disk (node_exists (disk p s))) (λ disk i. i)
        (λ disk i. exists-none P p s disk (disk p s) refl i)

  -- A file that is removed when it exists is gone.
  pub when-none :
      {I Q : Disk → Type 0} (p : Place) (s : Suffix) (m : Action Done) (found : Bool)
      → ((disk : Disk) → P disk → disk p s ≡ none → Q disk)
      → Triple P m (λ _. Q) I
      → Triple (λ disk. P disk × (found ≡ false → disk p s ≡ none)) (when found m) (λ _. Q) I
  unfolding when
  when-none p s m true h t = weaken-Triple m (λ disk i. i.0) (λ _ disk q. q) (λ disk i. i) t
  when-none p s m false h t = pure-Triple tt (λ disk i. h disk i.0 (i.1 refl))

-- `P`, and those files of the place are gone.
abbrev pub Gone : (Disk → Type 0) → Place → List Suffix → Disk → Type 0
Gone P p ss disk = P disk × All (λ s. disk p s ≡ none) ss

-- The predicate is kept when a file of the place goes.
abbrev pub Shrinks : (Disk → Type 0) → Place → Type 0
Shrinks P p = (s : Suffix) (disk : Disk) → P disk → P (put p s none disk)

pub All-put-none :
    (p : Place) (s : Suffix) (disk : Disk) (ss : List Suffix)
    → All (λ t. disk p t ≡ none) ss
    → All (λ t. put p s none disk p t ≡ none) ss
All-put-none p s disk [] h = tt
All-put-none p s disk (t ∷ ss) h = (put-none p s t disk h.0, All-put-none p s disk ss h.1)

pub Gone-put-none :
    (P : Disk → Type 0) (p : Place)
    → Shrinks P p
    → (s : Suffix) (ss : List Suffix) (disk : Disk) → Gone P p ss disk
    → Gone P p (s ∷ ss) (put p s none disk)
Gone-put-none P p shrinks s ss disk g =
    (shrinks s disk g.0, (put_same p s none disk, All-put-none p s disk ss g.1))

pub remove_file_if_exists-Gone :
    (P : Disk → Type 0) (p : Place)
    → Shrinks P p
    → (ss : List Suffix) (s : Suffix)
    → Triple (Gone P p ss) (remove_file_if_exists p s) (λ _. Gone P p (s ∷ ss)) (Gone P p ss)
unfolding remove_file_if_exists
remove_file_if_exists-Gone P p shrinks ss s = regular_file_exists-Triple p s then λ found.
    when-none p s (effect (put p s none)) found (λ disk g e. (g.0, (e, g.1)))
      (effect-Triple (put p s none) (λ disk g. g) (λ disk g. Gone-put-none P p shrinks s ss disk g))

-- The loop over the sidecars, after the file itself is gone.
pub sidecars-Gone :
    (P : Disk → Type 0) (p : Place) (body : Suffix → Action Done)
    → ((ss : List Suffix) (s : Suffix)
        → Triple (Gone P p ss) (body s) (λ _. Gone P p (s ∷ ss)) (Gone P p ss))
    → Triple
        (Gone P p (plain ∷ []))
        (for_each sidecars body)
        (λ _ disk. P disk × ((s : Suffix) → disk p s ≡ none))
        P
unfolding for_each
sidecars-Gone P p body step =
    weaken-Triple (body wal) (λ disk g. g) (λ _ disk g. g) (λ disk g. g.0) (step (plain ∷ []) wal)
    then λ _.
        weaken-Triple (body shm) (λ disk g. g) (λ _ disk g. g) (λ disk g. g.0)
          (step (wal ∷ plain ∷ []) shm)
        then λ _.
            weaken-Triple (body journal) (λ disk g. g) (λ _ disk g. g) (λ disk g. g.0)
              (step (shm ∷ wal ∷ plain ∷ []) journal)
            then λ _. pure-Triple tt (λ disk g. (g.0, every disk g.1))
  where
    every :
        (disk : Disk)
        → All (λ s. disk p s ≡ none) (journal ∷ shm ∷ wal ∷ plain ∷ [])
        → (s : Suffix) → disk p s ≡ none
    every disk h plain = h.1.1.1.0
    every disk h wal = h.1.1.0
    every disk h shm = h.1.0
    every disk h journal = h.0

pub remove_database_set-Gone :
    (P : Disk → Type 0) (p : Place)
    → Shrinks P p
    → Triple P (remove_database_set p) (λ _ disk. P disk × ((s : Suffix) → disk p s ≡ none)) P
unfolding remove_database_set remove_database_sidecars
remove_database_set-Gone P p shrinks =
    weaken-Triple (remove_file_if_exists p plain) (λ disk i. (i, tt)) (λ _ disk g. g)
      (λ disk g. g.0) (remove_file_if_exists-Gone P p shrinks [] plain)
    then λ _. sidecars-Gone P p (remove_file_if_exists p) (remove_file_if_exists-Gone P p shrinks)

IsFound-Answered :
    (P : Disk → Type 0) (p : Place) (s : Suffix) (disk : Disk) (entry : Option Node)
    → disk p s ≡ entry
    → P disk
    → Answered
        (λ found disk'. P disk' × IsFound found (disk' p s))
        P
        disk
        (with_disk disk (node_exists entry))
IsFound-Answered P p s disk none e i = (i, e)
IsFound-Answered P p s disk (some (regular c)) e i = (i, (c, e))
IsFound-Answered P p s disk (some irregular) e i = i

pub regular_file_exists-Found :
    {P : Disk → Type 0} (p : Place) (s : Suffix)
    → Triple P (regular_file_exists p s) (λ found disk. P disk × IsFound found (disk p s)) P
unfolding regular_file_exists
regular_file_exists-Found {P = P} p s =
    access-Triple (λ disk. with_disk disk (node_exists (disk p s))) (λ disk i. i)
      (λ disk i. IsFound-Answered P p s disk (disk p s) refl i)

module _ {P I : Disk → Type 0} {Q : Done → Disk → Type 0} where
  -- A rename is done only if there is a file to rename.
  pub rename-Triple :
      (p q : Place) (s : Suffix)
      → ((disk : Disk) → P disk → I disk)
      → ((disk : Disk) (entry : Node)
          → P disk
          → disk p s ≡ some entry
          → Q tt (put p s none (put q s (some entry) disk)))
      → Triple P (rename p q s) Q I
  unfolding rename
  rename-Triple p q s weak step =
      access-Triple (λ disk. renamed disk p q s (disk p s)) weak
        (λ disk i. renamed-step disk (disk p s) refl i)
    where
      renamed-step :
          (disk : Disk) (entry : Option Node)
          → disk p s ≡ entry
          → P disk
          → Answered Q I disk (renamed disk p q s entry)
      renamed-step disk none e i = weak disk i
      renamed-step disk (some entry) e i = step disk entry i e

module _ {P : Disk → Type 0} where
  pub write_from-Triple :
      (p : Place) (s : Suffix) (frame : Ignores P p) (written rest : Text)
      → Triple
          (λ disk. P disk × (disk p s ≡ some (regular written)))
          (write_from p s written rest)
          (λ _ disk. P disk × (disk p s ≡ some (regular (written ++ rest))))
          P
  unfolding write_from
  write_from-Triple p s frame written [] =
      pure-Triple tt (λ disk i. (i.0, i.1 ∙ ap (λ t. some (regular t)) (sym (append-nil written))))
  write_from-Triple p s frame written (c ∷ cs) =
      effect-Triple (put p s (some (regular (written ++ c ∷ [])))) (λ disk i. i.0)
        (λ disk i. (frame s _ disk i.0, put_same p s _ disk))
      then λ _.
          weaken-Triple (write_from p s (written ++ c ∷ []) cs) (λ disk i. i)
            (λ _ disk i. (i.0, i.1 ∙ ap (λ t. some (regular t)) (append_assoc written (c ∷ []) cs)))
            (λ disk i. i) (write_from-Triple p s frame (written ++ c ∷ []) cs)

  pub create_private_file-Triple :
      (p : Place) (frame : Ignores P p)
      → Triple P (create_private_file p) (λ _ disk. P disk × (disk p plain ≡ some (regular []))) P
  unfolding create_private_file
  create_private_file-Triple p frame = regular_file_exists-Keeps p plain then λ found.
      fail_if-Keeps found (io "private file already exists") then λ _.
      effect-Triple (put p plain (some (regular []))) (λ disk i. i)
        (λ disk i. (frame plain _ disk i, put_same p plain _ disk))
      then λ _.
          held-Triple (restrict_file_permissions p plain) (λ disk i. i.0)
            (restrict_file_permissions-Keeps p plain)

  -- What is read is what the file holds.
  pub read_file-Triple :
      (p : Place) (s : Suffix)
      → Triple P (read_file p s) (λ content disk. P disk × (disk p s ≡ some (regular content))) P
  unfolding read_file
  read_file-Triple p s =
      access-Triple (λ disk. open_node disk (disk p s)) (λ disk i. i)
        (λ disk i. opened disk (disk p s) refl i)
    where
      opened :
          (disk : Disk) (entry : Option Node)
          → disk p s ≡ entry
          → P disk
          → Answered
              (λ content disk'. P disk' × (disk' p s ≡ some (regular content)))
              P
              disk
              (open_node disk entry)
      opened disk none e i = i
      opened disk (some (regular content)) e i = (i, e)
      opened disk (some irregular) e i = i

  pub sync_file-Triple :
      (p : Place) (s : Suffix)
      → Triple P (sync_file p s) (λ _ disk. P disk × ((c : Text) × (disk p s ≡ some (regular c)))) P
  unfolding sync_file
  sync_file-Triple p s = read_file-Triple p s then λ content.
      effect-Triple (λ disk. disk) (λ disk i. i.0) (λ disk i. (i.0, (content, i.1)))
