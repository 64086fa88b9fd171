-- ===== src/Migration/Disk.antt =====
-- crates/stateful-store/src/migration_v2.rs: the files beside the database (`MigrationPaths`), and
-- what can happen while the code works on them. Each access may proceed, fail, or never come about because
-- the process is killed; a file that is written grows byte by byte.
use stateful_core.Base.{
  ℕ, Text, String, Bool, true, false, Option, List, [], ◌∷◌, ◌==◌, if◌then◌else◌,
}

-- The fields of `MigrationPaths` that name files.
pub data Place : Type 0 where
  main backup manifest manifest_tmp candidate recovery restore lock : Place

-- A database is its file and the sidecars `-wal`, `-shm` and `-journal`.
pub data Suffix : Type 0 where
  plain wal shm journal : Suffix

abbrev pub sidecars : List Suffix
sidecars = wal ∷ shm ∷ journal ∷ []

-- `irregular`: a symbolic link, a hard-linked file, or no regular file.
pub data Node : Type 0 where
  regular : Text → Node
  irregular : Node

abbrev pub FileSet : Type 0
FileSet = Suffix → Option Node

abbrev pub Disk : Type 0
Disk = Place → FileSet

abbrev pub place_index : Place → ℕ
place_index main = 0
place_index backup = 1
place_index manifest = 2
place_index manifest_tmp = 3
place_index candidate = 4
place_index recovery = 5
place_index restore = 6
place_index lock = 7

abbrev pub suffix_index : Suffix → ℕ
suffix_index plain = 0
suffix_index wal = 1
suffix_index shm = 2
suffix_index journal = 3

abbrev pub put_suffix : Suffix → Option Node → FileSet → FileSet
put_suffix s entry set t = if suffix_index s == suffix_index t then entry else set t

abbrev pub put : Place → Suffix → Option Node → Disk → Disk
put p s entry disk q t =
    if place_index p == place_index q then put_suffix s entry (disk q) t else disk q t

-- `invalid_state` is `StoreError::InvalidState`; a message leaves out the parts that are computed.
pub data Error : Type 0 where
  io sqlite invalid_state : String → Error

pub data Result {ℓ} (A : Type ℓ) : Type ℓ where
  ok : A → Result A
  err : Error → Result A

-- What becomes of the accesses: `calm`, all of them proceed; `stop`, the process is killed.
pub data Fate : Type 0 where
  calm stop : Fate
  proceed : Fate → Fate
  fail : Error → Fate → Fate

pub data Outcome {ℓ} (A : Type ℓ) : Type ℓ where
  done : A → Disk → Fate → Outcome A
  failed : Error → Disk → Fate → Outcome A
  killed : Disk → Outcome A

abbrev pub Action {ℓ} : Type ℓ → Type ℓ
Action A = Disk → Fate → Outcome A

abbrev pub Done : Type 0
Done = Unit

abbrev pub answer {ℓ} : {A : Type ℓ} → Disk → Fate → Result (A × Disk) → Outcome A
answer disk fate (ok (a, disk')) = done a disk' fate
answer disk fate (err e) = failed e disk fate

-- One access of the disk.
unfoldable pub access {ℓ} : {A : Type ℓ} → (Disk → Result (A × Disk)) → Action A
access f disk calm = answer disk calm (f disk)
access f disk stop = killed disk
access f disk (proceed fate) = answer disk fate (f disk)
access f disk (fail e fate) = failed e disk fate

unfoldable pub pure {ℓ} : {A : Type ℓ} → A → Action A
pure a disk fate = done a disk fate

unfoldable pub raise {ℓ} : {A : Type ℓ} → Error → Action A
raise e disk fate = failed e disk fate

infixl 5 ◌>>=◌ ◌>>◌
unfoldable pub ◌>>=◌ {ℓ κ} : {A : Type ℓ} {B : Type κ} → Action A → (A → Action B) → Action B
◌>>=◌ m f disk fate = elim (m disk fate) [
  | done a disk' fate' ↦ f a disk' fate'
  | failed e disk' fate' ↦ failed e disk' fate'
  | killed disk' ↦ killed disk'
]

abbrev pub ◌>>◌ {ℓ} : {B : Type ℓ} → Action Done → Action B → Action B
m >> k = m >>= λ _. k

unfoldable pub effect : (Disk → Disk) → Action Done
unfolding access
effect f = access (λ disk. ok (tt, f disk))

unfoldable pub when : Bool → Action Done → Action Done
unfolding pure
when true m = m
when false m = pure tt

-- `if bad { return Err(e) }`.
unfoldable pub fail_if : Bool → Error → Action Done
unfolding raise pure
fail_if true e = raise e
fail_if false e = pure tt

-- `for x in list { body(x)?; }`.
unfoldable pub for_each {ℓ} : {A : Type ℓ} → List A → (A → Action Done) → Action Done
unfolding pure ◌>>=◌
for_each [] body = pure tt
for_each (x ∷ xs) body = body x >> for_each xs body
