-- ===== src/Migration/Calm.antt =====
-- Runs in which every access proceeds: they are done, when no file is irregular.
use stateful_core.Base.{
  Text, Bool, true, false, ◌==◌, Option, none, some, ◌≡◌, refl, Bool-cases, inl, inr,
}
use stateful_core.Migration.Disk.{
  Place, Suffix, Node, regular, irregular, Disk, put, place_index, suffix_index, Result, ok, err,
  Error, calm, Outcome, done, failed, killed, Action, Done, access, answer, pure, ◌>>=◌, effect,
  fail_if,
}
use stateful_core.Migration.Sqlite.{node_of}

module _ {A : Type 0} (Q : A → Disk → Type 0) where
  abbrev pub IsDone : Outcome A → Type 0
  IsDone (done a disk fate) = (fate ≡ calm) × Q a disk
  IsDone (failed _ _ _) = ⊥
  IsDone (killed _) = ⊥

  abbrev pub IsOk : Result (A × Disk) → Type 0
  IsOk (ok (a, disk)) = Q a disk
  IsOk (err _) = ⊥

-- From a disk with `P` the action is done, with `Q`, when every access proceeds.
pub record Total {A : Type 0} (P : Disk → Type 0) (m : Action A) (Q : A → Disk → Type 0)
    : Type 0 where
  pub runs : (disk : Disk) → P disk → IsDone Q (m disk calm)

module _ {A : Type 0} (Q : A → Disk → Type 0) where
  access-IsDone :
      (P : Disk → Type 0) (f : Disk → Result (A × Disk))
      → ((disk : Disk) → P disk → IsOk Q (f disk))
      → (disk : Disk) → P disk
      → IsDone Q (access f disk calm)
  unfolding access
  access-IsDone P f h disk i = answered (f disk) (h disk i)
    where
      answered : (r : Result (A × Disk)) → IsOk Q r → IsDone Q (answer disk calm r)
      answered (ok (a, disk')) q = (refl, q)
      answered (err _) q = elim q [ ]

module _ {A : Type 0} {P : Disk → Type 0} {Q : A → Disk → Type 0} where
  pub access-Total :
      (f : Disk → Result (A × Disk))
      → ((disk : Disk) → P disk → IsOk Q (f disk))
      → Total P (access f) Q
  access-Total f h = record { runs = access-IsDone Q P f h }

  pub pure-Total : (a : A) → ((disk : Disk) → P disk → Q a disk) → Total P (pure a) Q
  unfolding pure
  pure-Total a h = record { runs = λ disk i. (refl, h disk i) }

  pub weaken-Total :
      {P' : Disk → Type 0} {Q' : A → Disk → Type 0} (m : Action A)
      → ((disk : Disk) → P' disk → P disk)
      → ((a : A) (disk : Disk) → Q a disk → Q' a disk)
      → Total P m Q
      → Total P' m Q'
  weaken-Total {Q' = Q'} m p q t = record {
    runs = λ disk i. stronger (m disk calm) (t.runs disk (p disk i));
  }
    where
      stronger : (o : Outcome A) → IsDone Q o → IsDone Q' o
      stronger (done a disk fate) (e, h) = (e, q a disk h)
      stronger (failed _ _ _) h = elim h [ ]
      stronger (killed _) h = elim h [ ]

module _ {A B : Type 0} (Q : A → Disk → Type 0) (R : B → Disk → Type 0) where
  bind-IsDone :
      (o : Outcome A) (f : A → Action B)
      → IsDone Q o
      → ((a : A) → Total (Q a) (f a) R)
      → IsDone R (elim o [
        | done a disk fate ↦ f a disk fate
        | failed e disk fate ↦ failed e disk fate
        | killed disk ↦ killed disk
      ])
  bind-IsDone (done a disk fate) f (e, q) h = rw e ((h a).runs disk q)
  bind-IsDone (failed _ _ _) f i h = elim i [ ]
  bind-IsDone (killed _) f i h = elim i [ ]

module _ {A B : Type 0} {P : Disk → Type 0} {Q : A → Disk → Type 0} {R : B → Disk → Type 0} where
  infixr 4 ◌next◌
  pub ◌next◌ :
      {m : Action A} {f : A → Action B}
      → Total P m Q
      → ((a : A) → Total (Q a) (f a) R)
      → Total P (m >>= f) R
  unfolding ◌>>=◌
  ◌next◌ {m = m} {f = f} t h = record {
    runs = λ disk i. bind-IsDone Q R (m disk calm) f (t.runs disk i) h;
  }

module _ {P : Disk → Type 0} {Q : Done → Disk → Type 0} where
  pub effect-Total :
      (f : Disk → Disk) → ((disk : Disk) → P disk → Q tt (f disk)) → Total P (effect f) Q
  unfolding effect
  effect-Total f h = access-Total (λ disk. ok (tt, f disk)) h

pub fail_if-Total :
    {P : Disk → Type 0} (b : Bool) (e : Error)
    → ((disk : Disk) → P disk → b ≡ false)
    → Total P (fail_if b e) (λ _. P)
unfolding fail_if
fail_if-Total true e h = record { runs = λ disk i. absurd (true_is_not_false (h disk i)) }
  where
    true_is_not_false : ¬ (true ≡ false)
    true_is_not_false x = cc
fail_if-Total false e h = pure-Total tt (λ disk i. i)

abbrev pub IsRegular : Option Node → Type 0
IsRegular none = Unit
IsRegular (some (regular _)) = Unit
IsRegular (some irregular) = ⊥

-- No file is a link or no regular file.
abbrev pub AllRegular : Disk → Type 0
AllRegular disk = (p : Place) (s : Suffix) → IsRegular (disk p s)

pub node_of-IsRegular : (content : Option Text) → IsRegular (node_of content)
node_of-IsRegular none = tt
node_of-IsRegular (some content) = tt

pub AllRegular-put :
    (p : Place) (s : Suffix) (content : Option Text) (disk : Disk)
    → AllRegular disk
    → AllRegular (put p s (node_of content) disk)
AllRegular-put p s content disk h q t = elim (Bool-cases (place_index p == place_index q)) [
  | inl e ↦ elim (Bool-cases (suffix_index s == suffix_index t)) [
    | inl e' ↦ rw (e, e') (node_of-IsRegular content)
    | inr e' ↦ rw (e, e') (h q t)
  ]
  | inr e ↦ rw e (h q t)
]
