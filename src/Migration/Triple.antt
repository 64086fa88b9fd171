-- ===== src/Migration/Triple.antt =====
-- Triples for the actions on the disk: what holds when an action is done, and what holds whenever it
-- fails or is killed.
use stateful_core.Base.{◌⊎◌, inl, inr, Bool, true, false, List, [], ◌∷◌}
use stateful_core.Migration.Disk.{
  Disk, Result, ok, err, Fate, calm, stop, proceed, fail, Outcome, done, failed, killed, Action,
  Done, Error, answer, access, pure, raise, ◌>>=◌, effect, when, fail_if, for_each,
}

module _ {A : Type 0} (Q : A → Disk → Type 0) (I : Disk → Type 0) where
  abbrev pub Judged : Outcome A → Type 0
  Judged (done a disk _) = Q a disk
  Judged (failed _ disk _) = I disk
  Judged (killed disk) = I disk

  abbrev pub Answered : Disk → Result (A × Disk) → Type 0
  Answered disk (ok (a, disk')) = Q a disk'
  Answered disk (err _) = I disk

-- From a disk with `P`: `Q` if the action is done, `I` if it fails or is killed.
pub record Triple {A : Type 0} (P : Disk → Type 0) (m : Action A) (Q : A → Disk → Type 0)
    (I : Disk → Type 0) : Type 0 where
  pub holds : (disk : Disk) (fate : Fate) → P disk → Judged Q I (m disk fate)

abbrev pub Keeps : {A : Type 0} → (Disk → Type 0) → Action A → Type 0
Keeps I m = Triple I m (λ _. I) I

module _ {A : Type 0} (I : Disk → Type 0) (Q : A → Disk → Type 0) where
  answer-Judged :
      (disk : Disk) (fate : Fate) (r : Result (A × Disk))
      → Answered Q I disk r
      → Judged Q I (answer disk fate r)
  answer-Judged disk fate (ok (a, disk')) h = h
  answer-Judged disk fate (err e) h = h

  access-holds :
      (P : Disk → Type 0) (f : Disk → Result (A × Disk))
      → ((disk : Disk) → P disk → I disk)
      → ((disk : Disk) → P disk → Answered Q I disk (f disk))
      → (disk : Disk) (fate : Fate) → P disk
      → Judged Q I (access f disk fate)
  unfolding access
  access-holds P f weak h disk calm p = answer-Judged disk calm (f disk) (h disk p)
  access-holds P f weak h disk stop p = weak disk p
  access-holds P f weak h disk (proceed fate) p = answer-Judged disk fate (f disk) (h disk p)
  access-holds P f weak h disk (fail e fate) p = weak disk p

module _ {A : Type 0} {P I : Disk → Type 0} {Q : A → Disk → Type 0} where
  pub access-Triple :
      (f : Disk → Result (A × Disk))
      → ((disk : Disk) → P disk → I disk)
      → ((disk : Disk) → P disk → Answered Q I disk (f disk))
      → Triple P (access f) Q I
  access-Triple f weak h = record { holds = access-holds I Q P f weak h }

  pub pure-Triple : (a : A) → ((disk : Disk) → P disk → Q a disk) → Triple P (pure a) Q I
  unfolding pure
  pure-Triple a h = record { holds = λ disk fate p. h disk p }

  pub raise-Triple : (e : Error) → ((disk : Disk) → P disk → I disk) → Triple P (raise e) Q I
  unfolding raise
  raise-Triple e h = record { holds = λ disk fate p. h disk p }

module _ {A B : Type 0} (I : Disk → Type 0) (Q : A → Disk → Type 0) (R : B → Disk → Type 0) where
  bind-Judged :
      (o : Outcome A) (f : A → Action B)
      → Judged Q I o
      → ((a : A) → Triple (Q a) (f a) R I)
      → Judged R I (elim o [
        | done a disk fate ↦ f a disk fate
        | failed e disk fate ↦ failed e disk fate
        | killed disk ↦ killed disk
      ])
  bind-Judged (done a disk fate) f q h = (h a).holds disk fate q
  bind-Judged (failed e disk fate) f q h = q
  bind-Judged (killed disk) f q h = q

module _ {A B : Type 0} {P I : Disk → Type 0} {Q : A → Disk → Type 0} {R : B → Disk → Type 0} where
  infixr 4 ◌then◌
  pub ◌then◌ :
      {m : Action A} {f : A → Action B}
      → Triple P m Q I
      → ((a : A) → Triple (Q a) (f a) R I)
      → Triple P (m >>= f) R I
  unfolding ◌>>=◌
  ◌then◌ {m = m} {f = f} t h = record {
    holds = λ disk fate p. bind-Judged I Q R (m disk fate) f (t.holds disk fate p) h;
  }

module _ {P I : Disk → Type 0} {Q : Done → Disk → Type 0} where
  pub effect-Triple :
      (f : Disk → Disk)
      → ((disk : Disk) → P disk → I disk)
      → ((disk : Disk) → P disk → Q tt (f disk))
      → Triple P (effect f) Q I
  unfolding effect
  effect-Triple f weak h = access-Triple (λ disk. ok (tt, f disk)) weak h

module _ {I : Disk → Type 0} where
  pub when-Keeps : {m : Action Done} (b : Bool) → Keeps I m → Keeps I (when b m)
  unfolding when
  when-Keeps true h = h
  when-Keeps false h = pure-Triple tt (λ disk i. i)

  pub fail_if-Keeps : (b : Bool) (e : Error) → Keeps I (fail_if b e)
  unfolding fail_if
  fail_if-Keeps true e = raise-Triple e (λ disk i. i)
  fail_if-Keeps false e = pure-Triple tt (λ disk i. i)

  pub for_each-Keeps :
      {X : Type 0} (xs : List X) (body : X → Action Done)
      → ((x : X) → Keeps I (body x))
      → Keeps I (for_each xs body)
  unfolding for_each
  for_each-Keeps [] body h = pure-Triple tt (λ disk i. i)
  for_each-Keeps (x ∷ xs) body h = h x then λ _. for_each-Keeps xs body h

module _ {A : Type 0} (I I' : Disk → Type 0) (Q Q' : A → Disk → Type 0) where
  weaken-Judged :
      ((a : A) (disk : Disk) → Q a disk → Q' a disk)
      → ((disk : Disk) → I disk → I' disk)
      → (o : Outcome A) → Judged Q I o
      → Judged Q' I' o
  weaken-Judged q i (done a disk fate) h = q a disk h
  weaken-Judged q i (failed e disk fate) h = i disk h
  weaken-Judged q i (killed disk) h = i disk h

module _ {A : Type 0} {P P' I I' : Disk → Type 0} {Q Q' : A → Disk → Type 0} where
  pub weaken-Triple :
      (m : Action A)
      → ((disk : Disk) → P' disk → P disk)
      → ((a : A) (disk : Disk) → Q a disk → Q' a disk)
      → ((disk : Disk) → I disk → I' disk)
      → Triple P m Q I
      → Triple P' m Q' I'
  weaken-Triple m p q i t = record {
    holds = λ disk fate h. weaken-Judged I I' Q Q' q i (m disk fate) (t.holds disk fate (p disk h));
  }

module _ {A : Type 0} {P P' I : Disk → Type 0} {Q : A → Disk → Type 0} where
  -- Two ways to start.
  pub either-Triple :
      (m : Action A) → Triple P m Q I → Triple P' m Q I → Triple (λ disk. P disk ⊎ P' disk) m Q I
  either-Triple m t t' = record {
    holds = λ disk fate i. elim i [ inl p ↦ t.holds disk fate p | inr p ↦ t'.holds disk fate p ];
  }

module _ {A X : Type 0} {P : X → Disk → Type 0} {I : Disk → Type 0} {Q : A → Disk → Type 0} where
  -- A start that names something.
  pub exists-Triple :
      (m : Action A) → ((x : X) → Triple (P x) m Q I) → Triple (λ disk. (x : X) × P x disk) m Q I
  exists-Triple m t = record { holds = λ disk fate i. (t i.0).holds disk fate i.1 }
