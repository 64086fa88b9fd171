-- ===== src/Store/Steps.antt =====
-- Relations between the database before and after an action, one rule for each way to build an
-- action.
pub mod Quiet
pub mod Evidence
pub mod Queue
pub mod Commands
pub mod Complete
pub mod Grows
pub mod Runs
pub mod Reading
pub mod Operation
use stateful_core.Base.{
  Bool, true, false, if◌then◌else◌, ◌≡◌, refl, Option, none, some, List, [], ◌∷◌, All, arith,
}
use stateful_core.Store.Tables.{Db}
use stateful_core.Store.Tx.{
  StoreError, Result, ok, err, Tx, Done, ◌>>=◌, ◌>>◌, pure, fail, gets, lift, or_fail, modify,
  fail_if, when, for_each, continue_with,
}

-- An action that succeeds relates the two databases; one that fails is rolled back.
pub record Steps {ℓ} {A : Type ℓ} (R : Db → Db → Type 0) (m : Tx A) : Type ℓ where
  pub at : (db : Db) (a : A) (db' : Db) → m db ≡ ok (a, db') → R db db'

pub record Preorder (R : Db → Db → Type 0) : Type 0 where
  pub reflexive : (db : Db) → R db db
  pub transitive : (a b c : Db) → R a b → R b c → R a c

module _ {R : Db → Db → Type 0} (pre : Preorder R) where
  module _ {ℓ} {A : Type ℓ} where
    pub Steps-pure : (a : A) → Steps R (pure a)
    unfolding ◌>>=◌
    Steps-pure a = record { at = λ db b db' h. ground (arith, pre.reflexive db) }

    pub Steps-gets : (f : Db → A) → Steps R (gets f)
    unfolding ◌>>=◌
    Steps-gets f = record { at = λ db b db' h. ground (arith, pre.reflexive db) }

    pub Steps-fail : (e : StoreError) → Steps R (fail {A = A} e)
    unfolding ◌>>=◌
    Steps-fail e = record { at = λ db b db' h. cc }

    pub Steps-lift : (r : Result A) → Steps R (lift r)
    unfolding ◌>>=◌
    Steps-lift r = record { at = λ db b db' h. ground (arith, pre.reflexive db) }

    pub Steps-or_fail : (e : StoreError) (o : Option A) → Steps R (or_fail e o)
    unfolding ◌>>=◌
    Steps-or_fail e o = record { at = λ db b db' h. ground (arith, pre.reflexive db) }

    pub Steps-if : (b : Bool) (m n : Tx A) → Steps R m → Steps R n → Steps R (if b then m else n)
    Steps-if true m n hm hn = hm
    Steps-if false m n hm hn = hn

  pub Steps-fail_if : (b : Bool) (e : StoreError) → Steps R (fail_if b e)
  unfolding ◌>>=◌
  Steps-fail_if b e = record { at = λ db c db' h. ground (arith, pre.reflexive db) }

  pub Steps-modify : (f : Db → Db) → ((db : Db) → R db (f db)) → Steps R (modify f)
  unfolding ◌>>=◌
  Steps-modify f hf = record { at = λ db c db' h. ground (arith, hf db) }

  pub Steps-when : (b : Bool) (m : Tx Done) → Steps R m → Steps R (when b m)
  unfolding ◌>>=◌
  Steps-when true m hm = record { at = λ db c db' h. hm.at db c db' h }
  Steps-when false m hm = record { at = λ db c db' h. ground (arith, pre.reflexive db) }

  module _ {ℓ κ} {A : Type ℓ} {B : Type κ} where
    bind_after :
        (f : A → Tx B) (a0 : Db)
        → ((a : A) → Steps R (f a))
        → (r : Result (A × Db)) → ((a : A) (db' : Db) → r ≡ ok (a, db') → R a0 db')
        → (b : B) (db'' : Db) → continue_with r f ≡ ok (b, db'')
        → R a0 db''
    unfolding continue_with
    bind_after f a0 hf (ok (a, db')) h b db'' e =
        pre.transitive a0 db' db'' (h a db' refl) ((hf a).at db' b db'' e)
    bind_after f a0 hf (err x) h b db'' e = cc

    pub Steps-bind :
        (m : Tx A) (f : A → Tx B) → Steps R m → ((a : A) → Steps R (f a)) → Steps R (m >>= f)
    unfolding ◌>>=◌ continue_with
    Steps-bind m f hm hf = record {
      at = λ db b db'' e. bind_after f db hf (m db) (hm.at db) b db'' e;
    }

  -- The continuation is only run on results that the first action has.
  pub Steps-bind_on {ℓ κ} :
      {A : Type ℓ} {B : Type κ} (P : A → Type 0) (m : Tx A) (f : A → Tx B)
      → Steps R m
      → ((db : Db) (a : A) (db' : Db) → m db ≡ ok (a, db') → P a)
      → ((a : A) → P a → Steps R (f a))
      → Steps R (m >>= f)
  unfolding ◌>>=◌ continue_with
  Steps-bind_on P m f hm hp hf = record {
    at = λ db b db' e. on (m db) db db' b (hm.at db) (hp db) e;
  }
    where
      on :
          (r : Result (_ × Db)) (db db' : Db) (b : _)
          → ((a : _) (x : Db) → r ≡ ok (a, x) → R db x)
          → ((a : _) (x : Db) → r ≡ ok (a, x) → P a)
          → continue_with r f ≡ ok (b, db')
          → R db db'
      on (ok (a, x)) db db' b hr hq e =
          pre.transitive db x db' (hr a x refl) ((hf a (hq a x refl)).at x b db' e)
      on (err x) db db' b hr hq e = cc

  -- The continuation reads the database that it starts from.
  pub Steps-gets_on {ℓ κ} :
      {A : Type ℓ} {B : Type κ} (g : Db → A) (f : A → Tx B)
      → ((db : Db) (b : B) (db' : Db) → f (g db) db ≡ ok (b, db') → R db db')
      → Steps R (gets g >>= f)
  unfolding ◌>>=◌ continue_with
  Steps-gets_on g f h = record { at = h }

  -- Each turn of a loop over the members of a list.
  pub Steps-for_each_member {ℓ} :
      {A : Type ℓ} (xs : List A) (body : A → Tx Done)
      → All (λ x. Steps R (body x)) xs
      → Steps R (for_each xs body)
  unfolding for_each
  Steps-for_each_member [] body h = Steps-pure tt
  Steps-for_each_member (x ∷ xs) body (h, hs) =
      Steps-bind (body x) (λ _. for_each xs body) h (λ _. Steps-for_each_member xs body hs)

  pub Steps-for_each {ℓ} :
      {A : Type ℓ} (xs : List A) (body : A → Tx Done)
      → ((a : A) → Steps R (body a))
      → Steps R (for_each xs body)
  unfolding for_each
  Steps-for_each [] body h = Steps-pure tt
  Steps-for_each (x ∷ xs) body h =
      Steps-bind (body x) (λ _. for_each xs body) (h x) (λ _. Steps-for_each xs body h)

pub ruleset step_rules = (
  Steps-pure, Steps-gets, Steps-fail, Steps-lift, Steps-or_fail, Steps-if, Steps-fail_if,
  Steps-when, Steps-bind, Steps-for_each,
)
