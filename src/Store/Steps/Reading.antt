-- ===== src/Store/Steps/Reading.antt =====
-- Actions that only read: when they succeed the database is the same.
use stateful_core.Base.{Bool, true, false, Option, none, some, ◌≡◌, subst}
use stateful_core.Store.Tables.{Db}
use stateful_core.Store.Tx.{
  Result, ok, err, StoreError, Tx, Done, ◌>>=◌, pure, gets, lift, or_fail, fail_if,
}
use stateful_core.Store.Steps.Runs.{bind-Ran}

pub record IsReading {A : Type 0} (m : Tx A) : Type 0 where
  pub same : (db x : Db) (a : A) → m db ≡ ok (a, x) → x ≡ db

module _ {A : Type 0} where
  pub pure-IsReading : (a : A) → IsReading (pure a)
  unfolding ◌>>=◌
  pure-IsReading a = record { same = λ db x b h. cc }

  pub gets-IsReading : (f : Db → A) → IsReading (gets f)
  unfolding ◌>>=◌
  gets-IsReading f = record { same = λ db x b h. cc }

  pub lift-IsReading : (r : Result A) → IsReading (lift r)
  unfolding ◌>>=◌
  lift-IsReading r = record { same = λ db x b h. lifted r db x b h }
    where
      lifted : (s : Result A) (db x : Db) (b : A) → lift s db ≡ ok (b, x) → x ≡ db
      lifted (ok a) db x b h = cc
      lifted (err e) db x b h = cc

  pub or_fail-IsReading : (e : StoreError) (o : Option A) → IsReading (or_fail e o)
  unfolding ◌>>=◌
  or_fail-IsReading e o = record { same = λ db x b h. found o db x b h }
    where
      found : (p : Option A) (db x : Db) (b : A) → or_fail e p db ≡ ok (b, x) → x ≡ db
      found none db x b h = cc
      found (some a) db x b h = cc

pub fail_if-IsReading : (b : Bool) (e : StoreError) → IsReading (fail_if b e)
unfolding ◌>>=◌
fail_if-IsReading b e = record { same = λ db x u h. passed b db x u h }
  where
    passed : (c : Bool) (db x : Db) (u : Done) → fail_if c e db ≡ ok (u, x) → x ≡ db
    passed true db x u h = cc
    passed false db x u h = cc

module _ {A B : Type 0} where
  -- What comes after an action that only reads runs on the same database.
  pub after-IsReading :
      {m : Tx A} (f : A → Tx B)
      → IsReading m
      → (db : Db) (b : B) (db' : Db) → (m >>= f) db ≡ ok (b, db')
      → (a : A) × (m db ≡ ok (a, db)) × (f a db ≡ ok (b, db'))
  after-IsReading {m = m} f reading db b db' h =
      let ran = bind-Ran m f db b db' h in
      let e = reading.same db ran.between ran.value ran.first in
      (
        ran.value,
        subst (λ x. m db ≡ ok (ran.value, x)) e ran.first,
        subst (λ x. f ran.value x ≡ ok (b, db')) e ran.rest,
      )

  pub after-gets :
      (f : Db → A) (k : A → Tx B) (db : Db) (b : B) (db' : Db)
      → (gets f >>= k) db ≡ ok (b, db')
      → k (f db) db ≡ ok (b, db')
  unfolding ◌>>=◌
  after-gets f k db b db' h = h

  infixr 4 ◌reads◌
  pub ◌reads◌ :
      {m : Tx A} {f : A → Tx B} → IsReading m → ((a : A) → IsReading (f a)) → IsReading (m >>= f)
  ◌reads◌ {m = m} {f = f} first rest = record {
    same = λ db x b h. let (a, p, q) = after-IsReading f first db b x h in (rest a).same db x b q;
  }
