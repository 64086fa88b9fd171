-- ===== src/Store/Steps/Runs.antt =====
-- What a successful chain of actions says of its parts.
use stateful_core.Base.{◌≡◌, refl, ap, arith}
use stateful_core.Store.Tables.{Db}
use stateful_core.Store.Tx.{Result, ok, err, Tx, ◌>>=◌, pure, continue_with}

-- The first action ran from one database to the next.
pub record Ran {ℓ} {A : Type ℓ} (m : Tx A) (before : Db) (P : A → Db → Type ℓ) : Type ℓ where
  pub value : A
  pub between : Db
  pub first : m before ≡ ok (value, between)
  pub rest : P value between

module _ {A B : Type 0} where
  ran_of :
      (m : Tx A) (f : A → Tx B) (db : Db) (r : Result (A × Db))
      → m db ≡ r
      → (b : B) (db' : Db) → continue_with r f ≡ ok (b, db')
      → Ran m db (λ a x. f a x ≡ ok (b, db'))
  unfolding continue_with
  ran_of m f db (ok (a, x)) h b db' e = record { value = a; between = x; first = h; rest = e }
  ran_of m f db (err x) h b db' e = cc

  pub bind-Ran :
      (m : Tx A) (f : A → Tx B) (db : Db) (b : B) (db' : Db)
      → (m >>= f) db ≡ ok (b, db')
      → Ran m db (λ a x. f a x ≡ ok (b, db'))
  unfolding ◌>>=◌ continue_with
  bind-Ran m f db b db' e = ran_of m f db (m db) refl b db' e

  -- A chain goes on where its first action stopped.
  pub bind-ok :
      (m : Tx A) (f : A → Tx B) (db : Db) (a : A) (x : Db) → m db ≡ ok (a, x) → (m >>= f) db ≡ f a x
  unfolding ◌>>=◌ continue_with
  bind-ok m f db a x h = ap (λ r. continue_with r f) h

pub pure-ok : {A : Type 0} (a b : A) (x y : Db) → pure a x ≡ ok (b, y) → (a ≡ b) × (x ≡ y)
unfolding ◌>>=◌
pure-ok a b x y h = ground arith
