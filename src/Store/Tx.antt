-- ===== src/Store/Tx.antt =====
-- Database transactions. A body reads and writes the database; an error leaves the body at once.
-- The body's value says what the call returns once its writes are committed, which may be an
-- error too. A body that ends with an error is rolled back.
--
-- A failing SQL statement is an error like the others: it rolls back. Such failures are not
-- modelled further.
use oc_review_bot.Common.{Bool, if◌then◌else◌}
use oc_review_bot.Store.Schema.{Db, Error}

pub data Result (A : Type 0) : Type 0 where
  ok : A → Result A
  err : Error → Result A

abbrev pub Tx : Type 0 → Type 0
Tx A = Db → Result (A × Db)

module _ {A B : Type 0} where
  infixl 5 ◌>>=◌ ◌>>◌
  unfoldable pub ◌>>=◌ : Tx A → (A → Tx B) → Tx B
  ◌>>=◌ m f db = elim (m db) [ ok (a, db') ↦ f a db' | err e ↦ err e ]

  abbrev pub ◌>>◌ : Tx A → Tx B → Tx B
  m >> n = m >>= λ _. n

module _ {A : Type 0} where
  unfoldable pub pure : A → Tx A
  pure a db = ok (a, db)

  -- return with an error, rolling back
  unfoldable pub rollback : Error → Tx A
  rollback e db = err e

  unfoldable pub gets : (Db → A) → Tx A
  gets f db = ok (f db, db)

  -- return tx.Commit(), with a value
  unfoldable pub commit : A → Tx (Result A)
  commit a db = ok (ok a, db)

  -- tx.Commit() and then an error of the call
  unfoldable pub commit_with : Error → Tx (Result A)
  commit_with e db = ok (err e, db)

  abbrev pub settle : Db → Result (Result A × Db) → Result A × Db
  settle db (ok (r, db')) = (r, db')
  settle db (err e) = (err e, db)

  -- a call that begins a transaction, runs the body, and rolls back where it did not commit
  unfoldable pub transact : Tx (Result A) → Db → Result A × Db
  transact body db = settle db (body db)

unfoldable pub modify : (Db → Db) → Tx (Unit {0})
modify f db = ok (tt, f db)

unfoldable pub require : Bool → Error → Tx (Unit {0})
require b e db = if b then ok (tt, db) else err e
