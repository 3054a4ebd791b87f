-- ===== src/Store/Keeps.antt =====
-- Predicates on the database that transactions keep: one rule for each way to build a body.
use oc_review_bot.Common.{◌≡◌, refl, Bool, true, false, if◌then◌else◌}
use oc_review_bot.Store.Schema.{Db, Error}
use oc_review_bot.Store.Tx.{
  Result, ok, err, Tx, ◌>>=◌, pure, rollback, gets, require, commit, commit_with, settle, transact,
}

-- The predicate holds at the end of a body that was not rolled back.
abbrev pub After : {A : Type 0} → (Db → Type 0) → Result (A × Db) → Type 0
After P (ok (a, db)) = P db
After P (err e) = Unit

pub record Keeps {A : Type 0} (P : Db → Type 0) (body : Tx A) : Type 0 where
  pub at : (db : Db) → P db → After P (body db)

-- A call keeps the predicate, whether it commits or rolls back.
pub record KeepsCall {A : Type 0} (P : Db → Type 0) (call : Db → Result A × Db) : Type 0 where
  pub at : (db : Db) → P db → P (call db).1

after_settle :
    {A : Type 0} (P : Db → Type 0) (db : Db) (r : Result (Result A × Db))
    → After P r
    → P db
    → P (settle db r).1
after_settle P db (ok (a, db')) q h = q
after_settle P db (err e) q h = h

module _ {A : Type 0} {P : Db → Type 0} where
  pub Keeps-pure : (a : A) → Keeps P (pure a)
  unfolding pure
  Keeps-pure a = record { at = λ db h. h }

  pub Keeps-rollback : (e : Error) → Keeps P (rollback {A = A} e)
  unfolding rollback
  Keeps-rollback e = record { at = λ db h. tt }

  pub Keeps-gets : (f : Db → A) → Keeps P (gets f)
  unfolding gets
  Keeps-gets f = record { at = λ db h. h }

  pub Keeps-commit : (a : A) → Keeps P (commit a)
  unfolding commit
  Keeps-commit a = record { at = λ db h. h }

  pub Keeps-commit_with : (e : Error) → Keeps P (commit_with {A = A} e)
  unfolding commit_with
  Keeps-commit_with e = record { at = λ db h. h }

  pub KeepsCall-transact : (body : Tx (Result A)) → Keeps P body → KeepsCall P (transact body)
  unfolding transact
  KeepsCall-transact body k = record { at = λ db h. after_settle P db (body db) (k.at db h) h }

module _ {A B : Type 0} {P : Db → Type 0} where
  After-bind :
      (f : A → Tx B) (r : Result (A × Db))
      → ((a : A) → Keeps P (f a))
      → After P r
      → After P (elim r [ ok (a, db') ↦ f a db' | err e ↦ err e ])
  After-bind f (ok (a, db')) kf h = (kf a).at db' h
  After-bind f (err e) kf h = tt

  pub Keeps-bind :
      (m : Tx A) (f : A → Tx B) → Keeps P m → ((a : A) → Keeps P (f a)) → Keeps P (m >>= f)
  unfolding ◌>>=◌
  Keeps-bind m f km kf = record { at = λ db h. After-bind f (m db) kf (km.at db h) }

  -- The rest of the block may use what was read.
  pub Keeps-gets_bind :
      (f : Db → A) (n : A → Tx B)
      → ((db : Db) → P db → After P (n (f db) db))
      → Keeps P (gets f >>= n)
  unfolding ◌>>=◌ gets
  Keeps-gets_bind f n h = record { at = h }

module _ {B : Type 0} {P : Db → Type 0} where
  -- The rest of the block may use the condition that was required.
  pub Keeps-require :
      (b : Bool) (e : Error) (n : Tx B) → (b ≡ true → Keeps P n) → Keeps P (require b e >>= λ _. n)
  unfolding ◌>>=◌ require
  Keeps-require true e n k = record { at = λ db h. (k refl).at db h }
  Keeps-require false e n k = record { at = λ db h. tt }

pub Keeps-require_only : {P : Db → Type 0} (b : Bool) (e : Error) → Keeps P (require b e)
unfolding require
Keeps-require_only true e = record { at = λ db h. h }
Keeps-require_only false e = record { at = λ db h. tt }

module _ {A : Type 0} {P : Db → Type 0} where
  -- Each branch may use what its test says.
  pub Keeps-if :
      {yes no : Tx A} (test : Bool)
      → (test ≡ false → Keeps P no)
      → (test ≡ true → Keeps P yes)
      → Keeps P (if test then yes else no)
  Keeps-if false otherwise k = otherwise refl
  Keeps-if true otherwise k = k refl

pub ruleset keeps_rules = (
  KeepsCall-transact, Keeps-bind, Keeps-if, Keeps-require_only, Keeps-commit, Keeps-commit_with,
  Keeps-rollback, Keeps-gets, Keeps-pure,
)

-- From a database with `Q` the body ends in one with `P`.
pub record Leads {A : Type 0} (Q P : Db → Type 0) (body : Tx A) : Type 0 where
  pub at : (db : Db) → Q db → After P (body db)

module _ {A B : Type 0} {R P : Db → Type 0} where
  After-Leads :
      (f : A → Tx B) (r : Result (A × Db))
      → ((a : A) → Leads R P (f a))
      → After R r
      → After P (elim r [ ok (a, db') ↦ f a db' | err e ↦ err e ])
  After-Leads f (ok (a, db')) kf h = (kf a).at db' h
  After-Leads f (err e) kf h = tt

  pub Leads-bind :
      {Q : Db → Type 0} (m : Tx A) (f : A → Tx B)
      → Leads Q R m
      → ((a : A) → Leads R P (f a))
      → Leads Q P (m >>= f)
  unfolding ◌>>=◌
  Leads-bind m f km kf = record { at = λ db h. After-Leads f (m db) kf (km.at db h) }

pub Keeps-Leads : {A : Type 0} {P : Db → Type 0} {body : Tx A} → Keeps P body → Leads P P body
Keeps-Leads k = record { at = k.at }
