-- ===== src/Store/Exec/Steps.antt =====
-- How an action moves the database, one rule for each way to build an action.
use psst.Prelude.{Bool, true, false, Option, none, some, if◌then◌else◌}
use psst.Core.Error.{ok, err}
use psst.Store.Error.{SqliteError, RepositoryError}
use psst.Store.Schema.{Db}
use psst.Store.Exec.{
  Exec, Outcome, Io, pure, fail, lift, query, modify, reject_if, ok_or, transaction, begun, finish,
  continue, ◌>>=◌,
}

-- A reflexive and transitive relation between databases.
pub record IsPreorder (R : Db → Db → Type 0) : Type 0 where
  pub same : (db : Db) → R db db
  pub compose : (a b c : Db) → R a b → R b c → R a c

-- Whatever the action answers, the database that it leaves is related to the one that it found.
pub record Steps {ℓ} {A : Type ℓ} (R : Db → Db → Type 0) (m : Exec A) : Type ℓ where
  pub at : (db : Db) → R db (m db).1

module _ {R : Db → Db → Type 0} (p : IsPreorder R) where
  pub Steps-pure {ℓ} : {A : Type ℓ} (a : A) → Steps R (pure a)
  unfolding pure
  Steps-pure a = record { at = p.same }

  pub Steps-fail {ℓ} : {A : Type ℓ} (e : RepositoryError) → Steps {A = A} R (fail e)
  unfolding fail
  Steps-fail e = record { at = p.same }

  pub Steps-lift {ℓ} : {A : Type ℓ} (r : Outcome A) → Steps R (lift r)
  unfolding lift
  Steps-lift r = record { at = p.same }

  pub Steps-query {ℓ} : {A : Type ℓ} (f : Db → A) → Steps R (query f)
  unfolding query
  Steps-query f = record { at = p.same }

  pub Steps-ok_or {ℓ} : {A : Type ℓ} (o : Option A) (e : RepositoryError) → Steps R (ok_or o e)
  unfolding ok_or
  Steps-ok_or o e = record { at = p.same }

  pub Steps-reject_if : (b : Bool) (e : RepositoryError) → Steps R (reject_if b e)
  unfolding reject_if
  Steps-reject_if true e = record { at = p.same }
  Steps-reject_if false e = record { at = p.same }

  pub Steps-modify : (f : Db → Db) → ((db : Db) → R db (f db)) → Steps R (modify f)
  unfolding modify
  Steps-modify f h = record { at = h }

  continue-step {ℓ κ} :
      {A : Type ℓ} {B : Type κ} (r : Outcome A) (f : A → Exec B) (a b : Db)
      → R a b
      → ((x : A) → Steps R (f x))
      → R a (continue r f b).1
  continue-step (ok x) f a b h k = p.compose a b (f x b).1 h ((k x).at b)
  continue-step (err e) f a b h k = h

  pub Steps-bind {ℓ κ} :
      {A : Type ℓ} {B : Type κ} (m : Exec A) (f : A → Exec B)
      → Steps R m
      → ((x : A) → Steps R (f x))
      → Steps R (m >>= f)
  unfolding ◌>>=◌
  Steps-bind m f km kf = record { at = λ db. continue-step (m db).0 f db (m db).1 (km.at db) kf }

  finish-step {ℓ} :
      {A : Type ℓ} (before : Db) (r : Outcome A) (after : Db) (c : Option SqliteError)
      → R before after
      → R before (finish before (r, after) c).1
  finish-step before (err e) after c h = p.same before
  finish-step before (ok a) after none h = h
  finish-step before (ok a) after (some e) h = p.same before

  begun-step {ℓ} :
      {A : Type ℓ} (b c : Option SqliteError) (body : Exec A) (db : Db)
      → Steps R body
      → R db (begun b c body db).1
  begun-step none c body db h = finish-step db (body db).0 (body db).1 c (h.at db)
  begun-step (some e) c body db h = p.same db

  pub Steps-transaction {ℓ} :
      {A : Type ℓ} (io : Io) (body : Exec A) → Steps R body → Steps R (transaction io body)
  unfolding transaction
  Steps-transaction io body h = record { at = λ db. begun-step io.begin io.commit body db h }

  pub Steps-if {ℓ} :
      {A : Type ℓ} (b : Bool) (m n : Exec A) → Steps R m → Steps R n → Steps R (if b then m else n)
  Steps-if true m n km kn = km
  Steps-if false m n km kn = kn

pub ruleset step_rules = (
  Steps-pure, Steps-fail, Steps-lift, Steps-query, Steps-ok_or, Steps-reject_if, Steps-modify,
  Steps-bind, Steps-transaction, Steps-if,
)
