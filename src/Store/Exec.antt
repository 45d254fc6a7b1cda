-- ===== src/Store/Exec.antt =====
-- Statements on the database and transactions. A statement that fails keeps what was written before
-- it; dropping a transaction that was not committed takes all of it back.
pub mod Steps
pub mod Atomic
pub mod Inversion
use psst.Prelude.{Bool, Option, none, some, if◌then◌else◌}
use psst.Core.Error.{Result, ok, err}
use psst.Store.Error.{SqliteError, RepositoryError, from_sqlite}
use psst.Store.Schema.{Db}

abbrev pub Outcome {ℓ} : Type ℓ → Type ℓ
Outcome A = Result RepositoryError A

abbrev pub Exec {ℓ} : Type ℓ → Type ℓ
Exec A = Db → Outcome A × Db

unfoldable pub pure {ℓ} : {A : Type ℓ} → A → Exec A
pure a db = (ok a, db)

unfoldable pub fail {ℓ} : {A : Type ℓ} → RepositoryError → Exec A
fail e db = (err e, db)

unfoldable pub lift {ℓ} : {A : Type ℓ} → Outcome A → Exec A
lift r db = (r, db)

-- A query reads the database, and an update writes it.
unfoldable pub query {ℓ} : {A : Type ℓ} → (Db → A) → Exec A
query f db = (ok (f db), db)

unfoldable pub modify : (Db → Db) → Exec (Unit {0})
modify f db = (ok tt, f db)

-- `if b { return Err(e) }`.
unfoldable pub reject_if : Bool → RepositoryError → Exec (Unit {0})
reject_if b e db = if b then (err e, db) else (ok tt, db)

abbrev pub or_error {ℓ} : {A : Type ℓ} → Option A → RepositoryError → Outcome A
or_error none e = err e
or_error (some a) e = ok a

-- `.ok_or(e)?`.
unfoldable pub ok_or {ℓ} : {A : Type ℓ} → Option A → RepositoryError → Exec A
ok_or o e db = (or_error o e, db)

abbrev pub continue {ℓ κ} : {A : Type ℓ} {B : Type κ} → Outcome A → (A → Exec B) → Exec B
continue (ok a) f db = f a db
continue (err e) f db = (err e, db)

infixl 5 ◌>>=◌ ◌>>◌
-- To open this is to open all of the statements above.
unfoldable pub ◌>>=◌ {ℓ κ} : {A : Type ℓ} {B : Type κ} → Exec A → (A → Exec B) → Exec B
unfolding pure fail lift query modify reject_if ok_or
◌>>=◌ m f db = continue (m db).0 f (m db).1

abbrev pub ◌>>◌ {ℓ κ} : {A : Type ℓ} {B : Type κ} → Exec A → Exec B → Exec B
m >> k = m >>= λ _. k

-- What SQLite answers to BEGIN and COMMIT of one transaction: `none` is success.
pub record Io : Type 0 where
  pub begin : Option SqliteError
  pub commit : Option SqliteError

abbrev pub reliable : Io
reliable = record { begin = none; commit = none }

abbrev pub finish {ℓ} : {A : Type ℓ} → Db → Outcome A × Db → Option SqliteError → Outcome A × Db
finish before (err e, after) c = (err e, before)
finish before (ok a, after) none = (ok a, after)
finish before (ok a, after) (some e) = (err (from_sqlite e), before)

abbrev pub begun {ℓ} : {A : Type ℓ} → Option SqliteError → Option SqliteError → Exec A → Exec A
begun none c body db = finish db (body db) c
begun (some e) c body db = (err (from_sqlite e), db)

-- BEGIN, the body, and COMMIT; any error rolls back.
unfoldable pub transaction {ℓ} : {A : Type ℓ} → Io → Exec A → Exec A
unfolding ◌>>=◌
transaction io body = begun io.begin io.commit body
