-- ===== src/Store/Migrations.antt =====
-- crates/psst-store/src/lib.rs: the migration plan, the ledger of applied migrations, and migrating.
-- The SQL of a migration runs in SQLite, which may refuse it: `execute_batch` is what it does to the
-- schema; its errors on the transaction itself and on the ledger's own statements are left out.
-- `digest_hex` is the SHA-256 digest of the `sha2` crate as lower-case hexadecimal text.
pub mod Complete
pub mod Again
pub mod Succeeds
use psst.Prelude.{
  ℕ, zero, suc, String, Bool, true, false, not, ◌&&◌, Option, none, some, List, [], ◌∷◌, ◌++◌,
  select_rows, ltb, eqb, ◌==◌, if◌then◌else◌,
}
use psst.Prelude.Int.{ℤ, pos, negsuc}
use psst.Prelude.Texts.{as_bytes}
use psst.Core.Error.{Result, ok, err, ◌>>=◌, ◌>>◌}

pub data StoreError : Type 0 where
  database : StoreError
  unexpected_application_id : ℤ → StoreError
  future_schema : ℤ → ℤ → StoreError
  migration_checksum_mismatch : ℤ → StoreError
  invalid_migration_ledger : ℤ → ℤ → StoreError
  invalid_migration_plan : StoreError
  worker_unavailable : StoreError
  -- An index out of range, where the program panics.
  panicked : StoreError

pub record Migration : Type 0 where
  pub version : ℤ
  pub sql : String

-- A row of `schema_migrations`, without the time.
pub record Applied : Type 0 where
  pub version : ℤ
  pub checksum : String

abbrev pub int_lt : ℤ → ℤ → Bool
int_lt (pos a) (pos b) = ltb a b
int_lt (pos a) (negsuc b) = false
int_lt (negsuc a) (pos b) = true
int_lt (negsuc a) (negsuc b) = ltb b a

abbrev pub int_eq : ℤ → ℤ → Bool
int_eq (pos a) (pos b) = eqb a b
int_eq (negsuc a) (negsuc b) = eqb a b
int_eq (pos a) (negsuc b) = false
int_eq (negsuc a) (pos b) = false

-- "PSST".
abbrev pub application_id : ℤ
application_id = pos 0x50535354

-- The loop of `validate_migration_plan`, at an index.
unfoldable pub validate_from : ℕ → List Migration → Result StoreError (Unit {0})
validate_from index [] = ok tt
validate_from index (m ∷ rest) =
    let later = validate_from (suc index) rest in
    if not (int_eq m.version (pos (suc index))) then err invalid_migration_plan else later

unfoldable pub validate_migration_plan : List Migration → Result StoreError (Unit {0})
unfolding validate_from
validate_migration_plan = validate_from 0

unfoldable pub supported_version : List Migration → ℤ
supported_version [] = pos 0
supported_version (m ∷ []) = m.version
supported_version (m ∷ n ∷ rest) = supported_version (n ∷ rest)

unfoldable pub get_at : List Migration → ℕ → Option Migration
get_at [] i = none
get_at (m ∷ rest) zero = some m
get_at (m ∷ rest) (suc i) = get_at rest i

-- A database before and after migrating: its schema, its ledger in version order, and the id of the
-- application that owns it.
pub record Stored (Schema : Type 0) : Type 0 where
  pub schema : Schema
  pub ledger : List Applied
  pub owner : ℤ

module _ (digest_hex : List ℕ → String) where
  unfoldable pub checksum : String → String
  checksum sql = digest_hex (as_bytes sql)

  abbrev pub entry : Migration → Applied
  entry m = record { version = m.version; checksum = checksum m.sql }

  -- What the loop of `verify_migration_ledger` does with the migration of a row.
  abbrev pub matching : Option Migration → Applied → Result StoreError (Unit {0})
  matching none row = err panicked
  matching (some m) row =
      if not (row.checksum == checksum m.sql)
      then err (migration_checksum_mismatch row.version)
      else ok tt

  abbrev pub check_row : List Migration → ℤ → ℕ → Applied → Result StoreError (Unit {0})
  check_row migrations supported applied row =
      if int_lt supported row.version
      then err (future_schema row.version supported)
      else if not (int_eq row.version (pos (suc applied)))
      then err (invalid_migration_ledger (pos (suc applied)) row.version)
      else matching (get_at migrations applied) row

  -- `verify_migration_ledger`, from the number of rows that were checked.
  unfoldable pub verify_migration_ledger :
      List Migration → ℤ → ℕ → List Applied → Result StoreError ℕ
  unfolding checksum get_at
  verify_migration_ledger migrations supported applied [] = ok applied
  verify_migration_ledger migrations supported applied (row ∷ rows) =
      check_row migrations supported applied row
      >> verify_migration_ledger migrations supported (suc applied) rows

  unfoldable pub verify_application_id : ℤ → Result StoreError (Unit {0})
  verify_application_id actual =
      if not (int_eq actual (pos 0)) && not (int_eq actual application_id)
      then err (unexpected_application_id actual)
      else ok tt

  module _ {Schema : Type 0} (execute_batch : String → Schema → Option Schema) where
    abbrev executed : Option Schema → Result StoreError Schema
    executed none = err database
    executed (some s) = ok s

    -- The loop of `migrate`: each migration, and its row in the ledger. Its version is larger than that
    -- of every row, so the PRIMARY KEY is free and the row comes last.
    unfoldable pub apply_all : List Migration → Stored Schema → Result StoreError (Stored Schema)
    apply_all [] d = ok d
    apply_all (m ∷ rest) d = executed (execute_batch m.sql d.schema) >>= λ s.
        apply_all rest (record d { schema = s; ledger = d.ledger ++ entry m ∷ [] })

    -- One transaction: an error leaves the database as it was.
    unfoldable pub migrate : List Migration → Stored Schema → Result StoreError (Stored Schema)
    unfolding verify_application_id supported_version verify_migration_ledger apply_all select_rows
    migrate migrations d =
        verify_application_id d.owner
        >> (verify_migration_ledger migrations (supported_version migrations) 0 d.ledger
            >>= λ version.
                apply_all (select_rows (λ m. int_lt (pos version) m.version) migrations) d
                >>= λ done. ok (record done { owner = application_id }))
