-- ===== src/Tests/Migrated.antt =====
-- A database of the first migration, migrated to a plan of two.
use psst.Prelude.{
  ℕ, ◌≡◌, ◌++◌, refl, String, Option, none, some, ◌==◌, if◌then◌else◌, List, [], ◌∷◌, map, drop,
  take, arith,
}
use psst.Prelude.Texts.{as_bytes}
use psst.Prelude.Int.{pos}
use psst.Core.Error.{ok}
use psst.Store.Migrations.{
  Migration, Stored, application_id, checksum, verify_application_id, validate_migration_plan,
  entry, migrate,
}
use psst.Store.Migrations.Complete.{migrate_complete}
use psst.Store.Migrations.Succeeds.{Runs, nothing, then_runs, migrate_succeeds}
use psst.Store.Migrations.Again.{migrate_again}

-- A digest that keeps a long text from a short one, and a schema that is its scripts.
abbrev digest_hex : List ℕ → String
digest_hex [] = "00"
digest_hex (b ∷ []) = "01"
digest_hex (b ∷ c ∷ bs) = "02"

abbrev execute_batch : String → List String → Option (List String)
execute_batch sql scripts = some (sql ∷ scripts)

abbrev plan : List Migration
plan = record { version = pos 1; sql = "a" } ∷ record { version = pos 2; sql = "bc" } ∷ []

abbrev before : Stored (List String)
before = record {
  schema = "a" ∷ [];
  ledger = record { version = pos 1; checksum = "01" } ∷ [];
  owner = pos 0;
}

abbrev after : Stored (List String)
after = record {
  schema = "bc" ∷ "a" ∷ [];
  ledger =
      record { version = pos 1; checksum = "01" }
      ∷ record { version = pos 2; checksum = "02" }
      ∷ [];
  owner = application_id;
}

validate-plan : validate_migration_plan plan ≡ ok tt
unfolding validate_migration_plan
validate-plan = refl

migrate-before : migrate digest_hex execute_batch plan before ≡ ok after
unfolding migrate as_bytes
migrate-before = refl

migrate_complete_example :
    (after.ledger ≡ map (entry digest_hex) plan)
    × (after.owner ≡ application_id)
    × (n : ℕ) × (before.ledger ++ map (entry digest_hex) (drop n plan) ≡ after.ledger)
migrate_complete_example =
    migrate_complete digest_hex execute_batch plan before after validate-plan migrate-before

migrate_again_example : migrate digest_hex execute_batch plan after ≡ ok after
migrate_again_example =
    migrate_again digest_hex execute_batch plan before after validate-plan migrate-before

owner-before : verify_application_id digest_hex before.owner ≡ ok tt
unfolding verify_application_id
owner-before = refl

ledger-before : before.ledger ≡ map (entry digest_hex) (take 1 plan)
unfolding checksum as_bytes
ledger-before = refl

-- SQLite runs only the second script, on the schema of the first.
abbrev execute_second : String → List String → Option (List String)
execute_second sql [] = none
execute_second sql (s ∷ scripts) = if sql == "bc" then some (sql ∷ s ∷ scripts) else none

second-Runs : Runs digest_hex execute_second (drop 1 plan) before.schema after.schema
second-Runs = then_runs refl nothing

migrate_succeeds_example :
    (done : Stored (List String)) × (migrate digest_hex execute_second plan before ≡ ok done)
    × (done.schema ≡ after.schema)
migrate_succeeds_example =
    migrate_succeeds digest_hex execute_second plan 1 before after.schema second-Runs validate-plan
      owner-before (omega arith) ledger-before
