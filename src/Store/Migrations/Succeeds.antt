-- ===== src/Store/Migrations/Succeeds.antt =====
-- When crates/psst-store/src/lib.rs migrates.
use psst.Prelude.{
  ℕ, ◌≡◌, ◌≤◌, refl, ap, subst, ◌∙◌, ◌+◌, drop, String, Option, some, List, [], ◌∷◌, ◌++◌, map,
  take, length, select_rows, arith,
}
use psst.Prelude.Int.{pos}
use psst.Core.Error.{ok}
use psst.Store.Migrations.{
  Migration, Stored, int_lt, application_id, validate_migration_plan, supported_version, entry,
  verify_migration_ledger, verify_application_id, apply_all, migrate,
}
use psst.Store.Migrations.Complete.{select-rest}
use psst.Store.Migrations.Again.{verify-own, supported_lem}

module _ (digest_hex : List ℕ → String) {Schema : Type 0}
    (execute_batch : String → Schema → Option Schema) where
  -- The scripts run one after another, each on the schema that the one before leaves, up to a last
  -- schema.
  pub data Runs : List Migration → Schema → Schema → Type 0 where
    nothing : {s : Schema} → Runs [] s s
    then_runs :
        {m : Migration} {ms : List Migration} {s t u : Schema}
        → execute_batch m.sql s ≡ some t
        → Runs ms t u
        → Runs (m ∷ ms) s u

  apply_all-Runs :
      {ms : List Migration} {s u : Schema} (d : Stored Schema)
      → Runs ms s u
      → d.schema ≡ s
      → (done : Stored Schema) × (apply_all digest_hex execute_batch ms d ≡ ok done)
        × (done.schema ≡ u)
  unfolding apply_all
  apply_all-Runs d nothing e = (d, refl, e)
  apply_all-Runs d (then_runs {m} {t = t} ran rest) e =
      let (done, ih, last) =
        apply_all-Runs (record d { schema = t; ledger = d.ledger ++ entry digest_hex m ∷ [] }) rest
          refl in
      (done, rw (e, ran) ih, last)

  -- A database that no other application owns, whose ledger holds the first migrations of a plan that
  -- passes `validate_migration_plan`, is migrated, if the scripts of the other migrations run one
  -- after another on its schema, and has the schema that they lead to.
  pub migrate_succeeds :
      (plan : List Migration) (n : ℕ) (d : Stored Schema) (migrated : Schema)
      → Runs (drop n plan) d.schema migrated
      → validate_migration_plan plan ≡ ok tt
      → verify_application_id digest_hex d.owner ≡ ok tt
      → n ≤ length plan
      → d.ledger ≡ map (entry digest_hex) (take n plan)
      → (done : Stored Schema) × (migrate digest_hex execute_batch plan d ≡ ok done)
        × (done.schema ≡ migrated)
  unfolding migrate validate_migration_plan
  migrate_succeeds plan n d migrated runs v owned l same =
      let all : 0 + n ≡ n = omega arith in
      let passed =
        verify-own digest_hex plan (length plan) 0 n plan refl v (omega arith) l ∙ ap ok all in
      let e : n + 0 ≡ n = omega arith in
      let rest =
        subst (λ j. select_rows (λ (x : Migration). int_lt (pos j) x.version) plan ≡ drop n plan) e
          (select-rest n 0 plan v) in
      let (after, ran, last) = apply_all-Runs d runs refl in
      let checked : verify_migration_ledger digest_hex plan (supported_version plan) 0 d.ledger
          ≡ ok n =
        rw (same, supported_lem plan v) passed in
      (record after { owner = application_id }, rw (owned, checked, rest, ran) refl, last)
