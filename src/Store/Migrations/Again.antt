-- ===== src/Store/Migrations/Again.antt =====
-- Migrating twice in crates/psst-store/src/lib.rs.
use psst.Prelude.{
  ℕ, zero, suc, ◌≡◌, ◌≤◌, ◌+◌, refl, ap, subst, ◌∙◌, String, Option, some, List, [], ◌∷◌, map, drop,
  length, take, select_rows, arith, eq_refl,
}
use psst.Prelude.Int.{pos}
use psst.Core.Error.{ok}
use psst.Store.Migrations.{
  Migration, Stored, int_lt, application_id, validate_from, validate_migration_plan,
  supported_version, get_at, checksum, entry, check_row, verify_migration_ledger,
  verify_application_id, apply_all, migrate,
}
use psst.Store.Migrations.Complete.{valid-head, select-rest, migrate_complete}

get_at-drop :
    (plan : List Migration) (i : ℕ) (m : Migration) (ms : List Migration)
    → drop i plan ≡ m ∷ ms
    → (get_at plan i ≡ some m) × (drop (suc i) plan ≡ ms)
unfolding get_at
get_at-drop [] zero m ms h = absurd (cc)
get_at-drop [] (suc i) m ms h = absurd (cc)
get_at-drop (x ∷ plan) zero m ms h = ground arith
get_at-drop (x ∷ plan) (suc i) m ms h = get_at-drop plan i m ms h

drop-length : (plan : List Migration) → drop (length plan) plan ≡ []
drop-length [] = refl
drop-length (m ∷ plan) = drop-length plan

take-length : (plan : List Migration) → take (length plan) plan ≡ plan
take-length [] = refl
take-length (m ∷ plan) = ap (λ ms. m ∷ ms) (take-length plan)

supported_version-length :
    (k : ℕ) (m : Migration) (ms : List Migration)
    → validate_from k (m ∷ ms) ≡ ok tt
    → supported_version (m ∷ ms) ≡ pos (k + length (m ∷ ms))
unfolding supported_version
supported_version-length k m [] v =
    let (numbered, _) = valid-head k m [] v in numbered ∙ ap pos (omega arith)
supported_version-length k m (n ∷ ms) v =
    let (_, valid) = valid-head k m (n ∷ ms) v in
    supported_version-length (suc k) n ms valid ∙ ap pos (omega arith)

pub supported_lem :
    (plan : List Migration)
    → validate_from 0 plan ≡ ok tt
    → supported_version plan ≡ pos (length plan)
unfolding supported_version
supported_lem [] v = refl
supported_lem (m ∷ ms) v = supported_version-length 0 m ms v ∙ ap pos (omega arith)

module _ (digest_hex : List ℕ → String) where
  check_row-own :
      (plan : List Migration) (n k : ℕ) (m : Migration)
      → get_at plan k ≡ some m
      → m.version ≡ pos (suc k)
      → suc k ≤ n
      → check_row digest_hex plan (pos n) k (entry digest_hex m) ≡ ok tt
  check_row-own plan n k m g numbered h =
      rw (numbered, g) (ground (arith, eq_refl (checksum digest_hex m.sql)))

  -- The entries of the first migrations of the plan pass.
  pub verify-own :
      (plan : List Migration) (n k j : ℕ) (ms : List Migration)
      → drop k plan ≡ ms
      → validate_from k ms ≡ ok tt
      → k + length ms ≡ n
      → j ≤ length ms
      → verify_migration_ledger digest_hex plan (pos n) k (map (entry digest_hex) (take j ms))
        ≡ ok (k + j)
  unfolding verify_migration_ledger
  verify-own plan n k zero ms c v h l = ap ok (omega arith)
  verify-own plan n k (suc j) [] c v h l = absurd (omega arith)
  verify-own plan n k (suc j) (m ∷ ms) c v h l =
      let (g, cut) = get_at-drop plan k m ms c in
      let (numbered, valid) = valid-head k m ms v in
      let own = check_row-own plan n k m g numbered (omega arith) in
      let e : suc k + j ≡ k + suc j = omega arith in
      rw own (verify-own plan n (suc k) j ms cut valid (omega arith) (omega arith) ∙ ap ok e)

  module _ {Schema : Type 0} (execute_batch : String → Schema → Option Schema) where
    migrate_settled :
        (plan : List Migration) (d : Stored Schema)
        → validate_from 0 plan ≡ ok tt
        → d.ledger ≡ map (entry digest_hex) plan
        → d.owner ≡ application_id
        → migrate digest_hex execute_batch plan d ≡ ok d
    unfolding migrate verify_application_id apply_all
    migrate_settled plan d v same owned =
        let n = length plan in
        let e : n + 0 ≡ n = omega arith in
        let nothing =
          subst (λ j. select_rows (λ (x : Migration). int_lt (pos j) x.version) plan ≡ drop n plan)
            e (select-rest n 0 plan v)
          ∙ drop-length plan in
        let passed =
          subst
            (λ ms.
              verify_migration_ledger digest_hex plan (pos n) 0 (map (entry digest_hex) ms) ≡ ok n)
            (take-length plan)
            (verify-own plan n 0 n plan refl v (omega arith) (omega arith) ∙ ap ok (omega arith)) in
        rw (owned, same, supported_lem plan v, passed, nothing) refl

    -- Under a plan that passes `validate_migration_plan`, a database that a migration answered is
    -- migrated again without an error and without a change.
    pub migrate_again :
        (plan : List Migration) (d done : Stored Schema)
        → validate_migration_plan plan ≡ ok tt
        → migrate digest_hex execute_batch plan d ≡ ok done
        → migrate digest_hex execute_batch plan done ≡ ok done
    unfolding validate_migration_plan
    migrate_again plan d done v h =
        let (whole, owned, _, _) = migrate_complete digest_hex execute_batch plan d done v h in
        migrate_settled plan done v whole owned
