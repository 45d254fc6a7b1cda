-- ===== src/Store/Migrations/Complete.antt =====
-- What migrating does in crates/psst-store/src/lib.rs.
use psst.Prelude.{
  ℕ, zero, suc, ◌≡◌, ◌≤◌, ◌+◌, refl, ap, sym, subst, ◌∙◌, String, true, false, Option, none, some,
  List, [], ◌∷◌, ◌++◌, map, drop, select_rows, append_assoc, Option-cases, inl, inr, arith, eq_iff,
}
use mathlib.Core.List.{append-nil}
use psst.Prelude.Int.{ℤ, pos, negsuc}
use psst.Core.Error.{Result, ok, err, ◌>>=◌}
use psst.Store.Migrations.{
  StoreError, Migration, Applied, Stored, int_lt, int_eq, application_id, validate_from,
  validate_migration_plan, supported_version, get_at, checksum, entry, check_row,
  verify_migration_ledger, verify_application_id, executed, apply_all, migrate,
}

int_eq_iff : (a b : ℤ) → int_eq a b ≡ true → a ≡ b
int_eq_iff (pos a) (pos b) h = ground arith
int_eq_iff (negsuc a) (negsuc b) h = ground arith
int_eq_iff (pos a) (negsuc b) h = absurd (cc)
int_eq_iff (negsuc a) (pos b) h = absurd (cc)

bind-ok :
    {A B : Type 0} (r : Result StoreError A) (f : A → Result StoreError B) (b : B)
    → (r >>= f) ≡ ok b
    → (a : A) × (r ≡ ok a) × (f a ≡ ok b)
bind-ok (ok a) f b h = (a, refl, h)
bind-ok (err e) f b h = absurd (cc)

drop-get_at :
    (plan : List Migration) (i : ℕ) (m : Migration)
    → get_at plan i ≡ some m
    → drop i plan ≡ m ∷ drop (suc i) plan
unfolding get_at
drop-get_at [] i m h = absurd (cc)
drop-get_at (x ∷ plan) zero m h = ground arith
drop-get_at (x ∷ plan) (suc i) m h = drop-get_at plan i m h

pub valid-head :
    (i : ℕ) (m : Migration) (rest : List Migration)
    → validate_from i (m ∷ rest) ≡ ok tt
    → (m.version ≡ pos (suc i)) × (validate_from (suc i) rest ≡ ok tt)
unfolding validate_from
valid-head i m rest h = ground (arith, int_eq_iff m.version (pos (suc i)))

module _ (digest_hex : List ℕ → String) where
  known_row :
      (plan : List Migration) (supported : ℤ) (applied : ℕ) (row : Applied) (m : Migration)
      → get_at plan applied ≡ some m
      → check_row digest_hex plan supported applied row ≡ ok tt
      → (row.version ≡ pos (suc applied)) × (row.checksum ≡ checksum digest_hex m.sql)
  known_row plan supported applied row m g h = ground (
    arith,
    int_eq_iff row.version (pos (suc applied)),
    eq_iff row.checksum (checksum digest_hex m.sql),
  )

  unknown_row :
      (plan : List Migration) (supported : ℤ) (applied : ℕ) (row : Applied)
      → get_at plan applied ≡ none
      → ¬ (check_row digest_hex plan supported applied row ≡ ok tt)
  unknown_row plan supported applied row g h = ground arith

  -- The rows of a ledger that passes are the entries of the first migrations of the plan.
  verify-entries :
      (plan : List Migration) (supported : ℤ) (applied : ℕ) (rows : List Applied) (n : ℕ)
      → validate_from applied (drop applied plan) ≡ ok tt
      → verify_migration_ledger digest_hex plan supported applied rows ≡ ok n
      → rows ++ map (entry digest_hex) (drop n plan) ≡ map (entry digest_hex) (drop applied plan)
  unfolding verify_migration_ledger
  verify-entries plan supported applied [] n v h =
      let e : applied ≡ n = ground arith in ap (λ i. map (entry digest_hex) (drop i plan)) (sym e)
  verify-entries plan supported applied (row ∷ rows) n v h =
      let (_, passed, go) =
        bind-ok (check_row digest_hex plan supported applied row)
          (λ _. verify_migration_ledger digest_hex plan supported (suc applied) rows) n h in
      elim (Option-cases (get_at plan applied)) [
        | inl g ↦ absurd (unknown_row plan supported applied row g passed)
        | inr (m, g) ↦
            let cut = drop-get_at plan applied m g in
            let (numbered, valid) =
              valid-head applied m (drop (suc applied) plan)
                (subst (λ l. validate_from applied l ≡ ok tt) cut v) in
            let (version, sum) = known_row plan supported applied row m g passed in
            let same : row ≡ entry digest_hex m = ground arith in
            let ih = verify-entries plan supported (suc applied) rows n valid go in
            rw (cut, same, ih)
      ]

  module _ {Schema : Type 0} (execute_batch : String → Schema → Option Schema) where
    apply_all-ledger :
        (ms : List Migration) (d done : Stored Schema)
        → apply_all digest_hex execute_batch ms d ≡ ok done
        → done.ledger ≡ d.ledger ++ map (entry digest_hex) ms
    unfolding apply_all
    apply_all-ledger [] d done h =
        let e : done ≡ d = ground arith in
        subst (λ (x : Stored Schema). x.ledger ≡ d.ledger ++ []) (sym e) (sym (append-nil d.ledger))
    apply_all-ledger (m ∷ ms) d done h =
        let (s, _, go) =
          bind-ok (executed digest_hex execute_batch (execute_batch m.sql d.schema)) _ done h in
        apply_all-ledger ms (record d { schema = s; ledger = d.ledger ++ entry digest_hex m ∷ [] })
          done go
        ∙ append_assoc d.ledger (entry digest_hex m ∷ []) (map (entry digest_hex) ms)

select-later :
    (n k : ℕ) (ms : List Migration)
    → n ≤ k
    → validate_from k ms ≡ ok tt
    → select_rows (λ m. int_lt (pos n) m.version) ms ≡ ms
unfolding select_rows
select-later n k [] h v = refl
select-later n k (m ∷ ms) h v =
    let (numbered, valid) = valid-head k m ms v in
    let later : int_lt (pos n) m.version ≡ true = rw numbered (ground arith) in
    let ih = select-later n (suc k) ms (omega arith) valid in ground arith

pub select-rest :
    (j k : ℕ) (ms : List Migration)
    → validate_from k ms ≡ ok tt
    → select_rows (λ m. int_lt (pos (j + k)) m.version) ms ≡ drop j ms
unfolding select_rows
select-rest zero k ms v =
    let e : k ≡ 0 + k = omega arith in
    subst (λ n. select_rows (λ (x : Migration). int_lt (pos n) x.version) ms ≡ ms) e
      (select-later k k ms (omega arith) v)
select-rest (suc j) k [] v = refl
select-rest (suc j) k (m ∷ ms) v =
    let (numbered, valid) = valid-head k m ms v in
    let done : int_lt (pos (suc j + k)) m.version ≡ false = rw numbered (ground arith) in
    let e : j + suc k ≡ suc j + k = omega arith in
    let ih =
      subst (λ n. select_rows (λ (x : Migration). int_lt (pos n) x.version) ms ≡ drop j ms) e
        (select-rest j (suc k) ms valid) in
    ground arith

module _ (digest_hex : List ℕ → String) {Schema : Type 0}
    (execute_batch : String → Schema → Option Schema) where
  -- A migration that succeeds, under a plan that passes `validate_migration_plan`, leaves a ledger of
  -- the whole plan, one row for each migration in its order, and marks the database as the
  -- application's own. The rows that were there before are the first of them.
  pub migrate_complete :
      (plan : List Migration) (d done : Stored Schema)
      → validate_migration_plan plan ≡ ok tt
      → migrate digest_hex execute_batch plan d ≡ ok done
      → (done.ledger ≡ map (entry digest_hex) plan)
        × (done.owner ≡ application_id)
        × (n : ℕ) × (d.ledger ++ map (entry digest_hex) (drop n plan) ≡ done.ledger)
  unfolding migrate validate_migration_plan
  migrate_complete plan d done v h =
      let (_, owned, h1) = bind-ok (verify_application_id digest_hex d.owner) _ done h in
      let (n, passed, h2) =
        bind-ok (verify_migration_ledger digest_hex plan (supported_version plan) 0 d.ledger) _ done
          h1 in
      let (after, ran, h3) =
        bind-ok
          (apply_all digest_hex execute_batch (select_rows (λ m. int_lt (pos n) m.version) plan) d)
          _ done h2 in
      let entries = verify-entries digest_hex plan (supported_version plan) 0 d.ledger n v passed in
      let e : n + 0 ≡ n = omega arith in
      let rest =
        subst (λ j. select_rows (λ (x : Migration). int_lt (pos j) x.version) plan ≡ drop n plan) e
          (select-rest n 0 plan v) in
      let written = apply_all-ledger digest_hex execute_batch _ d after ran in
      let marked : record after { owner = application_id } ≡ done = ground arith in
      let whole : after.ledger ≡ d.ledger ++ map (entry digest_hex) (drop n plan) =
        written ∙ ap (λ ms. d.ledger ++ map (entry digest_hex) ms) rest in
      subst
        (λ (x : Stored Schema).
          (x.ledger ≡ map (entry digest_hex) plan)
          × (x.owner ≡ application_id)
          × (k : ℕ) × (d.ledger ++ map (entry digest_hex) (drop k plan) ≡ x.ledger))
        marked (whole ∙ entries, refl, n, sym whole)
