-- ===== src/Store/Exec/Atomic.antt =====
-- What a transaction of crates/psst-store/src answers and keeps.
use psst.Prelude.{◌≡◌, refl, ap, sym, ◌∙◌, Bool, true, false, Option, none, some, if◌then◌else◌}
use psst.Core.Error.{ok, err}
use psst.Store.Error.{SqliteError, RepositoryError}
use psst.Store.Schema.{Db}
use psst.Store.Exec.{Exec, Outcome, Io, reliable, transaction, begun, finish, fail, continue, ◌>>=◌}
use psst.Store.Exec.Steps.{IsPreorder, Steps}

module _ {ℓ} {A : Type ℓ} where
  finish-ok :
      (db after : Db) (r : Outcome A × Db) (c : Option SqliteError) (a : A)
      → finish db r c ≡ (ok a, after)
      → r ≡ (ok a, after)
  finish-ok db after (ok x, mid) none a h = h
  finish-ok db after (ok x, mid) (some e) a h = absurd (cc)
  finish-ok db after (err e, mid) c a h = absurd (cc)

  begun-ok :
      (b c : Option SqliteError) (body : Exec A) (db after : Db) (a : A)
      → begun b c body db ≡ (ok a, after)
      → body db ≡ (ok a, after)
  begun-ok none c body db after a h = finish-ok db after (body db) c a h
  begun-ok (some e) c body db after a h = absurd (cc)

  -- An answer is the answer of the body, and what the body wrote is kept.
  pub transaction-ok :
      (io : Io) (body : Exec A) (db after : Db) (a : A)
      → transaction io body db ≡ (ok a, after)
      → body db ≡ (ok a, after)
  unfolding transaction
  transaction-ok io body db after a h = begun-ok io.begin io.commit body db after a h

  eta_of : (r : Outcome A × Db) (a : A) → r.0 ≡ ok a → ◌≡◌ {A = Outcome A × Db} r (ok a, r.1)
  eta_of (o, d) a h = cc

  -- The same, read off the answer alone.
  pub transaction-ok_at :
      (io : Io) (body : Exec A) (db : Db) (a : A)
      → (transaction io body db).0 ≡ ok a
      → ((body db).0 ≡ ok a) × ((transaction io body db).1 ≡ (body db).1)
  transaction-ok_at io body db a h =
      let q =
        transaction-ok io body db (transaction io body db).1 a
          (eta_of (transaction io body db) a h) in
      (ap (λ r. r.0) q, sym (ap (λ r. r.1) q))

  finish-reliable :
      (db after : Db) (r : Outcome A × Db) (a : A)
      → r ≡ (ok a, after)
      → finish db r none ≡ (ok a, after)
  finish-reliable db after (ok x, mid) a h = h
  finish-reliable db after (err e, mid) a h = absurd (cc)

  pub transaction-reliable :
      (body : Exec A) (db after : Db) (a : A)
      → body db ≡ (ok a, after)
      → transaction reliable body db ≡ (ok a, after)
  unfolding transaction
  transaction-reliable body db after a h = finish-reliable db after (body db) a h

  finish-reliable_err :
      (db : Db) (r : Outcome A × Db) (e : RepositoryError)
      → r.0 ≡ err e
      → finish db r none ≡ (err e, db)
  finish-reliable_err db (ok x, mid) e h = absurd (cc)
  finish-reliable_err db (err x, mid) e h = cc

  pub transaction-reliable_err :
      (body : Exec A) (db : Db) (e : RepositoryError)
      → (body db).0 ≡ err e
      → transaction reliable body db ≡ (err e, db)
  unfolding transaction
  transaction-reliable_err body db e h = finish-reliable_err db (body db) e h

  finish-err :
      (db : Db) (r : Outcome A × Db) (c : Option SqliteError) (e : RepositoryError)
      → (finish db r c).0 ≡ err e
      → (finish db r c).1 ≡ db
  finish-err db (ok x, mid) none e h = absurd (cc)
  finish-err db (ok x, mid) (some x') e h = refl
  finish-err db (err x, mid) c e h = refl

  begun-err :
      (b c : Option SqliteError) (body : Exec A) (db : Db) (e : RepositoryError)
      → (begun b c body db).0 ≡ err e
      → (begun b c body db).1 ≡ db
  begun-err none c body db e h = finish-err db (body db) c e h
  begun-err (some x) c body db e h = refl

  -- A transaction that fails, at BEGIN, in its body or at COMMIT, leaves the database as it was.
  pub transaction-err :
      (io : Io) (body : Exec A) (db : Db) (e : RepositoryError)
      → (transaction io body db).0 ≡ err e
      → (transaction io body db).1 ≡ db
  unfolding transaction
  transaction-err io body db e h = begun-err io.begin io.commit body db e h

-- An action that only reads.
abbrev pub Unmoved : Db → Db → Type 0
Unmoved a b = b ≡ a

pub Unmoved-order : IsPreorder Unmoved
Unmoved-order = record { same = λ db. refl; compose = λ a b c h k. k ∙ h }

-- An action that changes nothing when it fails.
pub record Atomic {ℓ} {A : Type ℓ} (m : Exec A) : Type ℓ where
  pub at : (db : Db) (e : RepositoryError) → (m db).0 ≡ err e → (m db).1 ≡ db

pub Atomic-transaction {ℓ} : {A : Type ℓ} (io : Io) (body : Exec A) → Atomic (transaction io body)
Atomic-transaction io body = record { at = transaction-err io body }

pub Atomic-fail {ℓ} : {A : Type ℓ} (e : RepositoryError) → Atomic {A = A} (fail e)
unfolding fail
Atomic-fail e = record { at = λ db x h. refl }

pub Atomic-if {ℓ} :
    {A : Type ℓ} (b : Bool) (m n : Exec A) → Atomic m → Atomic n → Atomic (if b then m else n)
Atomic-if true m n km kn = km
Atomic-if false m n km kn = kn

continue-Atomic {ℓ κ} :
    {A : Type ℓ} {B : Type κ} (r : Outcome A) (f : A → Exec B) (a b : Db) (e : RepositoryError)
    → b ≡ a
    → ((x : A) → Atomic (f x))
    → (continue r f b).0 ≡ err e
    → (continue r f b).1 ≡ a
continue-Atomic (ok x) f a b e h k q = (k x).at b e q ∙ h
continue-Atomic (err x) f a b e h k q = h

pub Atomic-bind {ℓ κ} :
    {A : Type ℓ} {B : Type κ} (m : Exec A) (f : A → Exec B)
    → Steps Unmoved m
    → ((x : A) → Atomic (f x))
    → Atomic (m >>= f)
unfolding ◌>>=◌
Atomic-bind m f km kf = record {
  at = λ db e h. continue-Atomic (m db).0 f db (m db).1 e (km.at db) kf h;
}

continue-quiet {ℓ κ} :
    {A : Type ℓ} {B : Type κ} (r : Outcome A) (f : A → Exec B) (a b : Db) (e : RepositoryError)
    → ((x : RepositoryError) → r ≡ err x → b ≡ a)
    → ((x : A) (db : Db) → ¬ ((f x db).0 ≡ err e))
    → (continue r f b).0 ≡ err e
    → (continue r f b).1 ≡ a
continue-quiet (ok x) f a b e h k q = absurd (k x b q)
continue-quiet (err x) f a b e h k q = h x refl

-- What follows never fails.
pub Atomic-then {ℓ κ} :
    {A : Type ℓ} {B : Type κ} (m : Exec A) (f : A → Exec B)
    → Atomic m
    → ((e : RepositoryError) (x : A) (db : Db) → ¬ ((f x db).0 ≡ err e))
    → Atomic (m >>= f)
unfolding ◌>>=◌
Atomic-then m f km kf = record {
  at = λ db e h. continue-quiet (m db).0 f db (m db).1 e (km.at db) (kf e) h;
}

pub ruleset atomic_rules = (Atomic-transaction, Atomic-fail, Atomic-if, Atomic-bind)
