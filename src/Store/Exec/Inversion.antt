-- ===== src/Store/Exec/Inversion.antt =====
-- An action that answers: what each of its parts answered.
use psst.Prelude.{◌≡◌, refl, ap, subst, sym, ◌∙◌, Option, some, arith, Bool, true, false}
use psst.Core.Error.{ok, err}
use psst.Store.Error.{RepositoryError}
use psst.Store.Schema.{Db}
use psst.Store.Exec.{Exec, Outcome, lift, query, reject_if, pure, ok_or, continue, ◌>>=◌, ◌>>◌}
use psst.Store.Exec.Steps.{Steps}
use psst.Store.Exec.Atomic.{Unmoved}

-- The answer of the first part, and the second part at it.
pub record Answered {ℓ κ} {A : Type ℓ} {B : Type κ} (m : Exec A) (f : A → Exec B) (db after : Db)
    (b : B) : Type (ℓ ⊔ κ) where
  pub value : A
  pub mid : Db
  pub first : m db ≡ (ok value, mid)
  pub then : f value mid ≡ (ok b, after)

continue-Answered {ℓ κ} :
    {A : Type ℓ} {B : Type κ} (m : Exec A) (f : A → Exec B) (db after : Db) (b : B) (r : Outcome A)
    (mid : Db)
    → m db ≡ (r, mid)
    → continue r f mid ≡ (ok b, after)
    → Answered m f db after b
continue-Answered m f db after b (ok a) mid e h = record {
  value = a;
  mid = mid;
  first = e;
  then = h;
}
continue-Answered m f db after b (err x) mid e h = absurd (cc)

pub bind-Answered {ℓ κ} :
    {A : Type ℓ} {B : Type κ} (m : Exec A) (f : A → Exec B) (db after : Db) (b : B)
    → (m >>= f) db ≡ (ok b, after)
    → Answered m f db after b
unfolding ◌>>=◌
bind-Answered m f db after b h = continue-Answered m f db after b (m db).0 (m db).1 refl h

pub lift-ok {ℓ} :
    {A : Type ℓ} (r : Outcome A) (db after : Db) (a : A)
    → lift r db ≡ (ok a, after)
    → (r ≡ ok a) × (after ≡ db)
unfolding lift
lift-ok r db after a h = (ap (λ x. x.0) h, sym (ap (λ x. x.1) h))

pub reject_if-ok :
    (b : Bool) (e : RepositoryError) (db after : Db)
    → reject_if b e db ≡ (ok tt, after)
    → (b ≡ false) × (after ≡ db)
unfolding reject_if
reject_if-ok true e db after h = absurd (cc)
reject_if-ok false e db after h = (refl, sym (ap (λ x. x.1) h))

-- A part that only reads leaves the database to the rest.
pub Unmoved-mid {ℓ} :
    {A : Type ℓ} (m : Exec A) (db mid : Db) (a : A)
    → Steps Unmoved m
    → m db ≡ (ok a, mid)
    → mid ≡ db
Unmoved-mid m db mid a s h = sym (ap (λ x. x.1) h) ∙ s.at db

-- A guard that lets through leaves the rest.
pub guard-ok {ℓ} :
    {A : Type ℓ} (b : Bool) (e : RepositoryError) (k : Exec A) (db after : Db) (a : A)
    → (reject_if b e >> k) db ≡ (ok a, after)
    → (b ≡ false) × (k db ≡ (ok a, after))
unfolding ◌>>=◌
guard-ok true e k db after a h = absurd (cc)
guard-ok false e k db after a h = (refl, h)

-- The answer of a part that only reads, and the rest at it.
pub record Read {ℓ κ} {A : Type ℓ} {B : Type κ} (m : Exec A) (f : A → Exec B) (db after : Db)
    (b : B) : Type (ℓ ⊔ κ) where
  pub value : A
  pub first : m db ≡ (ok value, db)
  pub then : f value db ≡ (ok b, after)

pub bind-Read {ℓ κ} :
    {A : Type ℓ} {B : Type κ} (m : Exec A) (f : A → Exec B) (db after : Db) (b : B)
    → Steps Unmoved m
    → (m >>= f) db ≡ (ok b, after)
    → Read m f db after b
bind-Read m f db after b s h =
    let a = bind-Answered m f db after b h in
    let same = Unmoved-mid m db a.mid a.value s a.first in
    record {
      value = a.value;
      first = subst (λ d. ◌≡◌ {A = Outcome _ × Db} (m db) (ok a.value, d)) same a.first;
      then = subst (λ d. ◌≡◌ {A = Outcome _ × Db} (f a.value d) (ok b, after)) same a.then;
    }

-- A query answers what it reads.
pub query-then {ℓ κ} :
    {A : Type ℓ} {B : Type κ} (q : Db → A) (f : A → Exec B) (db after : Db) (b : B)
    → (query q >>= f) db ≡ (ok b, after)
    → f (q db) db ≡ (ok b, after)
unfolding ◌>>=◌
query-then q f db after b h = h

pub pure-ok {ℓ} :
    {A : Type ℓ} (a b : A) (db after : Db) → pure a db ≡ (ok b, after) → (a ≡ b) × (after ≡ db)
unfolding pure
pure-ok a b db after h = ground arith

pub ok_or-ok {ℓ} :
    {A : Type ℓ} (o : Option A) (e : RepositoryError) (db after : Db) (a : A)
    → ok_or o e db ≡ (ok a, after)
    → (o ≡ some a) × (after ≡ db)
unfolding ok_or
ok_or-ok o e db after a h = ground arith
