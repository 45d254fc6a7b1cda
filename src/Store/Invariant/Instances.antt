-- ===== src/Store/Invariant/Instances.antt =====
-- The table `instances`, and what the writes of instance.rs and repository.rs keep of it.
use psst.Prelude.{
  ◌≡◌, Bool, false, some, List, ℕ, [], ◌∷◌, ◌++◌, is_none, exists_row, arith, eq_iff, update_row,
  update_rows, Unique, Unique-add, Unique-update,
}
use psst.Core.Time.{UnixMillis}
use psst.Core.State.{Availability, AvailabilitySource}
use psst.Store.Schema.{InstanceRow}
use psst.Store.Clash
use psst.Store.Instance.{observed_row}

pub record InstancesOk (rows : List InstanceRow) : Type 0 where
  pub ids : Unique Clash.instance_id rows
  pub owners : Unique Clash.unclosed_owner rows

instance_id-swap : (a b : InstanceRow) → Clash.instance_id a b ≡ Clash.instance_id b a
instance_id-swap a b = ground (arith, eq_iff a.id b.id, eq_iff b.id a.id)

unclosed_owner-swap : (a b : InstanceRow) → Clash.unclosed_owner a b ≡ Clash.unclosed_owner b a
unclosed_owner-swap a b =
    ground (arith, eq_iff a.membership_id b.membership_id, eq_iff b.membership_id a.membership_id)

pub InstancesOk-add :
    (rows : List InstanceRow) (i : InstanceRow)
    → InstancesOk rows
    → exists_row (Clash.instance_id i) rows ≡ false
    → exists_row (Clash.unclosed_owner i) rows ≡ false
    → InstancesOk (rows ++ i ∷ [])
InstancesOk-add rows i ok hi ho = record {
  ids = Unique-add Clash.instance_id rows i instance_id-swap ok.ids hi;
  owners = Unique-add Clash.unclosed_owner rows i unclosed_owner-swap ok.owners ho;
}

-- An update that keeps the id and the membership, and opens no closed row.
pub record KeepsOwner (f : InstanceRow → InstanceRow) : Type 0 where
  pub id : (a : InstanceRow) → (f a).id ≡ a.id
  pub membership : (a : InstanceRow) → (f a).membership_id ≡ a.membership_id
  pub closed : (a : InstanceRow) → is_none a.closed_at ≡ false → is_none (f a).closed_at ≡ false

module _ (p : InstanceRow → Bool) (f : InstanceRow → InstanceRow) (k : KeepsOwner f) where
  update-ids :
      (a b : InstanceRow)
      → Clash.instance_id a b ≡ false
      → Clash.instance_id (update_row p f a) (update_row p f b) ≡ false
  update-ids a b h = ground (arith, k.id a, k.id b)

  update-owners :
      (a b : InstanceRow)
      → Clash.unclosed_owner a b ≡ false
      → Clash.unclosed_owner (update_row p f a) (update_row p f b) ≡ false
  update-owners a b h = ground (arith, k.membership a, k.membership b, k.closed a, k.closed b)

  pub InstancesOk-update :
      (rows : List InstanceRow) → InstancesOk rows → InstancesOk (update_rows p f rows)
  InstancesOk-update rows ok = record {
    ids = Unique-update Clash.instance_id p f rows update-ids ok.ids;
    owners = Unique-update Clash.unclosed_owner p f rows update-owners ok.owners;
  }

pub close-KeepsOwner : (t : UnixMillis) → KeepsOwner (λ i. record i { closed_at = some t })
close-KeepsOwner t = record {
  id = λ a. ground arith;
  membership = λ a. ground arith;
  closed = λ a h. ground arith;
}

pub observe-KeepsOwner :
    (sha256 : List ℕ → List ℕ) (a : Availability) (s : AvailabilitySource) (t e : UnixMillis)
    → KeepsOwner (observed_row sha256 a s t e)
observe-KeepsOwner sha256 a s t e = record {
  id = λ i. ground arith;
  membership = λ i. ground arith;
  closed = λ i h. ground arith;
}
