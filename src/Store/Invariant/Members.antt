-- ===== src/Store/Invariant/Members.antt =====
-- The table `memberships`, and what the writes of repository.rs keep of it.
use psst.Prelude.{
  ◌≡◌, refl, Bool, false, List, [], ◌∷◌, ◌++◌, exists_row, arith, eq_iff, update_row, update_rows,
  All, All-append, All-map, Unique, Unique-add, Unique-update,
}
use psst.Core.Time.{UnixMillis}
use psst.Core.Id.{SquadId}
use psst.Store.Schema.{MembershipRow}
use psst.Store.Clash
use psst.Store.Repository.{JoinMembership, new_member_row, left_row}

abbrev pub NameFits : MembershipRow → Type 0
NameFits m = m.normalized_name ≡ m.name

pub record MembershipsOk (rows : List MembershipRow) : Type 0 where
  pub ids : Unique Clash.membership_id rows
  pub active_names : Unique Clash.active_name rows
  pub names : All NameFits rows

membership_id-swap : (a b : MembershipRow) → Clash.membership_id a b ≡ Clash.membership_id b a
membership_id-swap a b = ground (arith, eq_iff a.id b.id, eq_iff b.id a.id)

active_name-swap : (a b : MembershipRow) → Clash.active_name a b ≡ Clash.active_name b a
active_name-swap a b = ground (
  arith,
  eq_iff a.squad_id b.squad_id,
  eq_iff b.squad_id a.squad_id,
  eq_iff a.normalized_name b.normalized_name,
  eq_iff b.normalized_name a.normalized_name,
)

pub MembershipsOk-add :
    (rows : List MembershipRow) (r : JoinMembership) (s : SquadId)
    → MembershipsOk rows
    → exists_row (Clash.membership_id (new_member_row r s)) rows ≡ false
    → exists_row (Clash.active_name (new_member_row r s)) rows ≡ false
    → MembershipsOk (rows ++ new_member_row r s ∷ [])
MembershipsOk-add rows r s ok hi hn = record {
  ids = Unique-add Clash.membership_id rows (new_member_row r s) membership_id-swap ok.ids hi;
  active_names =
      Unique-add Clash.active_name rows (new_member_row r s) active_name-swap ok.active_names hn;
  names = All-append NameFits rows _ ok.names (refl, tt);
}

module _ (p : MembershipRow → Bool) (t : UnixMillis) where
  leave-ids :
      (a b : MembershipRow)
      → Clash.membership_id a b ≡ false
      → Clash.membership_id (update_row p (left_row t) a) (update_row p (left_row t) b) ≡ false
  leave-ids a b h = ground arith

  leave-active_names :
      (a b : MembershipRow)
      → Clash.active_name a b ≡ false
      → Clash.active_name (update_row p (left_row t) a) (update_row p (left_row t) b) ≡ false
  leave-active_names a b h = ground arith

  leave-names : (a : MembershipRow) → NameFits a → NameFits (update_row p (left_row t) a)
  leave-names a h = ground arith

  pub MembershipsOk-leave :
      (rows : List MembershipRow)
      → MembershipsOk rows
      → MembershipsOk (update_rows p (left_row t) rows)
  MembershipsOk-leave rows ok = record {
    ids = Unique-update Clash.membership_id p (left_row t) rows leave-ids ok.ids;
    active_names =
        Unique-update Clash.active_name p (left_row t) rows leave-active_names ok.active_names;
    names = All-map NameFits NameFits (update_row p (left_row t)) rows leave-names ok.names;
  }
