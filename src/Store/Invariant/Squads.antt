-- ===== src/Store/Invariant/Squads.antt =====
-- The table `squads`, and what the writes of repository.rs keep of it.
use psst.Prelude.{
  ◌≡◌, refl, Bool, false, List, [], ◌∷◌, ◌++◌, is_none, exists_row, arith, eq_iff, update_row,
  update_rows, All, All-append, All-map, Unique, Unique-add, Unique-update,
}
use psst.Core.Time.{UnixMillis}
use psst.Core.Value.{SquadName, Mission}
use psst.Core.Id.{SquadId}
use psst.Store.Schema.{SquadRecord}
use psst.Store.Clash
use psst.Store.Repository.{is_active, archived_row, new_squad}

-- `CHECK ((state = 'active' AND archived_at IS NULL) OR (state = 'archived' AND …))`.
abbrev pub StateFits : SquadRecord → Type 0
StateFits s = is_active s.state ≡ is_none s.archived_at

pub record SquadsOk (rows : List SquadRecord) : Type 0 where
  pub ids : Unique Clash.squad_id rows
  pub names : Unique Clash.squad_name rows
  pub states : All StateFits rows

squad_id-swap : (a b : SquadRecord) → Clash.squad_id a b ≡ Clash.squad_id b a
squad_id-swap a b = ground (arith, eq_iff a.id b.id, eq_iff b.id a.id)

squad_name-swap : (a b : SquadRecord) → Clash.squad_name a b ≡ Clash.squad_name b a
squad_name-swap a b = ground (arith, eq_iff a.name b.name, eq_iff b.name a.name)

pub SquadsOk-add :
    (rows : List SquadRecord) (i : SquadId) (n : SquadName) (m : Mission) (t : UnixMillis)
    → SquadsOk rows
    → exists_row (Clash.squad_id (new_squad i n m t)) rows ≡ false
    → exists_row (Clash.squad_name (new_squad i n m t)) rows ≡ false
    → SquadsOk (rows ++ new_squad i n m t ∷ [])
SquadsOk-add rows i n m t ok hi hn = record {
  ids = Unique-add Clash.squad_id rows (new_squad i n m t) squad_id-swap ok.ids hi;
  names = Unique-add Clash.squad_name rows (new_squad i n m t) squad_name-swap ok.names hn;
  states = All-append StateFits rows _ ok.states (refl, tt);
}

module _ (p : SquadRecord → Bool) (t : UnixMillis) where
  archive-ids :
      (a b : SquadRecord)
      → Clash.squad_id a b ≡ false
      → Clash.squad_id (update_row p (archived_row t) a) (update_row p (archived_row t) b) ≡ false
  archive-ids a b h = ground arith

  archive-names :
      (a b : SquadRecord)
      → Clash.squad_name a b ≡ false
      → Clash.squad_name (update_row p (archived_row t) a) (update_row p (archived_row t) b) ≡ false
  archive-names a b h = ground arith

  archive-states : (a : SquadRecord) → StateFits a → StateFits (update_row p (archived_row t) a)
  archive-states a h = ground arith

  pub SquadsOk-archive :
      (rows : List SquadRecord) → SquadsOk rows → SquadsOk (update_rows p (archived_row t) rows)
  SquadsOk-archive rows ok = record {
    ids = Unique-update Clash.squad_id p (archived_row t) rows archive-ids ok.ids;
    names = Unique-update Clash.squad_name p (archived_row t) rows archive-names ok.names;
    states =
        All-map StateFits StateFits (update_row p (archived_row t)) rows archive-states ok.states;
  }
