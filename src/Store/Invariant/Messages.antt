-- ===== src/Store/Invariant/Messages.antt =====
-- The table `messages`, and what the writes of message.rs and inbox.rs keep of it.
use psst.Prelude.{
  ◌≡◌, refl, Bool, true, false, List, ℕ, suc, [], ◌∷◌, ◌++◌, ◌<◌, ◌≤◌, exists_row, arith, eq_iff,
  update_row, update_rows, All, All-append, All-imp, All-map, AllPairs, AllPairs-snoc, AllPairs-map,
  Unique, Unique-add, Unique-update,
}
use psst.Prelude.Texts.{as_bytes, codes_eq_iff}
use psst.Core.Time.{UnixMillis}
use psst.Store.Schema.{MessageRow}
use psst.Store.Clash
use psst.Store.Insert.{numbered}
use psst.Store.Message.{SendMessage, hash_matches, new_row}
use psst.Store.Inbox.{acknowledged_row}

abbrev pub InOrder : MessageRow → MessageRow → Type 0
InOrder a b = a.sequence < b.sequence

abbrev pub Given : ℕ → MessageRow → Type 0
Given last m = m.sequence ≤ last

abbrev pub Intact : (List ℕ → List ℕ) → MessageRow → Type 0
Intact sha256 m = hash_matches sha256 m ≡ true

pub record MessagesOk (sha256 : List ℕ → List ℕ) (rows : List MessageRow) (last : ℕ) : Type 0 where
  pub ids : Unique Clash.message_id rows
  pub keys : Unique Clash.dedupe rows
  pub order : AllPairs InOrder rows
  pub numbers : All (Given last) rows
  pub bodies : All (Intact sha256) rows

message_id-swap : (a b : MessageRow) → Clash.message_id a b ≡ Clash.message_id b a
message_id-swap a b = ground (arith, eq_iff a.id b.id, eq_iff b.id a.id)

dedupe-swap : (a b : MessageRow) → Clash.dedupe a b ≡ Clash.dedupe b a
dedupe-swap a b = ground (
  arith,
  eq_iff a.semantics.squad b.semantics.squad,
  eq_iff b.semantics.squad a.semantics.squad,
  eq_iff a.semantics.sender b.semantics.sender,
  eq_iff b.semantics.sender a.semantics.sender,
  eq_iff a.dedupe_key b.dedupe_key,
  eq_iff b.dedupe_key a.dedupe_key,
)

module _ (sha256 : List ℕ → List ℕ) where
  pub MessagesOk-add :
      (rows : List MessageRow) (last : ℕ) (r : SendMessage)
      → MessagesOk sha256 rows last
      → exists_row (Clash.message_id (new_row sha256 r 0)) rows ≡ false
      → exists_row (Clash.dedupe (new_row sha256 r 0)) rows ≡ false
      → MessagesOk sha256 (rows ++ numbered (new_row sha256 r 0) (suc last) ∷ []) (suc last)
  MessagesOk-add rows last r ok hi hk =
      let row = numbered (new_row sha256 r 0) (suc last) in
      record {
        ids = Unique-add Clash.message_id rows row message_id-swap ok.ids hi;
        keys = Unique-add Clash.dedupe rows row dedupe-swap ok.keys hk;
        order = AllPairs-snoc InOrder rows row ok.order (
            All-imp (Given last) (λ m. m.sequence < suc last) rows (λ m h. omega arith) ok.numbers);
        numbers =
            All-append (Given (suc last)) rows _
              (All-imp (Given last) (Given (suc last)) rows (λ m h. omega arith) ok.numbers)
              (omega arith, tt);
        bodies =
            All-append (Intact sha256) rows _ ok.bodies
              ((codes_eq_iff (sha256 (as_bytes r.semantics.body)) _).1 refl, tt);
      }

  module _ (p : MessageRow → Bool) (t : UnixMillis) where
    acknowledge-ids :
        (a b : MessageRow)
        → Clash.message_id a b ≡ false
        → Clash.message_id
            (update_row p (acknowledged_row t) a)
            (update_row p (acknowledged_row t) b)
          ≡ false
    acknowledge-ids a b h = ground arith

    acknowledge-keys :
        (a b : MessageRow)
        → Clash.dedupe a b ≡ false
        → Clash.dedupe (update_row p (acknowledged_row t) a) (update_row p (acknowledged_row t) b)
          ≡ false
    acknowledge-keys a b h = ground arith

    acknowledge-order :
        (a b : MessageRow)
        → InOrder a b
        → InOrder (update_row p (acknowledged_row t) a) (update_row p (acknowledged_row t) b)
    acknowledge-order a b h = ground arith

    acknowledge-numbers :
        (last : ℕ) (a : MessageRow)
        → Given last a
        → Given last (update_row p (acknowledged_row t) a)
    acknowledge-numbers last a h = ground arith

    acknowledge-bodies :
        (a : MessageRow) → Intact sha256 a → Intact sha256 (update_row p (acknowledged_row t) a)
    acknowledge-bodies a h = ground arith

    pub MessagesOk-acknowledge :
        (rows : List MessageRow) (last : ℕ)
        → MessagesOk sha256 rows last
        → MessagesOk sha256 (update_rows p (acknowledged_row t) rows) last
    MessagesOk-acknowledge rows last ok = record {
      ids = Unique-update Clash.message_id p (acknowledged_row t) rows acknowledge-ids ok.ids;
      keys = Unique-update Clash.dedupe p (acknowledged_row t) rows acknowledge-keys ok.keys;
      order =
          AllPairs-map InOrder (update_row p (acknowledged_row t)) rows acknowledge-order ok.order;
      numbers =
          All-map (Given last) (Given last) (update_row p (acknowledged_row t)) rows
            (acknowledge-numbers last) ok.numbers;
      bodies =
          All-map (Intact sha256) (Intact sha256) (update_row p (acknowledged_row t)) rows
            acknowledge-bodies ok.bodies;
    }
