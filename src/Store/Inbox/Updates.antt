-- ===== src/Store/Inbox/Updates.antt =====
-- The updates of an acknowledgement in crates/psst-store/src/inbox.rs, one by one and at once.
use psst.Prelude.{
  ◌≡◌, refl, ap, sym, ◌∙◌, Bool, ◌&&◌, List, [], ◌∷◌, map, arith, any, all, is_none, exists_row,
  update_row, update_rows,
}
use psst.Core.Time.{UnixMillis}
use psst.Core.Id.{MembershipId, MessageId}
use psst.Store.Schema.{Db, MessageRow}
use psst.Store.Inbox.{is_owned, acknowledged_row, acknowledge_one, acknowledge_all}

-- The message is one of those asked for, and its recipient's.
abbrev pub is_asked : MembershipId → List MessageId → MessageRow → Bool
is_asked recipient ids m = any (λ id. is_owned recipient id m) ids

-- Every message asked for is on record as the recipient's.
abbrev pub owns_all : MembershipId → List MessageId → Db → Bool
owns_all recipient ids db = all (λ id. exists_row (is_owned recipient id) db.messages) ids

-- The table with the messages asked for acknowledged, and every other row as it was.
abbrev pub acknowledged : MembershipId → UnixMillis → List MessageId → Db → Db
acknowledged recipient t ids db = record db {
  messages =
      update_rows (λ m. is_asked recipient ids m && is_none m.acknowledged_at) (acknowledged_row t)
        db.messages;
}

module _ (recipient : MembershipId) (t : UnixMillis) where
  asked_row : List MessageId → MessageRow → MessageRow
  asked_row ids =
      update_row (λ m. is_asked recipient ids m && is_none m.acknowledged_at) (acknowledged_row t)

  abbrev one_row : MessageId → MessageRow → MessageRow
  one_row id =
      update_row (λ m. is_owned recipient id m && is_none m.acknowledged_at) (acknowledged_row t)

  no_ids :
      (rows : List MessageRow)
      → map
          (update_row
            (λ m. is_asked recipient [] m && is_none m.acknowledged_at)
            (acknowledged_row t))
          rows
        ≡ rows
  no_ids [] = refl
  no_ids (r ∷ rows) = rw (no_ids rows)

  pub asked_again :
      (ids : List MessageId) (m : MessageRow)
      → is_asked recipient ids (acknowledged_row t m) ≡ is_asked recipient ids m
  asked_again [] m = refl
  asked_again (id ∷ ids) m = rw (asked_again ids m)

  two_rows :
      (id : MessageId) (ids : List MessageId) (m : MessageRow)
      → update_row
          (λ m. is_asked recipient ids m && is_none m.acknowledged_at)
          (acknowledged_row t)
          (one_row id m)
        ≡ update_row
            (λ m. is_asked recipient (id ∷ ids) m && is_none m.acknowledged_at)
            (acknowledged_row t)
            m
  two_rows id ids m = ground (arith, asked_again ids m)

  two_tables :
      (id : MessageId) (ids : List MessageId) (rows : List MessageRow)
      → map
          (update_row
            (λ m. is_asked recipient ids m && is_none m.acknowledged_at)
            (acknowledged_row t))
          (map (one_row id) rows)
        ≡ map
            (update_row
              (λ m. is_asked recipient (id ∷ ids) m && is_none m.acknowledged_at)
              (acknowledged_row t))
            rows
  two_tables id ids [] = refl
  two_tables id ids (r ∷ rows) = rw (two_rows id ids r, two_tables id ids rows)

  -- The updates one by one are one update.
  pub acknowledge_all-acknowledged :
      (ids : List MessageId) (db : Db)
      → acknowledge_all recipient t ids db ≡ acknowledged recipient t ids db
  unfolding acknowledge_all
  acknowledge_all-acknowledged [] db =
      ap (λ rows. record db { messages = rows }) (sym (no_ids db.messages))
  acknowledge_all-acknowledged (id ∷ ids) db =
      acknowledge_all-acknowledged ids (acknowledge_one recipient t id db)
      ∙ ap (λ rows. record db { messages = rows }) (two_tables id ids db.messages)
