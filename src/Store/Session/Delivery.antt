-- ===== src/Store/Session/Delivery.antt =====
-- The sends by name of a credential in crates/psst-store/src/authenticated.rs.
use psst.Prelude.{
  ℕ, ◌≡◌, sym, ap, subst, refl, ◌∙◌, Bool, ◌&&◌, ◌==◌, exists_row, exists_row-find,
  exists_row-find_none, ◌⊎◌, true, false, Option, none, some, List, arith, inl, inr, find_row,
}
use psst.Core.Error.{ok}
use psst.Core.Value.{DedupeKey}
use psst.Store.Schema.{Db, MembershipRow, MessageRecord, MessageRow}
use psst.Store.Exec.{Exec, Io, query, lift, pure, reject_if, ok_or, ◌>>=◌, ◌>>◌}
use psst.Store.Exec.Atomic.{transaction-ok, Unmoved, Unmoved-order}
use psst.Store.Exec.Inversion.{guard-ok, bind-Read, bind-Answered, query-then, Unmoved-mid}
use psst.Store.Exec.Steps.{Steps, step_rules}
use psst.Store.Message.{SendMessage, find_by_dedupe, send_in_transaction}
use psst.Store.Message.Retry.{send-OnRecord}
use psst.Store.Error.{RepositoryError}
use psst.Store.Mailbox.{
  SendByName, SendOutcome, replay_by_name, fresh_by_name, replay_or_fresh,
  authenticated_send_by_name, is_keyed, is_named, pin_differs, send_from_name,
}
use psst.Store.Session.{
  AuthenticatedSession, Identity, identity_of, message_view_on, authenticate_historical,
  authorize_current,
}
use psst.Store.Session.Authority.{
  Authority, Credential, authenticate_historical-Credential, authorize_current-Authority,
}
use psst.Store.Session.Sends.{authenticate_historical-same, authorize_current-same}

module _ (sha256 : List ℕ → List ℕ) where
  find_by_dedupe-same : (r : SendMessage) → Steps Unmoved (find_by_dedupe sha256 r)
  unfolding find_by_dedupe
  find_by_dedupe-same r = search (step_rules, Unmoved-order) depth 9

  pub replay_by_name-same :
      (session : AuthenticatedSession) (r : SendByName) (i : Identity) (id : _)
      → Steps Unmoved (replay_by_name sha256 session r i id)
  unfolding replay_by_name
  replay_by_name-same session r i id =
      search (step_rules, Unmoved-order, find_by_dedupe-same) depth 18

  replay_by_name-marked :
      (session : AuthenticatedSession) (r : SendByName) (i : Identity) (id : _) (db after : Db)
      (o : SendOutcome)
      → replay_by_name sha256 session r i id db ≡ (ok o, after)
      → o.idempotent_replay ≡ true
  unfolding replay_by_name
  replay_by_name-marked session r i id db after o h = ground arith

  fresh_by_name-marked :
      (session : AuthenticatedSession) (r : SendByName) (i : Identity) (db after : Db)
      (o : SendOutcome)
      → fresh_by_name sha256 session r i db ≡ (ok o, after)
      → o.idempotent_replay ≡ false
  unfolding fresh_by_name
  fresh_by_name-marked session r i db after o h = ground arith

  fresh_by_name-authorized :
      (session : AuthenticatedSession) (r : SendByName) (i : Identity) (db after : Db)
      (o : SendOutcome)
      → fresh_by_name sha256 session r i db ≡ (ok o, after)
      → (j : Identity) × Authority sha256 session db j
  unfolding fresh_by_name
  fresh_by_name-authorized session r i db after o h =
      let a = bind-Answered (authorize_current sha256 session) _ db after o h in
      (a.value, authorize_current-Authority sha256 session db a.mid a.value a.first)

  -- The identity of a credential is that of its authority.
  credential-identity :
      (session : AuthenticatedSession) (db : Db) (i j : Identity)
      → Credential sha256 session db i
      → Credential sha256 session db j
      → j ≡ i
  credential-identity session db i j c d =
      let known_c = c.known in
      let known_d = d.known in
      let same : d.joined ≡ c.joined = ground arith in
      d.shown ∙ ap (identity_of sha256) same ∙ sym c.shown

  -- A message that a member sent in a squad under a deduplication key.
  abbrev pub sent_under : Identity → DedupeKey → MessageRow → Bool
  sent_under identity key m =
      m.semantics.squad == identity.squad
      && (m.semantics.sender == identity.membership && m.dedupe_key == key)

  -- The end of a fresh send, from the member that its name finds.
  abbrev viewed : MessageRecord → Exec SendOutcome
  viewed sent = query (λ db. message_view_on db sent) >>= λ seen.
      lift seen >>= λ view. pure (record { message = view; idempotent_replay = false })

  abbrev sent_to : AuthenticatedSession → SendByName → Identity → MembershipRow → Exec SendOutcome
  sent_to session r i m =
      reject_if (pin_differs r m.id) RepositoryError.recipient_not_found
      >> (send_in_transaction sha256 (send_from_name r i.squad i.membership m.id session.now)
          >>= viewed)

  viewed-same : (m : MessageRecord) → Steps Unmoved (viewed m)
  viewed-same m = search (step_rules, Unmoved-order) depth 9

  sent_to-stored :
      (session : AuthenticatedSession) (r : SendByName) (i : Identity) (m : MembershipRow)
      (db after : Db) (o : SendOutcome)
      → sent_to session r i m db ≡ (ok o, after)
      → exists_row (sent_under i r.dedupe_key) after.messages ≡ true
  unfolding send_from_name
  sent_to-stored session r i m db after o h =
      let request = send_from_name r i.squad i.membership m.id session.now in
      let (pin, go) =
        guard-ok (pin_differs r m.id) RepositoryError.recipient_not_found
          (send_in_transaction sha256 request >>= viewed) db after o h in
      let c = bind-Answered (send_in_transaction sha256 request) viewed db after o go in
      let kept = Unmoved-mid (viewed c.value) c.mid after o (viewed-same c.value) c.then in
      let sent = send-OnRecord sha256 request db c.mid c.value c.first in
      subst (λ (d : Db). exists_row (sent_under i r.dedupe_key) d.messages ≡ true) (sym kept)
        (exists_row-find (sent_under i r.dedupe_key) c.mid.messages sent.row sent.found)

  fresh_by_name-stored :
      (session : AuthenticatedSession) (r : SendByName) (i : Identity) (db after : Db)
      (o : SendOutcome)
      → fresh_by_name sha256 session r i db ≡ (ok o, after)
      → exists_row (sent_under i r.dedupe_key) after.messages ≡ true
  unfolding fresh_by_name
  fresh_by_name-stored session r i db after o h =
      let named : Db → Option MembershipRow =
        λ d. find_row (is_named i.squad r.recipient) d.memberships in
      let found : Option MembershipRow → Exec MembershipRow =
        λ m. ok_or m RepositoryError.recipient_not_found in
      let a =
        bind-Read (authorize_current sha256 session)
          (λ _. query named >>= λ m. found m >>= sent_to session r i) db after o
          (authorize_current-same sha256 session) h in
      let b =
        bind-Answered (found (named db)) (sent_to session r i) db after o
          (query-then named (λ m. found m >>= sent_to session r i) db after o a.then) in
      sent_to-stored session r i b.value b.mid after o b.then

  -- A replay of a message on record, which writes nothing, or a new message of a credential with
  -- authority.
  abbrev Delivered : AuthenticatedSession → SendByName → Identity → Db → Db → SendOutcome → Type 0
  Delivered session r i db after o =
      ((exists_row (sent_under i r.dedupe_key) db.messages ≡ true)
        × ((after ≡ db) × (o.idempotent_replay ≡ true)))
      ⊎ ((exists_row (sent_under i r.dedupe_key) db.messages ≡ false)
          × (Authority sha256 session db i
              × ((exists_row (sent_under i r.dedupe_key) after.messages ≡ true)
                  × (o.idempotent_replay ≡ false))))

  replay_or_fresh-Delivered :
      (session : AuthenticatedSession) (r : SendByName) (i : Identity) (row : Option MessageRow)
      (db after : Db) (o : SendOutcome)
      → Credential sha256 session db i
      → find_row (sent_under i r.dedupe_key) db.messages ≡ row
      → replay_or_fresh sha256 session r i row db ≡ (ok o, after)
      → Delivered session r i db after o
  unfolding replay_or_fresh
  replay_or_fresh-Delivered session r i (some m) db after o c e h = inl (
    exists_row-find (sent_under i r.dedupe_key) db.messages m e,
    (
      Unmoved-mid (replay_by_name sha256 session r i m.semantics.recipient) db after o
          (replay_by_name-same session r i m.semantics.recipient) h,
      replay_by_name-marked session r i m.semantics.recipient db after o h,
    ),
  )
  replay_or_fresh-Delivered session r i none db after o c e h =
      let (j, a) = fresh_by_name-authorized session r i db after o h in
      inr (
        exists_row-find_none (sent_under i r.dedupe_key) db.messages e,
        (
          subst (λ (k : Identity). Authority sha256 session db k)
              (credential-identity session db i j c a.credential) a,
          (
            fresh_by_name-stored session r i db after o h,
            fresh_by_name-marked session r i db after o h,
          ),
        ),
      )

  -- A send by name that is answered is of a credential whose token is that of the stored instance. Its
  -- answer says truly whether it is a replay: it says so exactly if, before the send, a message of the
  -- credential's member in its squad was on record under the key, and then nothing is written.
  -- Otherwise the credential has authority, that is a running lease, an instance that is not closed, a
  -- member that has not left and an active squad, and afterwards there is a message of the member under
  -- the key.
  pub authenticated_send_by_name-honest :
      (io : Io) (session : AuthenticatedSession) (r : SendByName) (db after : Db) (o : SendOutcome)
      → authenticated_send_by_name sha256 io session r db ≡ (ok o, after)
      → (identity : Identity) × Credential sha256 session db identity
        × (((exists_row (sent_under identity r.dedupe_key) db.messages ≡ true)
              × ((after ≡ db) × (o.idempotent_replay ≡ true)))
            ⊎ ((exists_row (sent_under identity r.dedupe_key) db.messages ≡ false)
                × (Authority sha256 session db identity
                    × ((exists_row (sent_under identity r.dedupe_key) after.messages ≡ true)
                        × (o.idempotent_replay ≡ false)))))
  unfolding authenticated_send_by_name
  authenticated_send_by_name-honest io session r db after o h =
      let found : Identity → Db → Option MessageRow =
        λ i d. find_row (is_keyed sha256 i r.dedupe_key) d.messages in
      let a =
        bind-Read (authenticate_historical sha256 session)
          (λ i. query (found i) >>= replay_or_fresh sha256 session r i) db after o
          (authenticate_historical-same sha256 session) (transaction-ok io _ db after o h) in
      let go =
        query-then (found a.value) (replay_or_fresh sha256 session r a.value) db after o a.then in
      let c = authenticate_historical-Credential sha256 session db db a.value a.first in
      (
        a.value,
        c,
        replay_or_fresh-Delivered session r a.value (found a.value db) db after o c refl go,
      )
