-- ===== src/Store/Session/Sends.antt =====
-- Whose messages the authenticated sends of crates/psst-store/src/authenticated.rs write.
use psst.Prelude.{
  ℕ, ◌≡◌, ◌⊎◌, Bool, false, Option, none, some, List, arith, inl, inr, not, ◌||◌, ◌==◌, eq_iff,
}
use psst.Core.Error.{ok}
use psst.Store.Schema.{Db, SquadRecord, MessageRecord}
use psst.Store.Exec.{Exec, Outcome, Io, reject_if, ◌>>=◌, ◌>>◌}
use psst.Store.Error.{RepositoryError}
use psst.Store.Exec.Atomic.{transaction-ok, Unmoved, Unmoved-order}
use psst.Store.Exec.Inversion.{bind-Answered, bind-Read, guard-ok, lift-ok}
use psst.Store.Exec.Steps.{Steps, step_rules}
use psst.Store.Message.{SendMessage, resolve_retry, send_in_transaction}
use psst.Store.Mailbox.{replay_or_send, authenticated_send}
use psst.Store.Session.{
  AuthenticatedSession, Identity, Joined, check_current, authenticate_historical, authorize_current,
}
use psst.Store.Session.Authority.{
  Authority, Credential, authenticate_historical-Credential, authorize_current-Authority,
}

module _ (sha256 : List ℕ → List ℕ) where
  resolve_retry-same : (request : SendMessage) → Steps Unmoved (resolve_retry sha256 request)
  unfolding resolve_retry
  resolve_retry-same request = search (step_rules, Unmoved-order) depth 9

  pub authenticate_historical-same :
      (session : AuthenticatedSession) → Steps Unmoved (authenticate_historical sha256 session)
  unfolding authenticate_historical
  authenticate_historical-same session = search (step_rules, Unmoved-order) depth 9

  check_current-same : (j : Joined) (s : SquadRecord) → Steps Unmoved (check_current sha256 j s)
  unfolding check_current
  check_current-same j s = search (step_rules, Unmoved-order) depth 9

  pub authorize_current-same :
      (session : AuthenticatedSession) → Steps Unmoved (authorize_current sha256 session)
  unfolding authorize_current
  authorize_current-same session =
      search (step_rules, Unmoved-order, authenticate_historical-same, check_current-same) depth 14

  -- What a send under a credential that succeeds is: a replay that writes nothing, or a send of a
  -- credential with authority.
  replay-authorized :
      (session : AuthenticatedSession) (request : SendMessage) (r : Option (Outcome MessageRecord))
      (db after : Db) (m : MessageRecord)
      → replay_or_send sha256 session request r db ≡ (ok m, after)
      → (after ≡ db) ⊎ ((identity : Identity) × Authority sha256 session db identity)
  unfolding replay_or_send
  replay-authorized session request (some r) db after m h = inl (lift-ok r db after m h).1
  replay-authorized session request none db after m h =
      let a =
        bind-Answered (authorize_current sha256 session) (λ _. send_in_transaction sha256 request)
          db after m h in
      inr (a.value, authorize_current-Authority sha256 session db a.mid a.value a.first)

  -- The parts of `authenticated_send` behind the credential.
  abbrev foreign : SendMessage → Identity → Bool
  foreign request identity =
      not (request.semantics.sender == identity.membership)
      || not (request.semantics.squad == identity.squad)

  abbrev answer_or_send : AuthenticatedSession → SendMessage → Exec MessageRecord
  answer_or_send session request =
      resolve_retry sha256 request >>= replay_or_send sha256 session request

  abbrev checked_send : AuthenticatedSession → SendMessage → Identity → Exec MessageRecord
  checked_send session request identity =
      reject_if (foreign request identity) RepositoryError.not_member
      >> answer_or_send session request

  owned :
      (request : SendMessage) (identity : Identity)
      → foreign request identity ≡ false
      → (request.semantics.sender ≡ identity.membership)
        × (request.semantics.squad ≡ identity.squad)
  owned request identity h = ground (
    arith,
    eq_iff request.semantics.sender identity.membership,
    eq_iff request.semantics.squad identity.squad,
  )

  -- A send under a credential that is answered with a message is of a credential whose token is that
  -- of the stored instance, and the request is in the squad and from the member that the instance
  -- belongs to. Either nothing is written, the send being a replay, or the credential has authority:
  -- its lease runs, the instance is not closed, the member has not left, the squad is active.
  pub authenticated_send-authorized :
      (io : Io) (session : AuthenticatedSession) (request : SendMessage) (db after : Db)
      (m : MessageRecord)
      → authenticated_send sha256 io session request db ≡ (ok m, after)
      → (identity : Identity) × Credential sha256 session db identity
        × ((request.semantics.sender ≡ identity.membership)
            × (request.semantics.squad ≡ identity.squad))
        × ((after ≡ db) ⊎ ((i : Identity) × Authority sha256 session db i))
  unfolding authenticated_send
  authenticated_send-authorized io session request db after m h =
      let a =
        bind-Read (authenticate_historical sha256 session) (checked_send session request) db after m
          (authenticate_historical-same session) (transaction-ok io _ db after m h) in
      let (owns, go) =
        guard-ok (foreign request a.value) RepositoryError.not_member
          (answer_or_send session request) db after m a.then in
      let b =
        bind-Read (resolve_retry sha256 request) (replay_or_send sha256 session request) db after m
          (resolve_retry-same request) go in
      (
        a.value,
        authenticate_historical-Credential sha256 session db db a.value a.first,
        owned request a.value owns,
        replay-authorized session request b.value db after m b.then,
      )
