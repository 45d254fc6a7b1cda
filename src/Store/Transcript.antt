-- ===== src/Store/Transcript.antt =====
-- crates/psst-store/src/authenticated.rs: transcripts under a session credential.
use psst.Prelude.{
  ℕ, Bool, true, not, ◌&&◌, ◌||◌, List, ltb, leb, take, select_rows, ◌==◌, if◌then◌else◌,
}
use psst.Prelude.Int.{ℤ, pos, negsuc, is_negative}
use psst.Core.Error.{map_err}
use psst.Core.Id.{SquadId}
use psst.Core.Value.{SquadName}
use psst.Store.Error.{RepositoryError, from_sqlite}
use psst.Store.Schema.{Db, MessageRecord, MessageRow}
use psst.Store.Exec.{Exec, Io, fail, lift, query, reject_if, transaction, ◌>>=◌, ◌>>◌}
use psst.Store.Roster.{collect}
use psst.Store.Inbox.{map_message}
use psst.Store.Session.{
  AuthenticatedSession, MessageView, authorize_current, message_view_on, squad_by_id,
}

pub record TranscriptQuery : Type 0 where
  pub squad : SquadId
  pub after : ℤ
  pub limit : ℕ

pub record TranscriptByName : Type 0 where
  pub squad : SquadName
  pub after : ℤ
  pub limit : ℕ

abbrev after_sequence : ℤ → ℕ → Bool
after_sequence (pos n) sequence = ltb n sequence
after_sequence (negsuc n) sequence = true

abbrev bad_transcript : ℕ → ℤ → Bool
bad_transcript limit after = not (leb 1 limit && leb limit 100) || is_negative after

abbrev pub transcript_rows : SquadId → ℤ → ℕ → Db → List MessageRow
transcript_rows squad after limit db =
    take limit
      (select_rows (λ m. m.semantics.squad == squad && after_sequence after m.sequence) db.messages)

module _ (sha256 : List ℕ → List ℕ) where
  unfoldable pub authenticated_transcript :
      Io → AuthenticatedSession → TranscriptQuery → Exec (List MessageRecord)
  unfolding transaction authorize_current map_message
  authenticated_transcript io session q =
      if bad_transcript q.limit q.after
      then fail RepositoryError.invalid_request
      else transaction io do
        identity ← authorize_current sha256 session
        reject_if (not (identity.squad == q.squad)) RepositoryError.not_member
        rows ← query (transcript_rows q.squad q.after q.limit)
        lift (collect (λ m. map_err from_sqlite (map_message sha256 m)) rows)

  unfoldable pub authenticated_transcript_views :
      Io → AuthenticatedSession → TranscriptByName → Exec (List MessageView)
  unfolding transaction authorize_current squad_by_id map_message message_view_on
  authenticated_transcript_views io session q =
      if bad_transcript q.limit q.after
      then fail RepositoryError.invalid_request
      else transaction io do
        identity ← authorize_current sha256 session
        s ← squad_by_id identity.squad
        reject_if (not (s.name == q.squad)) RepositoryError.not_member
        rows ← query (transcript_rows identity.squad q.after q.limit)
        records ← lift (collect (λ m. map_err from_sqlite (map_message sha256 m)) rows)
        viewed ← query (λ db. collect (message_view_on db) records)
        lift viewed
