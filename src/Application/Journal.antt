-- ===== src/Application/Journal.antt =====
-- crates/psst-application/src/leave_journal.rs: the journal of a leave, on Unix. What the file system
-- answers to the calls is an argument, as are the random name of the temporary file and the JSON codec;
-- of the directory, the journal's file and the temporary files that are left behind are modelled. A
-- timestamp is held as the number of milliseconds that orders it.
pub mod Disk
pub mod Atomic
use psst.Prelude.{
  ℕ, ◌≤◌, ◌*◌, String, Bool, true, false, not, ◌&&◌, ◌||◌, Option, none, some, List, [], ◌∷◌,
  length, eqb, ltb, leb, all, is_some, is_some_and, ◌==◌, if◌then◌else◌,
}
use psst.Prelude.Texts.{as_bytes, len, is_ascii_alphanumeric}
use psst.Core.Error.{Result, ok, err, ◌>>=◌, ◌>>◌, map_err}
use psst.Core.Time.{UnixMillis}
use psst.Application.Profile.{ConfigError, ProfileBinding, validate_binding, new_binding}

abbrev pub version : ℕ
version = 1

abbrev pub max_journal_bytes : ℕ
max_journal_bytes = 16 * 1024

pub data LeavePhase : Type 0 where
  intent_ confirmed_ : LeavePhase

pub record LeaveJournal : Type 0 where
  pub version : ℕ
  pub phase : LeavePhase
  pub relay_origin : String
  pub profile : String
  pub squad_name : String
  pub squad_id : String
  pub member_id : String
  pub operation_id : String
  pub created_at : UnixMillis
  pub confirmed_at : Option UnixMillis

pub data JournalFault : Type 0 where
  no_fault before_temp_name before_create before_write before_file_sync before_replace :
      JournalFault
  before_post_replace_sync before_remove before_remove_directory_sync : JournalFault

-- An `io::Error`: those that this file makes, and one of the file system or of the random generator.
pub data IoError : Type 0 where
  invalid_input invalid_data substitution unsafe_permissions injected system : IoError

abbrev pub is_confirmed : LeavePhase → Bool
is_confirmed LeavePhase.intent_ = false
is_confirmed LeavePhase.confirmed_ = true

module _ (canonical_relay_origin : String → Result ConfigError String) where
  -- `LeaveJournal::validate_record`.
  unfoldable pub validate_record : LeaveJournal → Result IoError (Unit {0})
  unfolding new_binding len as_bytes
  validate_record j = do
    binding ←
        map_err (λ _. IoError.invalid_data)
          (new_binding canonical_relay_origin j.profile j.relay_origin j.squad_name j.squad_id
            j.member_id)
    let operation_valid =
        leb 1 (len j.operation_id)
        && leb (len j.operation_id) 128
        && all (λ b. is_ascii_alphanumeric b || (eqb b b'-' || eqb b b'_'))
            (as_bytes j.operation_id)
    if not (eqb j.version version)
          || not (binding.relay_origin == j.relay_origin)
          || not operation_valid
          || (if is_confirmed j.phase then not (is_some j.confirmed_at) else is_some j.confirmed_at)
          || is_some_and j.confirmed_at (λ value. ltb value j.created_at)
        then err IoError.invalid_data
        else ok tt

  -- `LeaveJournal::validate`.
  unfoldable pub validate_journal : LeaveJournal → ProfileBinding → Result IoError (Unit {0})
  unfolding validate_binding validate_record
  validate_journal j b = do
    map_err (λ _. IoError.invalid_data) (validate_binding canonical_relay_origin b)
    validate_record j
    if not (j.relay_origin == b.relay_origin)
          || not (j.profile == b.profile)
          || not (j.squad_name == b.squad_name)
          || not (j.squad_id == b.squad_id)
          || not (j.member_id == b.member_id)
        then err IoError.invalid_data
        else ok tt

  unfoldable pub intent : ProfileBinding → String → UnixMillis → Result IoError LeaveJournal
  unfolding validate_journal
  intent b operation_id created_at = do
    let value : LeaveJournal = record {
      version = version;
      phase = LeavePhase.intent_;
      relay_origin = b.relay_origin;
      profile = b.profile;
      squad_name = b.squad_name;
      squad_id = b.squad_id;
      member_id = b.member_id;
      operation_id = operation_id;
      created_at = created_at;
      confirmed_at = none;
    }
    validate_journal value b
    ok value

unfoldable pub confirmed : LeaveJournal → UnixMillis → Result IoError LeaveJournal
confirmed j confirmed_at =
    if is_confirmed j.phase
    then err IoError.invalid_data
    else ok (record j { phase = LeavePhase.confirmed_; confirmed_at = some confirmed_at })
