-- ===== src/Application/Journal/Disk.antt =====
-- crates/psst-application/src/leave_journal.rs: storing, loading and removing the journal.
use psst.Prelude.{
  ℕ, ◌+◌, String, Bool, true, not, ◌||◌, Option, none, some, List, [], ◌∷◌, length, take, eqb, ltb,
  ◌==◌, if◌then◌else◌,
}
use psst.Core.Error.{Result, ok, err, ◌>>=◌, ◌>>◌, map_err}
use psst.Application.Profile.{ConfigError, ProfileBinding, new_binding}
use psst.Application.Journal.{
  LeaveJournal, JournalFault, IoError, max_journal_bytes, validate_record, validate_journal,
}

pub data FileKind : Type 0 where
  regular symbolic_link special : FileKind

pub record JournalFile : Type 0 where
  pub kind : FileKind
  -- Its mode is 0600.
  pub is_private : Bool
  pub bytes : List ℕ

pub record Directory : Type 0 where
  pub target : Option JournalFile
  pub temporaries : List JournalFile

-- Whether each call of a store or of a removal succeeds, and what a write that fails has written.
pub record Disk : Type 0 where
  pub names : Bool
  pub created : Bool
  pub written : Bool
  pub file_synced : Bool
  pub replaced : Bool
  pub unlinked : Bool
  pub directory_synced : Bool
  pub partial : List ℕ

abbrev number : JournalFault → ℕ
number JournalFault.no_fault = 0
number JournalFault.before_temp_name = 1
number JournalFault.before_create = 2
number JournalFault.before_write = 3
number JournalFault.before_file_sync = 4
number JournalFault.before_replace = 5
number JournalFault.before_post_replace_sync = 6
number JournalFault.before_remove = 7
number JournalFault.before_remove_directory_sync = 8

abbrev is_fault : JournalFault → JournalFault → Bool
is_fault a b = eqb (number a) (number b)

abbrev checked_file : JournalFile → FileKind → Result IoError (Option JournalFile)
checked_file f FileKind.regular =
    if f.is_private then ok (some f) else err IoError.unsafe_permissions
checked_file f FileKind.symbolic_link = err IoError.system
checked_file f FileKind.special = err IoError.substitution

abbrev opened : Option JournalFile → Result IoError (Option JournalFile)
opened none = ok none
opened (some f) = checked_file f f.kind

unfoldable pub open_target : Directory → Result IoError (Option JournalFile)
open_target dir = opened dir.target

abbrev pub created_file : List ℕ → JournalFile
created_file bytes = record { kind = FileKind.regular; is_private = true; bytes = bytes }

-- A temporary file is left behind.
abbrev pub leaving : List ℕ → Directory → Directory
leaving bytes dir = record dir { temporaries = created_file bytes ∷ dir.temporaries }

abbrev pub replacing : List ℕ → Directory → Directory
replacing bytes dir = record dir { target = some (created_file bytes) }

abbrev pub Stored : Type 0
Stored = Result IoError (Unit {0}) × Directory

unfoldable pub store_unix : List ℕ → JournalFault → Disk → Directory → Stored
store_unix bytes fault disk dir =
    if is_fault fault JournalFault.before_temp_name
    then (err IoError.injected, dir)
    else if not disk.names
    then (err IoError.system, dir)
    else if is_fault fault JournalFault.before_create
    then (err IoError.injected, dir)
    else if not disk.created
    then (err IoError.system, dir)
    else if is_fault fault JournalFault.before_write
    then (err IoError.injected, leaving [] dir)
    else if not disk.written
    then (err IoError.system, leaving disk.partial dir)
    else if is_fault fault JournalFault.before_file_sync
    then (err IoError.injected, leaving bytes dir)
    else if not disk.file_synced
    then (err IoError.system, leaving bytes dir)
    else if is_fault fault JournalFault.before_replace
    then (err IoError.injected, leaving bytes dir)
    else if not disk.replaced
    then (err IoError.system, leaving bytes dir)
    else if is_fault fault JournalFault.before_post_replace_sync
    then (err IoError.injected, replacing bytes dir)
    else if not disk.directory_synced
    then (err IoError.system, replacing bytes dir)
    else (ok tt, replacing bytes dir)

abbrev pub stored_by :
    Result IoError (Option JournalFile) → List ℕ → JournalFault → Disk → Directory → Stored
stored_by (err e) bytes fault disk dir = (err e, dir)
stored_by (ok _) bytes fault disk dir = store_unix bytes fault disk dir

abbrev pub validated_by :
    Result IoError (Unit {0}) → List ℕ → JournalFault → Disk → Directory → Stored
validated_by (err e) bytes fault disk dir = (err e, dir)
validated_by (ok _) bytes fault disk dir =
    if ltb max_journal_bytes (length bytes)
    then (err IoError.invalid_data, dir)
    else stored_by (open_target dir) bytes fault disk dir

abbrev pub encoded_by :
    Option (List ℕ) → Result IoError (Unit {0}) → JournalFault → Disk → Directory → Stored
encoded_by none valid fault disk dir = (err IoError.invalid_data, dir)
encoded_by (some bytes) valid fault disk dir = validated_by valid bytes fault disk dir

abbrev removed : Option JournalFile → JournalFault → Disk → Directory → Stored
removed none fault disk dir = (ok tt, dir)
removed (some f) fault disk dir =
    if not disk.unlinked
    then (err IoError.system, dir)
    else if is_fault fault JournalFault.before_remove_directory_sync
    then (err IoError.injected, record dir { target = none })
    else if not disk.directory_synced
    then (err IoError.system, record dir { target = none })
    else (ok tt, record dir { target = none })

unfoldable pub remove_with_fault : JournalFault → Disk → Directory → Stored
remove_with_fault fault disk dir =
    if is_fault fault JournalFault.before_remove
    then (err IoError.injected, dir)
    else removed dir.target fault disk dir

module _ (canonical_relay_origin : String → Result ConfigError String)
    (to_vec : LeaveJournal → Option (List ℕ)) (from_slice : List ℕ → Option LeaveJournal) where
  abbrev decoded : Option LeaveJournal → Result IoError (Option LeaveJournal)
  decoded none = err IoError.invalid_data
  decoded (some value) = validate_record canonical_relay_origin value >> ok (some value)

  abbrev read_file : Bool → Option JournalFile → Result IoError (Option LeaveJournal)
  read_file reads none = ok none
  read_file reads (some f) =
      if eqb (length f.bytes) 0 || ltb max_journal_bytes (length f.bytes)
      then err IoError.invalid_data
      else if not reads
      then err IoError.system
      else if ltb max_journal_bytes (length (take (max_journal_bytes + 1) f.bytes))
      then err IoError.invalid_data
      else decoded (from_slice f.bytes)

  -- Reading the file fails if `reads` is false.
  unfoldable pub load_record : Bool → Directory → Result IoError (Option LeaveJournal)
  unfolding validate_record open_target
  load_record reads dir = open_target dir >>= read_file reads

  abbrev bound : ProfileBinding → Option LeaveJournal → Result IoError (Option LeaveJournal)
  bound b none = ok none
  bound b (some value) = validate_journal canonical_relay_origin value b >> ok (some value)

  unfoldable pub load : Bool → ProfileBinding → Directory → Result IoError (Option LeaveJournal)
  unfolding load_record validate_journal
  load reads b dir = load_record reads dir >>= bound b

  abbrev keyed :
      String
      → String
      → Option LeaveJournal
      → Result IoError (Option (LeaveJournal × ProfileBinding))
  keyed canonical profile none = ok none
  keyed canonical profile (some value) =
      if not (value.relay_origin == canonical) || not (value.profile == profile)
      then err IoError.invalid_data
      else do
        binding ←
            map_err (λ _. IoError.invalid_data)
              (new_binding canonical_relay_origin value.profile value.relay_origin value.squad_name
                value.squad_id value.member_id)
        validate_journal canonical_relay_origin value binding
        ok (some (value, binding))

  unfoldable pub load_for_profile_key :
      Bool → String → String → Directory → Result IoError (Option (LeaveJournal × ProfileBinding))
  unfolding load_record new_binding validate_journal
  load_for_profile_key reads relay_origin profile dir = do
    canonical ← map_err (λ _. IoError.invalid_input) (canonical_relay_origin relay_origin)
    found ← load_record reads dir
    keyed canonical profile found

  unfoldable pub store_with_fault : LeaveJournal → JournalFault → Disk → Directory → Stored
  unfolding store_unix open_target validate_record
  store_with_fault value fault disk dir =
      encoded_by (to_vec value) (validate_record canonical_relay_origin value) fault disk dir
