-- ===== src/Tests/Journals.antt =====
-- A journal of crates/psst-application/src/leave_journal.rs that is stored over another file.
use psst.Prelude.{
  ℕ, ◌≡◌, refl, ap, String, Bool, true, false, not, ◌&&◌, Option, none, some, List, [], ◌∷◌, eqb,
  is_none, ◌==◌, eq_iff, Bool-cases, inl, inr, if◌then◌else◌, arith,
}
use psst.Prelude.Texts.{as_bytes, is_empty, strip_prefix, first, last}
use psst.Core.Error.{Result, ok}
use psst.Core.Value.{valid_squad_name}
use psst.Application.Profile.{ConfigError}
use psst.Application.Journal.{LeaveJournal, LeavePhase, JournalFault, is_confirmed}
use psst.Application.Journal.Disk.{Directory, Disk, FileKind, replacing, store_with_fault}
use psst.Application.Journal.Atomic.{IsCodec, StoreLeaves, store_with_fault-StoreLeaves}

abbrev canonical : String → Result ConfigError String
canonical origin = ok origin

abbrev leaving_alice : LeaveJournal
leaving_alice = record {
  version = 1;
  phase = LeavePhase.intent_;
  relay_origin = "http://localhost:7777";
  profile = "main";
  squad_name = "team";
  squad_id = "sqd_team";
  member_id = "mem_alice";
  operation_id = "op-1";
  created_at = 300;
  confirmed_at = none;
}

abbrev is_that : LeaveJournal → Bool
is_that v =
    eqb v.version 1
    && not (is_confirmed v.phase)
    && v.relay_origin == "http://localhost:7777"
    && v.profile == "main"
    && v.squad_name == "team"
    && v.squad_id == "sqd_team"
    && v.member_id == "mem_alice"
    && v.operation_id == "op-1"
    && eqb v.created_at 300
    && is_none v.confirmed_at

is_that_one : (v : LeaveJournal) → is_that v ≡ true → leaving_alice ≡ v
is_that_one v h = ground (
  arith,
  eq_iff v.relay_origin "http://localhost:7777",
  eq_iff v.profile "main",
  eq_iff v.squad_name "team",
  eq_iff v.squad_id "sqd_team",
  eq_iff v.member_id "mem_alice",
  eq_iff v.operation_id "op-1",
)

-- A codec that knows this journal only.
abbrev to_vec : LeaveJournal → Option (List ℕ)
to_vec v = if is_that v then some (b'{' ∷ b'}' ∷ []) else none

abbrev from_slice : List ℕ → Option LeaveJournal
from_slice [] = none
from_slice (b ∷ bytes) = some leaving_alice

codec-IsCodec : IsCodec to_vec from_slice
codec-IsCodec = record {
  again = λ v bytes h. elim (Bool-cases (is_that v)) [
    | inl same ↦
        let written : ◌≡◌ {A = Option (List ℕ)} (some (b'{' ∷ b'}' ∷ [])) (some bytes) =
          rw same at h in
        let braces : bytes ≡ b'{' ∷ b'}' ∷ [] = cc in
        rw braces (ap (λ (x : LeaveJournal). some x) (is_that_one v same))
    | inr other ↦ absurd (ground arith)
  ];
  nothing = refl;
}

abbrev unsynced : Disk
unsynced = record {
  names = true;
  created = true;
  written = true;
  file_synced = false;
  replaced = true;
  unlinked = true;
  directory_synced = true;
  partial = [];
}

abbrev profile_directory : Directory
profile_directory = record {
  target = some (record { kind = FileKind.regular; is_private = true; bytes = 1 ∷ [] });
  temporaries = [];
}

store_with_fault-StoreLeaves_example :
    StoreLeaves canonical to_vec from_slice codec-IsCodec leaving_alice profile_directory (
      store_with_fault canonical to_vec from_slice leaving_alice JournalFault.no_fault unsynced
        profile_directory)
store_with_fault-StoreLeaves_example =
    store_with_fault-StoreLeaves canonical to_vec from_slice codec-IsCodec leaving_alice
      JournalFault.no_fault unsynced profile_directory

stores :
    store_with_fault canonical to_vec from_slice leaving_alice JournalFault.no_fault
      (record unsynced { file_synced = true })
      profile_directory
    ≡ (ok tt, replacing (b'{' ∷ b'}' ∷ []) profile_directory)
unfolding store_with_fault valid_squad_name is_empty strip_prefix first last as_bytes
stores = refl
