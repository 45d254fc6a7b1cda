-- ===== src/Application/Journal/Atomic.antt =====
-- Storing the journal of crates/psst-application/src/leave_journal.rs is atomic.
use psst.Prelude.{
  ℕ, zero, suc, ◌+◌, ◌≤◌, ◌≡◌, ◌⊎◌, inl, inr, refl, String, true, false, Option, none, some, List,
  [], ◌∷◌, length, take, eqb, ltb, Bool-cases, arith,
}
use psst.Core.Error.{Result, ok, err}
use psst.Application.Profile.{ConfigError}
use psst.Application.Journal.{
  LeaveJournal, JournalFault, IoError, max_journal_bytes, validate_record,
}
use psst.Application.Journal.Disk.{
  Directory, Disk, JournalFile, Stored, created_file, store_unix, load_record, open_target,
  store_with_fault, stored_by, validated_by, encoded_by,
}

-- What a store may do to the journal's file: nothing, if it fails, or put the new one in its place.
Replaces : List ℕ → Directory → Stored → Type 0
Replaces bytes dir (r, after) =
    ((after.target ≡ dir.target) × (¬ (r ≡ ok tt))) ⊎ (after.target ≡ some (created_file bytes))

store_unix-Replaces :
    (bytes : List ℕ) (fault : JournalFault) (disk : Disk) (dir : Directory)
    → Replaces bytes dir (store_unix bytes fault disk dir)
unfolding store_unix Replaces
store_unix-Replaces bytes fault disk dir = ground arith

take-shorter : (n : ℕ) (xs : List ℕ) → length (take n xs) ≤ length xs
take-shorter zero xs = omega arith
take-shorter (suc n) [] = omega arith
take-shorter (suc n) (x ∷ xs) = omega (arith, take-shorter n xs)

shorter : (m n k : ℕ) → ltb m n ≡ false → k ≤ n → ltb m k ≡ false
shorter m n k small less = ground arith

-- What JSON gives back: a journal that was written is read, and nothing is read from an empty file.
pub record IsCodec (to_vec : LeaveJournal → Option (List ℕ))
    (from_slice : List ℕ → Option LeaveJournal) : Type 0 where
  pub again :
      (v : LeaveJournal) (bytes : List ℕ) → to_vec v ≡ some bytes → from_slice bytes ≡ some v
  pub nothing : from_slice [] ≡ none

module _ (canonical_relay_origin : String → Result ConfigError String)
    (to_vec : LeaveJournal → Option (List ℕ)) (from_slice : List ℕ → Option LeaveJournal)
    (codec : IsCodec to_vec from_slice) where
  abbrev loads : Directory → Result IoError (Option LeaveJournal)
  loads dir = load_record canonical_relay_origin to_vec from_slice true dir

  bytes_some :
      (v : LeaveJournal) (bytes : List ℕ) → to_vec v ≡ some bytes → eqb (length bytes) 0 ≡ false
  bytes_some v [] h = absurd (impossible (codec.again v [] h) codec.nothing)
    where
      impossible : from_slice [] ≡ some v → from_slice [] ≡ none → ⊥
      impossible a b = cc
  bytes_some v (x ∷ xs) h = ground arith

  replaced-loads :
      (v : LeaveJournal) (bytes : List ℕ) (dir : Directory)
      → dir.target ≡ some (created_file bytes)
      → validate_record canonical_relay_origin v ≡ ok tt
      → ltb max_journal_bytes (length bytes) ≡ false
      → to_vec v ≡ some bytes
      → loads dir ≡ ok (some v)
  unfolding load_record open_target
  replaced-loads v bytes dir t valid small written =
      let some_ = bytes_some v bytes written in
      let within : ltb max_journal_bytes (length (take (max_journal_bytes + 1) bytes)) ≡ false =
        shorter max_journal_bytes (length bytes) _ small
          (take-shorter (max_journal_bytes + 1) bytes) in
      rw (t, some_, small, within, codec.again v bytes written, valid) refl

  -- What a store leaves, at any fault and any answers of the file system.
  pub record StoreLeaves (v : LeaveJournal) (dir : Directory) (done : Stored) : Type 0 where
    pub one_of_two : (done.1.target ≡ dir.target) ⊎ (loads done.1 ≡ ok (some v))
    pub kept : done.0 ≡ ok tt → loads done.1 ≡ ok (some v)

  failed-StoreLeaves :
      (v : LeaveJournal) (dir : Directory) (e : IoError) → StoreLeaves v dir (err e, dir)
  failed-StoreLeaves v dir e = record { one_of_two = inl refl; kept = λ h. absurd (cc) }

  store_unix-StoreLeaves :
      (v : LeaveJournal) (bytes : List ℕ) (fault : JournalFault) (disk : Disk) (dir : Directory)
      → validate_record canonical_relay_origin v ≡ ok tt
      → ltb max_journal_bytes (length bytes) ≡ false
      → to_vec v ≡ some bytes
      → StoreLeaves v dir (store_unix bytes fault disk dir)
  unfolding Replaces
  store_unix-StoreLeaves v bytes fault disk dir valid small written =
      elim (store_unix-Replaces bytes fault disk dir) [
        | inl (same, fails) ↦ record { one_of_two = inl same; kept = λ h. absurd (fails h) }
        | inr put ↦
            let l =
              replaced-loads v bytes (store_unix bytes fault disk dir).1 put valid small written in
            record { one_of_two = inr l; kept = λ h. l }
      ]

  stored_by-StoreLeaves :
      (v : LeaveJournal) (bytes : List ℕ) (fault : JournalFault) (disk : Disk) (dir : Directory)
      (o : Result IoError (Option JournalFile))
      → validate_record canonical_relay_origin v ≡ ok tt
      → ltb max_journal_bytes (length bytes) ≡ false
      → to_vec v ≡ some bytes
      → StoreLeaves v dir (stored_by o bytes fault disk dir)
  stored_by-StoreLeaves v bytes fault disk dir (err e) valid small written =
      failed-StoreLeaves v dir e
  stored_by-StoreLeaves v bytes fault disk dir (ok f) valid small written =
      store_unix-StoreLeaves v bytes fault disk dir valid small written

  validated_by-StoreLeaves :
      (v : LeaveJournal) (bytes : List ℕ) (fault : JournalFault) (disk : Disk) (dir : Directory)
      (r : Result IoError (Unit {0}))
      → validate_record canonical_relay_origin v ≡ r
      → to_vec v ≡ some bytes
      → StoreLeaves v dir (validated_by r bytes fault disk dir)
  validated_by-StoreLeaves v bytes fault disk dir (err e) valid written = failed-StoreLeaves v dir e
  validated_by-StoreLeaves v bytes fault disk dir (ok _) valid written =
      elim (Bool-cases (ltb max_journal_bytes (length bytes))) [
        | inl large ↦ rw large (failed-StoreLeaves v dir IoError.invalid_data)
        | inr small ↦
            rw small
              (stored_by-StoreLeaves v bytes fault disk dir (open_target dir) valid small written)
      ]

  encoded_by-StoreLeaves :
      (v : LeaveJournal) (fault : JournalFault) (disk : Disk) (dir : Directory)
      (o : Option (List ℕ))
      → to_vec v ≡ o
      → StoreLeaves v dir (encoded_by o (validate_record canonical_relay_origin v) fault disk dir)
  encoded_by-StoreLeaves v fault disk dir none h = failed-StoreLeaves v dir IoError.invalid_data
  encoded_by-StoreLeaves v fault disk dir (some bytes) h =
      validated_by-StoreLeaves v bytes fault disk dir (validate_record canonical_relay_origin v)
        refl h

  -- A store of a journal is atomic, at any fault and any answers of the file system: it leaves the
  -- journal's file as it was, or the journal that is loaded then is the stored one; and if it answers
  -- that it has stored, it is the stored one. So the temporary files that it may leave behind are
  -- never taken for the journal, nor is a part of it that was written.
  pub store_with_fault-StoreLeaves :
      (v : LeaveJournal) (fault : JournalFault) (disk : Disk) (dir : Directory)
      → StoreLeaves v dir
          (store_with_fault canonical_relay_origin to_vec from_slice v fault disk dir)
  unfolding store_with_fault
  store_with_fault-StoreLeaves v fault disk dir =
      encoded_by-StoreLeaves v fault disk dir (to_vec v) refl
