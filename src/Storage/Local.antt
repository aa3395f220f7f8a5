-- ===== src/Storage/Local.antt =====
-- packages/storage/src/local-blob-store.ts: `LocalBlobStore`. The digest, the time and the failures of
-- writing a file are parameters.
pub mod Keys
pub mod RoundTrip
pub mod Immutable
pub mod Spoiled
use tore_legal_data_engine.Prelude.{
  ℕ, String, Option, none, some, List, Bool, true, false, not, eqb, length, is_empty, ◌==◌,
}
use tore_legal_data_engine.Prelude.Maps.{get, set}
use tore_legal_data_engine.Prelude.Text.{◌<>◌, trim}
use tore_legal_data_engine.Prelude.Result.{DomainError, Result, ok, err, ◌>>=◌, ◌>>◌}
use tore_legal_data_engine.Storage.{StoredBlob, Disk, failure, content_address_key}

-- `if (bad) throw new Name(message)`
abbrev pub fail_if : Bool → String → String → Result (Unit {0})
fail_if true name message = err (failure name message)
fail_if false name message = ok tt

-- A failure to write a file, and the bytes that are then found under its name: none where no file was
-- made or `unlink` removed it, and a part or all of them where that failed as well.
pub record WriteFault : Type 0 where
  pub error : DomainError
  pub left_behind : Option (List ℕ)

abbrev pub leave : String → Option (List ℕ) → Disk → Disk
leave key none d = d
leave key (some part) d = set key part d

unfoldable pub require_mime_type : String → Result String
require_mime_type mime =
    let trimmed = trim mime in do fail_if (trimmed == "") "Error" "mimeType is required"; ok trimmed

module _ (sha256_hex : List ℕ → String) where
  abbrev integrity : String → DomainError
  integrity message = failure "ArchiveIntegrityError" message

  -- `assertExistingMatches` of a file with these bytes
  unfoldable pub existing_matches : String → String → ℕ → List ℕ → Result (Unit {0})
  existing_matches path checksum byte_size existing = do
    fail_if (not (eqb (length existing) byte_size)) "ArchiveIntegrityError"
        ("immutable blob size mismatch at " <> path)
    fail_if (not (sha256_hex existing == checksum)) "ArchiveIntegrityError"
        ("immutable blob checksum mismatch at " <> path)

  -- What `readFile` gives, checked.
  unfoldable pub checked_bytes : String → Option (List ℕ) → Result (List ℕ)
  checked_bytes checksum none = err (integrity ("archived blob not found: " <> checksum))
  checked_bytes checksum (some bytes) = do
    fail_if (not (sha256_hex bytes == checksum)) "ArchiveIntegrityError"
        ("archived blob checksum mismatch for " <> checksum)
    ok bytes

  -- `LocalBlobStore.get`
  unfoldable pub local_get : String → Disk → Result (List ℕ)
  unfolding checked_bytes
  local_get checksum d = do key ← content_address_key checksum; checked_bytes checksum (get key d)

  abbrev is_some : Option (List ℕ) → Bool
  is_some none = false
  is_some (some bytes) = true

  -- `LocalBlobStore.exists`
  unfoldable pub local_exists : String → Disk → Result Bool
  local_exists checksum d = do key ← content_address_key checksum; ok (is_some (get key d))

  module _ (now : ℕ) (write_fault : String → List ℕ → Option WriteFault) where
    abbrev pub stored : String → String → String → List ℕ → Bool → StoredBlob
    stored checksum key mime bytes reused = record {
      checksum = checksum;
      storage_key = key;
      mime_type = mime;
      byte_size = length bytes;
      archived_at = now;
      reused = reused;
    }

    abbrev pub Stored : Type 0
    Stored = Result StoredBlob × Disk

    unfoldable pub after_write :
        String → String → String → List ℕ → Disk → Option WriteFault → Stored
    after_write checksum key mime bytes d none =
        (ok (stored checksum key mime bytes false), set key bytes d)
    after_write checksum key mime bytes d (some f) = (err f.error, leave key f.left_behind d)

    abbrev pub reuse : StoredBlob → Result (Unit {0}) → Result StoredBlob
    reuse s matches = matches >>= λ done. ok s

    -- `writeExclusive`, and what `put` makes of it: the file that is there, if any, is kept.
    unfoldable pub write_exclusive :
        String → String → String → List ℕ → Disk → Option (List ℕ) → Stored
    unfolding after_write existing_matches
    write_exclusive checksum key mime bytes d none =
        after_write checksum key mime bytes d (write_fault key bytes)
    write_exclusive checksum key mime bytes d (some existing) = (
      reuse (stored checksum key mime bytes true)
          (existing_matches key checksum (length bytes) existing),
      d,
    )

    unfoldable pub put_at : String → String → List ℕ → Disk → Result String → Stored
    unfolding write_exclusive
    put_at checksum mime bytes d (err e) = (err e, d)
    put_at checksum mime bytes d (ok key) = write_exclusive checksum key mime bytes d (get key d)

    unfoldable pub put_typed : List ℕ → Disk → Result String → Stored
    unfolding put_at
    put_typed bytes d (err e) = (err e, d)
    put_typed bytes d (ok mime) =
        put_at (sha256_hex bytes) mime bytes d (content_address_key (sha256_hex bytes))

    -- `LocalBlobStore.put`
    unfoldable pub local_put : List ℕ → String → Disk → Stored
    unfolding put_typed require_mime_type
    local_put bytes mime d = put_typed bytes d (require_mime_type mime)
