-- ===== src/Corpus/Archive.antt =====
-- src/application/archive/archive.service.ts over
-- src/infrastructure/archive/local-filesystem.storage.ts: the archive keeps original bytes under
-- their SHA-256, which is a parameter. Writing the file is not modelled: the entry holds the bytes.
use tore_legal_data_engine.Prelude.{
  ℕ, String, Option, none, some, List, [], ◌∷◌, ◌++◌, if◌then◌else◌, is_empty, find_first, ◌==◌,
}
use tore_legal_data_engine.Prelude.Text.{◌<>◌, slice_start}
use tore_legal_data_engine.Prelude.Result.{ok, err}
use tore_legal_data_engine.Corpus.Store.{Store, ArchiveEntry, Action}

-- `ArchiveMetadata`
pub record ArchiveMetadata : Type 0 where
  pub original_url : String
  pub retrieved_at : String
  pub mime_type : String
  pub original_file_name : String

unfoldable pub find_by_hash : String → Store → Option ArchiveEntry
find_by_hash sha s = find_first (λ a. a.sha256 == sha) s.archives

abbrev bytes_of : Option ArchiveEntry → Option (List ℕ)
bytes_of none = none
bytes_of (some a) = some a.bytes

unfoldable pub archive_get : String → Store → Option (List ℕ)
unfolding find_by_hash
archive_get sha s = bytes_of (find_by_hash sha s)

module _ (sha256 : List ℕ → String) where
  abbrev pub entry_of : List ℕ → ArchiveMetadata → ArchiveEntry
  entry_of bytes m = record {
    archive_id = "arc_" <> slice_start 16 (sha256 bytes);
    sha256 = sha256 bytes;
    original_url = m.original_url;
    retrieved_at = m.retrieved_at;
    mime_type = m.mime_type;
    original_file_name = m.original_file_name;
    bytes = bytes;
  }

  -- `ArchiveService.store`, with `putIfAbsent`
  unfoldable pub archive_store : List ℕ → ArchiveMetadata → Action ArchiveEntry
  unfolding find_by_hash
  archive_store bytes m s =
      if is_empty bytes
      then (err (record { code = ""; message = "Archive payload must not be empty" }), s)
      else elim (find_by_hash (sha256 bytes) s) [
        | some existing ↦ (ok existing, s)
        | none ↦
            (ok (entry_of bytes m), record s { archives = s.archives ++ entry_of bytes m ∷ [] })
      ]
