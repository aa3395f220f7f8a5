-- ===== src/Storage.antt =====
-- packages/storage/src: `types.ts`, `cas.ts`, `errors.ts`, `archive-catalog.ts`. Blobs are bytes under a
-- key that is made of their SHA-256 digest. A file's path is kept without the root directory.
pub mod Local
pub mod Archive
pub mod OnDisk
use Prim.Native.Char.{code}
use Prim.Native.String.{[], ◌∷◌}
use tore_legal_data_engine.Prelude.{
  ℕ, zero, suc, String, List, Bool, true, false, ◌&&◌, ◌||◌, if◌then◌else◌, leb,
}
use tore_legal_data_engine.Prelude.Maps.{StringMap}
use tore_legal_data_engine.Prelude.Text.{◌<>◌}
use tore_legal_data_engine.Prelude.Result.{DomainError, Result, ok, err}

pub data StorageBackendName : Type 0 where
  local s3 azure_blob : StorageBackendName

pub data ArchiveKind : Type 0 where
  html pdf : ArchiveKind

-- `algorithm` is always "sha256" and left out; an instant is a number.
pub record StoredBlob : Type 0 where
  pub checksum : String
  pub storage_key : String
  pub mime_type : String
  pub byte_size : ℕ
  pub archived_at : ℕ
  pub reused : Bool

pub record ArchiveObject : Type 0 where
  pub id : String
  pub checksum : String
  pub storage_key : String
  pub backend : StorageBackendName
  pub mime_type : String
  pub byte_size : ℕ
  pub archived_at : ℕ

-- An error, by the name of its class.
abbrev pub failure : String → String → DomainError
failure name message = record { code = name; message = message }

abbrev pub Disk : Type 0
Disk = StringMap (List ℕ)

abbrev is_hex : ℕ → Bool
is_hex c = (leb b'a' c && leb c b'f') || (leb b'0' c && leb c b'9')

-- `/^[a-f0-9]{n}$/`
unfoldable pub is_hex_run : ℕ → String → Bool
is_hex_run zero [] = true
is_hex_run zero (c ∷ s) = false
is_hex_run (suc n) [] = false
is_hex_run (suc n) (c ∷ s) = is_hex (code c) && is_hex_run n s

-- `text.slice(from, to)`, of a text in ASCII.
unfoldable pub slice : ℕ → ℕ → String → String
slice from zero s = []
slice from (suc to) [] = []
slice zero (suc to) (c ∷ s) = c ∷ slice zero to s
slice (suc from) (suc to) (c ∷ s) = slice from to s

unfoldable pub key_text : String → String
unfolding slice
key_text checksum = "sha256/" <> slice 0 2 checksum <> "/" <> slice 2 4 checksum <> "/" <> checksum

unfoldable pub content_address_key : String → Result String
unfolding is_hex_run key_text
content_address_key checksum =
    if is_hex_run 64 checksum
    then ok (key_text checksum)
    else err (failure "Error" "checksum must be a lowercase sha256 hex digest")
