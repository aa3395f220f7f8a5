-- ===== src/Storage/Local/RoundTrip.antt =====
-- What was stored is read back.
use tore_legal_data_engine.Prelude.{
  ℕ, String, Option, none, some, List, Bool, true, false, ◌≡◌, refl, arith, length, ◌==◌,
  Option-cases, inl, inr, eq_refl, ap, ◌∙◌,
}
use tore_legal_data_engine.Prelude.Maps.{get, set, get-set}
use tore_legal_data_engine.Prelude.Text.{trim}
use tore_legal_data_engine.Prelude.Result.{ok}
use tore_legal_data_engine.Storage.{StoredBlob, Disk, content_address_key}
use tore_legal_data_engine.Storage.Local.{
  WriteFault, local_put, local_get, local_exists, put_typed, put_at, write_exclusive, after_write,
  existing_matches, checked_bytes, require_mime_type, stored,
}

-- A successful `put` and the store after it, for these bytes.
pub record IsStored (sha256_hex : List ℕ → String) (bytes : List ℕ) (s : StoredBlob) (after : Disk)
    : Type 0 where
  pub digest : s.checksum ≡ sha256_hex bytes
  pub counted : s.byte_size ≡ length bytes
  pub readable : local_get sha256_hex s.checksum after ≡ ok bytes
  pub present : local_exists sha256_hex s.checksum after ≡ ok true

module _ (sha256_hex : List ℕ → String) (now : ℕ)
    (write_fault : String → List ℕ → Option WriteFault) where
  written :
      (key mime : String) (bytes : List ℕ) (reused : Bool) (after : Disk)
      → content_address_key (sha256_hex bytes) ≡ ok key
      → get key after ≡ some bytes
      → IsStored sha256_hex bytes
          (stored sha256_hex now write_fault (sha256_hex bytes) key mime bytes reused)
          after
  unfolding local_get local_exists
  written key mime bytes reused after k g = record {
    digest = refl;
    counted = refl;
    readable = rw (k, g, checked_bytes, eq_refl (sha256_hex bytes)) refl;
    present = rw (k, g) refl;
  }

  typed : (mime : String) → (trim mime == "") ≡ false → require_mime_type mime ≡ ok (trim mime)
  unfolding require_mime_type
  typed mime h = rw h refl

  matching :
      (key : String) (bytes : List ℕ)
      → existing_matches sha256_hex key (sha256_hex bytes) (length bytes) bytes ≡ ok tt
  unfolding existing_matches
  matching key bytes = rw (eq_refl (sha256_hex bytes)) (ground arith)

  -- For a MIME type that is not blank, bytes whose digest has the form of one, and no failure of the
  -- file system: if the key is new, or is that of a file with the same bytes, `put` succeeds. What it
  -- returns has the digest and the size of the bytes, and under that digest `get` then reads the bytes
  -- and `exists` finds them.
  pub local_put-get :
      (bytes : List ℕ) (mime key : String) (d : Disk)
      → (trim mime == "") ≡ false
      → content_address_key (sha256_hex bytes) ≡ ok key
      → write_fault key bytes ≡ none
      → ((old : List ℕ) → get key d ≡ some old → old ≡ bytes)
      → (s : StoredBlob) × (after : Disk) × (local_put sha256_hex now write_fault bytes mime d
          ≡ (ok s, after))
        × IsStored sha256_hex bytes s after
  unfolding local_put put_typed put_at write_exclusive after_write
  local_put-get bytes mime key d m k f same = elim (Option-cases (get key d)) [
    | inl fresh ↦ (
      stored sha256_hex now write_fault (sha256_hex bytes) key (trim mime) bytes false,
      set key bytes d,
      rw (typed mime m, put_typed, k, put_at, fresh, write_exclusive, f, after_write) refl,
      written key (trim mime) bytes false (set key bytes d) k
          (get-set key key bytes d ∙ rw (eq_refl key) refl),
    )
    | inr (old, there) ↦
        let here = there ∙ ap some (same old there) in
        (
          stored sha256_hex now write_fault (sha256_hex bytes) key (trim mime) bytes true,
          d,
          rw (typed mime m, put_typed, k, put_at, here, write_exclusive, matching key bytes) refl,
          written key (trim mime) bytes true d k here,
        )
  ]
