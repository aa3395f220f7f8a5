-- ===== src/Storage/OnDisk.antt =====
-- The local store (packages/storage/src/local-blob-store.ts) as the store of an archive.
use tore_legal_data_engine.Prelude.{
  ℕ, String, Option, none, some, List, true, ◌≡◌, refl, arith, length, ◌==◌, Option-cases, inl, inr,
  ap, ◌∙◌, sym, eq_refl,
}
use tore_legal_data_engine.Prelude.Maps.{get, get-set}
use tore_legal_data_engine.Prelude.Result.{Result, ok, err, bind-eq-ok}
use tore_legal_data_engine.Storage.{Disk, content_address_key, local}
use tore_legal_data_engine.Storage.Local.{
  WriteFault, local_put, local_get, put_typed, put_at, write_exclusive, after_write,
  existing_matches, checked_bytes, require_mime_type, stored, reuse,
}
use tore_legal_data_engine.Storage.Local.Immutable.{local_put-Extends, Extends}
use tore_legal_data_engine.Storage.Archive.{BlobStore}
use tore_legal_data_engine.Storage.Archive.Catalogued.{IsBlobStore, PutReadable, Keeps}

module _ (sha256_hex : List ℕ → String) (now : ℕ)
    (write_fault : String → List ℕ → Option WriteFault) where
  abbrev pub local_blob_store : BlobStore Disk
  local_blob_store = record {
    backend = local;
    put = local_put sha256_hex now write_fault;
    read = local_get sha256_hex;
  }

  kept : (d after : Disk) → Extends d after → Keeps local_blob_store d after
  unfolding local_get checked_bytes
  kept d after e checksum b r =
      let (key, k, c) = bind-eq-ok (content_address_key checksum) _ r in
      elim (Option-cases (get key d)) [
        | inl absent ↦ absurd (ground arith)
        | inr (old, there) ↦
            rw (k, e key old there) (sym (ap (checked_bytes sha256_hex checksum) there) ∙ c)
      ]

  reused_readable :
      (key mime : String) (bytes old : List ℕ) (d : Disk) (m : Result (Unit {0}))
      → content_address_key (sha256_hex bytes) ≡ ok key
      → get key d ≡ some old
      → existing_matches sha256_hex key (sha256_hex bytes) (length bytes) old ≡ m
      → PutReadable local_blob_store (
        reuse sha256_hex now write_fault
            (stored sha256_hex now write_fault (sha256_hex bytes) key mime bytes true)
            m,
        d,
      )
  unfolding local_get existing_matches checked_bytes
  reused_readable key mime bytes old d (err e) k g h = tt
  reused_readable key mime bytes old d (ok done) k g h =
      let same : (sha256_hex old == sha256_hex bytes) ≡ true = ground arith in
      (old, rw (k, g, same) refl, ground arith)

  after_write_readable :
      (key mime : String) (bytes : List ℕ) (d : Disk) (fault : Option WriteFault)
      → content_address_key (sha256_hex bytes) ≡ ok key
      → PutReadable local_blob_store
          (after_write sha256_hex now write_fault (sha256_hex bytes) key mime bytes d fault)
  unfolding after_write local_get checked_bytes
  after_write_readable key mime bytes d none k =
      (bytes, rw (k, get-set key key bytes d, eq_refl key, eq_refl (sha256_hex bytes)) refl, refl)
  after_write_readable key mime bytes d (some e) k = tt

  write_readable :
      (key mime : String) (bytes : List ℕ) (d : Disk) (there : Option (List ℕ))
      → content_address_key (sha256_hex bytes) ≡ ok key
      → get key d ≡ there
      → PutReadable local_blob_store
          (write_exclusive sha256_hex now write_fault (sha256_hex bytes) key mime bytes d there)
  unfolding write_exclusive
  write_readable key mime bytes d none k g =
      after_write_readable key mime bytes d (write_fault key bytes) k
  write_readable key mime bytes d (some old) k g = reused_readable key mime bytes old d _ k g refl

  put_at_readable :
      (mime : String) (bytes : List ℕ) (d : Disk) (key : Result String)
      → content_address_key (sha256_hex bytes) ≡ key
      → PutReadable local_blob_store
          (put_at sha256_hex now write_fault (sha256_hex bytes) mime bytes d key)
  unfolding put_at
  put_at_readable mime bytes d (err e) k = tt
  put_at_readable mime bytes d (ok key) k = write_readable key mime bytes d (get key d) k refl

  put_typed_readable :
      (bytes : List ℕ) (d : Disk) (mime : Result String)
      → PutReadable local_blob_store (put_typed sha256_hex now write_fault bytes d mime)
  unfolding put_typed
  put_typed_readable bytes d (err e) = tt
  put_typed_readable bytes d (ok mime) =
      put_at_readable mime bytes d (content_address_key (sha256_hex bytes)) refl

  -- The local store is one on which an archive can rely: what can be read can still be read after any
  -- `put`, and after a successful one, bytes of its size can be read under its checksum.
  pub local_blob_store-IsBlobStore : IsBlobStore local_blob_store
  unfolding local_put
  local_blob_store-IsBlobStore = record {
    kept = λ bytes mime d.
        kept d (local_put sha256_hex now write_fault bytes mime d).1
          (local_put-Extends sha256_hex now write_fault bytes mime d);
    readable = λ bytes mime d. put_typed_readable bytes d (require_mime_type mime);
  }
