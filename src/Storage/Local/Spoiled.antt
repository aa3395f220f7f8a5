-- ===== src/Storage/Local/Spoiled.antt =====
-- What a part of a file under the key of its digest does to later calls.
use tore_legal_data_engine.Prelude.{
  ℕ, String, Option, none, some, List, false, eqb, ◌≡◌, ◌≢◌, refl, arith, length, ◌==◌, ◌∙◌,
  eq_refl, Bool-cases, inl, inr,
}
use tore_legal_data_engine.Prelude.Maps.{get, get-set}
use tore_legal_data_engine.Prelude.Text.{trim}
use tore_legal_data_engine.Prelude.Result.{DomainError, Result, ok, err}
use tore_legal_data_engine.Storage.{StoredBlob, Disk, content_address_key}
use tore_legal_data_engine.Storage.Local.{
  WriteFault, local_put, put_typed, put_at, write_exclusive, after_write, existing_matches,
  require_mime_type,
}

module _ (sha256_hex : List ℕ → String) where
  -- A `put` that fails and changes nothing.
  abbrev pub IsRefused : Disk → Result StoredBlob × Disk → Type 0
  IsRefused d o = (e : DomainError) × (o ≡ (err e, d))

  module _ (now : ℕ) (write_fault : String → List ℕ → Option WriteFault) where
    put_again-IsRefused :
        (key mime : String) (bytes part : List ℕ) (d : Disk)
        → content_address_key (sha256_hex bytes) ≡ ok key
        → get key d ≡ some part
        → length part ≢ length bytes
        → IsRefused d (local_put sha256_hex now write_fault bytes mime d)
    unfolding local_put put_typed put_at write_exclusive existing_matches require_mime_type
    put_again-IsRefused key mime bytes part d k there other = elim (Bool-cases (trim mime == "")) [
      | inl e ↦ rw e (_, refl)
      | inr e ↦ rw (e, k, there, differs (length part) (length bytes) other) (_, refl)
    ]
      where
        differs : (m n : ℕ) → m ≢ n → eqb m n ≡ false
        differs m n h = ground arith

    left_there :
        (key mime : String) (bytes part : List ℕ) (d : Disk) (f : WriteFault)
        → (trim mime == "") ≡ false
        → content_address_key (sha256_hex bytes) ≡ ok key
        → get key d ≡ none
        → write_fault key bytes ≡ some f
        → f.left_behind ≡ some part
        → get key (local_put sha256_hex now write_fault bytes mime d).1 ≡ some part
    unfolding local_put put_typed put_at write_exclusive after_write require_mime_type
    left_there key mime bytes part d f m k fresh failed left =
        rw (m, k, fresh, failed, left) (get-set key key part d ∙ rw (eq_refl key) refl)

  -- After a `put` of new bytes in which the write failed, and a file of another size stayed under
  -- their key since it could not be removed either, every later `put` of these bytes fails and leaves
  -- the disk as it was, whatever its MIME type and the faults of its own.
  pub local_put-IsRefused :
      (now later : ℕ) (write_fault faults : String → List ℕ → Option WriteFault)
      (key mime again : String) (bytes part : List ℕ) (d : Disk) (f : WriteFault)
      → (trim mime == "") ≡ false
      → content_address_key (sha256_hex bytes) ≡ ok key
      → get key d ≡ none
      → write_fault key bytes ≡ some f
      → f.left_behind ≡ some part
      → length part ≢ length bytes
      → IsRefused (local_put sha256_hex now write_fault bytes mime d).1 (
          local_put sha256_hex later faults bytes again
            (local_put sha256_hex now write_fault bytes mime d).1)
  local_put-IsRefused now later write_fault faults key mime again bytes part d f m k fresh failed
        left other =
      put_again-IsRefused later faults key again bytes part
        (local_put sha256_hex now write_fault bytes mime d).1 k
        (left_there now write_fault key mime bytes part d f m k fresh failed left) other
