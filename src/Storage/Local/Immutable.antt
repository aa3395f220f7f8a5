-- ===== src/Storage/Local/Immutable.antt =====
-- What is stored stays as it is, and every file's bytes have the digest in its key.
use tore_legal_data_engine.Prelude.{
  ℕ, String, Option, none, some, List, ◌≡◌, refl, arith, ◌==◌, eq_iff, inl, inr, ap, ◌∙◌, sym,
  Bool-cases, subst,
}
use tore_legal_data_engine.Prelude.Maps.{get, set, get-set}
use tore_legal_data_engine.Prelude.Result.{Result, ok, err}
use tore_legal_data_engine.Storage.{Disk, content_address_key}
use tore_legal_data_engine.Storage.Local.{
  WriteFault, leave, local_put, put_typed, put_at, write_exclusive, after_write, require_mime_type,
}
use tore_legal_data_engine.Storage.Local.Keys.{content_address_key-inj}

-- The bytes under the key of a digest have that digest.
abbrev pub IsIntact : (List ℕ → String) → Disk → Type 0
IsIntact sha256_hex d =
    (checksum key : String) (bytes : List ℕ)
    → content_address_key checksum ≡ ok key
    → get key d ≡ some bytes
    → sha256_hex bytes ≡ checksum

abbrev pub Extends : Disk → Disk → Type 0
Extends before after =
    (key : String) (bytes : List ℕ) → get key before ≡ some bytes → get key after ≡ some bytes

-- A step from one disk to another that keeps its files and their digests.
pub record IsKept (sha256_hex : List ℕ → String) (before after : Disk) : Type 0 where
  pub extends : Extends before after
  pub intact : IsIntact sha256_hex before → IsIntact sha256_hex after

module _ (sha256_hex : List ℕ → String) where
  set-Extends :
      (key : String) (bytes : List ℕ) (d : Disk) → get key d ≡ none → Extends d (set key bytes d)
  set-Extends key bytes d fresh k old g = elim (Bool-cases (key == k)) [
    | inl e ↦ ground (arith, eq_iff key k, get-set key k bytes d)
    | inr e ↦ get-set key k bytes d ∙ rw e g
  ]

  set-IsIntact :
      (key : String) (bytes : List ℕ) (d : Disk)
      → content_address_key (sha256_hex bytes) ≡ ok key
      → IsIntact sha256_hex d
      → IsIntact sha256_hex (set key bytes d)
  set-IsIntact key bytes d k i checksum other old c g = elim (Bool-cases (key == other)) [
    | inl e ↦
        let at_key : key ≡ other = (eq_iff key other).0 e in
        let stored_bytes : some bytes ≡ some old =
          sym (get-set key other bytes d ∙ rw e refl) ∙ g in
        let same_key =
          content_address_key-inj (sha256_hex bytes) checksum other (k ∙ ap ok at_key) c in
        ap sha256_hex (cc) ∙ same_key
    | inr e ↦ i checksum other old c (sym (get-set key other bytes d ∙ rw e refl) ∙ g)
  ]

  module _ (now : ℕ) (write_fault : String → List ℕ → Option WriteFault) where
    leave-Extends :
        (key : String) (part : Option (List ℕ)) (d : Disk)
        → get key d ≡ none
        → Extends d (leave key part d)
    leave-Extends key none d fresh = λ k old g. g
    leave-Extends key (some part) d fresh = set-Extends key part d fresh

    after_write-Extends :
        (key mime : String) (bytes : List ℕ) (d : Disk) (fault : Option WriteFault)
        → get key d ≡ none
        → Extends d
            (after_write sha256_hex now write_fault (sha256_hex bytes) key mime bytes d fault).1
    unfolding after_write
    after_write-Extends key mime bytes d none fresh = set-Extends key bytes d fresh
    after_write-Extends key mime bytes d (some f) fresh = leave-Extends key f.left_behind d fresh

    -- A write that fails leaves no file, or the whole of it.
    abbrev pub IsAtomic : List ℕ → Type 0
    IsAtomic bytes =
        (key : String) (f : WriteFault) (part : List ℕ)
        → write_fault key bytes ≡ some f
        → f.left_behind ≡ some part
        → part ≡ bytes

    leave-IsIntact :
        (key : String) (bytes : List ℕ) (part : Option (List ℕ)) (d : Disk)
        → content_address_key (sha256_hex bytes) ≡ ok key
        → ((b : List ℕ) → part ≡ some b → b ≡ bytes)
        → IsIntact sha256_hex d
        → IsIntact sha256_hex (leave key part d)
    leave-IsIntact key bytes none d k whole i = i
    leave-IsIntact key bytes (some part) d k whole i =
        subst (λ b. IsIntact sha256_hex (set key b d)) (sym (whole part refl))
          (set-IsIntact key bytes d k i)

    after_write-IsIntact :
        (key mime : String) (bytes : List ℕ) (d : Disk) (fault : Option WriteFault)
        → content_address_key (sha256_hex bytes) ≡ ok key
        → write_fault key bytes ≡ fault
        → IsAtomic bytes
        → IsIntact sha256_hex d
        → IsIntact sha256_hex
            (after_write sha256_hex now write_fault (sha256_hex bytes) key mime bytes d fault).1
    unfolding after_write
    after_write-IsIntact key mime bytes d none k e atomic i = set-IsIntact key bytes d k i
    after_write-IsIntact key mime bytes d (some f) k e atomic i =
        leave-IsIntact key bytes f.left_behind d k (λ b h. atomic key f b e h) i

    -- A property of the step from one disk to another, of every step of a `put` of these bytes.
    put_step :
        (P : Disk → Disk → Type 0) (bytes : List ℕ) (mime : String) (d : Disk)
        → P d d
        → ((key typed : String)
            → content_address_key (sha256_hex bytes) ≡ ok key
            → get key d ≡ none
            → P d
                (after_write sha256_hex now write_fault
                  (sha256_hex bytes)
                  key
                  typed
                  bytes
                  d
                  (write_fault key bytes)).1)
        → P d (local_put sha256_hex now write_fault bytes mime d).1
    unfolding local_put put_typed put_at write_exclusive
    put_step P bytes mime d still wrote = typed (require_mime_type mime)
      where
        there :
            (key mime : String) (o : Option (List ℕ))
            → content_address_key (sha256_hex bytes) ≡ ok key
            → get key d ≡ o
            → P d
                (write_exclusive sha256_hex now write_fault (sha256_hex bytes) key mime bytes d o).1
        there key mime none k g = wrote key mime k g
        there key mime (some old) k g = still

        keyed :
            (mime : String) (key : Result String)
            → content_address_key (sha256_hex bytes) ≡ key
            → P d (put_at sha256_hex now write_fault (sha256_hex bytes) mime bytes d key).1
        keyed mime (err e) k = still
        keyed mime (ok key) k = there key mime (get key d) k refl

        typed : (m : Result String) → P d (put_typed sha256_hex now write_fault bytes d m).1
        typed (err e) = still
        typed (ok mime) = keyed mime (content_address_key (sha256_hex bytes)) refl

    -- Every file that was there keeps its bytes.
    pub local_put-Extends :
        (bytes : List ℕ) (mime : String) (d : Disk)
        → Extends d (local_put sha256_hex now write_fault bytes mime d).1
    local_put-Extends bytes mime d =
        put_step Extends bytes mime d (λ k old g. g)
          (λ key typed k fresh. after_write-Extends key typed bytes d (write_fault key bytes) fresh)

    -- Where a write that fails leaves no file, or the whole of it: whatever comes of a `put`, every file
    -- that was there keeps its bytes; and if the bytes under the key of each digest had that digest,
    -- they still do.
    pub local_put-IsKept :
        (bytes : List ℕ) (mime : String) (d : Disk)
        → IsAtomic bytes
        → IsKept sha256_hex d (local_put sha256_hex now write_fault bytes mime d).1
    local_put-IsKept bytes mime d atomic = record {
      extends = local_put-Extends bytes mime d;
      intact =
          put_step (λ a b. IsIntact sha256_hex a → IsIntact sha256_hex b) bytes mime d (λ i. i)
            (λ key typed k fresh i.
              after_write-IsIntact key typed bytes d (write_fault key bytes) k refl atomic i);
    }
