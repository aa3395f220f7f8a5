-- ===== src/Storage/Archive/Catalogued.antt =====
-- Every object of the catalog can be read from the blobs.
use tore_legal_data_engine.Prelude.{
  ℕ, String, Option, none, some, List, [], ◌∷◌, ◌++◌, map, false, ◌≡◌, refl, arith, length, All,
  All-mono, All-append, find_first, ◌==◌, eq_iff, Bool-cases, inl, inr, map-append, sym, subst, eqb,
  not, ◌||◌, some_of,
}
use tore_legal_data_engine.Prelude.Keys.{has, Distinct, has-append}
use tore_legal_data_engine.Prelude.Result.{Result, ok, err}
use tore_legal_data_engine.Storage.{StoredBlob, ArchiveObject}
use tore_legal_data_engine.Storage.Archive.{
  BlobStore, Catalog, ArchiveInput, ArchivedSource, CrawlResultRow, Attached, archive,
  archive_stored, attach, beside, answer, ensure_catalog, attach_to_document, attach_rest,
  attach_crawl, find_by_checksum, row_of, resolve_mime_type,
}

module _ {D : Type 0} (store : BlobStore D) where
  -- Some bytes of this size are stored under the checksum.
  abbrev pub IsReadable : D → String → ℕ → Type 0
  IsReadable d checksum size = (b : List ℕ) × (store.read checksum d ≡ ok b) × (length b ≡ size)

  abbrev pub PutReadable : Result StoredBlob × D → Type 0
  PutReadable (err e, d) = Unit
  PutReadable (ok s, d) = IsReadable d s.checksum s.byte_size

  abbrev pub Keeps : D → D → Type 0
  Keeps d after =
      (checksum : String) (b : List ℕ)
      → store.read checksum d ≡ ok b
      → store.read checksum after ≡ ok b

  -- What the archive relies on.
  pub record IsBlobStore : Type 0 where
    pub kept : (bytes : List ℕ) (mime : String) (d : D) → Keeps d (store.put bytes mime d).1
    pub readable : (bytes : List ℕ) (mime : String) (d : D) → PutReadable (store.put bytes mime d)

  abbrev checksum_of : ArchiveObject → String
  checksum_of o = o.checksum

  -- Each object of the catalog can be read, and no two have one checksum.
  pub record IsCatalogued (s : D × Catalog) : Type 0 where
    pub readable : All (λ o. IsReadable s.0 o.checksum o.byte_size) s.1.objects
    pub distinct : Distinct (map checksum_of s.1.objects)

  -- So can the object of an answer.
  abbrev pub AnswerReadable : Result ArchivedSource × (D × Catalog) → Type 0
  AnswerReadable (err e, s) = Unit
  AnswerReadable (ok a, s) = IsReadable s.0 a.object.checksum a.object.byte_size

  IsReadable-of_found :
      (d : D) (checksum : String) (objects : List ArchiveObject) (o : ArchiveObject)
      → find_by_checksum checksum objects ≡ some o
      → All (λ o. IsReadable d o.checksum o.byte_size) objects
      → IsReadable d o.checksum o.byte_size
  unfolding find_by_checksum
  IsReadable-of_found d checksum [] o h r = absurd (cc)
  IsReadable-of_found d checksum (p ∷ rest) o h (r, rs) =
      elim (Bool-cases (p.checksum == checksum)) [
        | inl e ↦
            let found : p ≡ o = ground arith in
            subst (λ x. IsReadable d x.checksum x.byte_size) found r
        | inr e ↦ IsReadable-of_found d checksum rest o (ground arith) rs
      ]

  absent :
      (checksum : String) (objects : List ArchiveObject)
      → find_by_checksum checksum objects ≡ none
      → has checksum (map checksum_of objects) ≡ false
  unfolding find_by_checksum
  absent checksum [] h = refl
  absent checksum (p ∷ rest) h = ground (arith, absent checksum rest)

  Distinct-snoc :
      (k : String) (ks : List String) → Distinct ks → has k ks ≡ false → Distinct (ks ++ k ∷ [])
  Distinct-snoc k [] d h = (refl, tt)
  Distinct-snoc k (x ∷ ks) (n, d) h = (
    ground (arith, has-append x ks (k ∷ []), eq_iff x k, eq_iff k x),
    Distinct-snoc k ks d (ground arith),
  )

  module _ (fresh : Catalog → String) where
    -- What the catalog's later steps leave of its objects.
    abbrev Same : Catalog → Catalog → Type 0
    Same c after = after.objects ≡ c.objects

    attach_crawl-objects :
        (id : String) (input : ArchiveInput) (object : ArchiveObject) (before c : Catalog)
        (r : Option CrawlResultRow)
        → Same before c
        → Same before (attach_crawl id input object before c r).1
    unfolding attach_crawl
    attach_crawl-objects id input object before c none e = refl
    attach_crawl-objects id input object before c (some r) e = ground arith

    attach_rest-objects :
        (input : ArchiveInput) (object : ArchiveObject) (before c : Catalog) (crawl : Option String)
        → Same before c
        → Same before (attach_rest input object before c crawl).1
    unfolding attach_rest
    attach_rest-objects input object before c none e = e
    attach_rest-objects input object before c (some id) e = ground (
      arith,
      attach_crawl-objects id input object before c (find_first (λ r. r.id == id) c.crawl_results),
    )

    attach_to_document-objects :
        (input : ArchiveInput) (object : ArchiveObject) (c : Catalog)
        → Same c (attach_to_document input object c).1
    unfolding attach_to_document
    attach_to_document-objects input object c =
        elim (Bool-cases (some_of (λ d. d.id == input.document_id) c.documents)) [
          | inl e ↦ rw e (attach_rest-objects input object c _ input.crawl_result_id refl)
          | inr e ↦ rw e refl
        ]

    -- A blob that was stored, and what is found under its checksum.
    ensure_catalog-IsCatalogued :
        (s : StoredBlob) (d : D) (c : Catalog) (there : Option ArchiveObject)
        → find_by_checksum s.checksum c.objects ≡ there
        → IsReadable d s.checksum s.byte_size
        → IsCatalogued (d, c)
        → IsCatalogued (d, (ensure_catalog store fresh s c there).1)
          × AnswerReadable (beside store fresh d (ensure_catalog store fresh s c there))
    unfolding ensure_catalog
    ensure_catalog-IsCatalogued s d c none h r i = (
      record {
        readable =
            All-append (λ o. IsReadable d o.checksum o.byte_size) c.objects
              (row_of store fresh s c ∷ []) i.readable (r, tt);
        distinct =
            subst Distinct (sym (map-append checksum_of c.objects (row_of store fresh s c ∷ []))) (
              Distinct-snoc s.checksum (map checksum_of c.objects) i.distinct
                (absent s.checksum c.objects h));
      },
      r,
    )
    ensure_catalog-IsCatalogued s d c (some o) h r i =
        elim (Bool-cases
          (not (eqb o.byte_size s.byte_size) || not (o.storage_key == s.storage_key))) [
            | inl e ↦ rw e (i, tt)
            | inr e ↦ rw e (i, IsReadable-of_found d s.checksum c.objects o h i.readable)
          ]

    moved :
        (d : D) (c after : Catalog) → Same c after → IsCatalogued (d, c) → IsCatalogued (d, after)
    moved d c after e i = record {
      readable = subst (All (λ o. IsReadable d o.checksum o.byte_size)) (sym e) i.readable;
      distinct = subst (λ os. Distinct (map checksum_of os)) (sym e) i.distinct;
    }

    answer-IsCatalogued :
        (d : D) (source : ArchivedSource) (c : Catalog) (o : Attached)
        → Same c o.1
        → IsReadable d source.object.checksum source.object.byte_size
        → IsCatalogued (d, c)
        → IsCatalogued (d, (answer store fresh source o).1)
          × AnswerReadable (beside store fresh d (answer store fresh source o))
    answer-IsCatalogued d source c (ok done, after) e r i = (moved d c after e i, r)
    answer-IsCatalogued d source c (err x, after) e r i = (moved d c after e i, tt)

    attach-IsCatalogued :
        (input : ArchiveInput) (d : D) (r : Result ArchivedSource × Catalog)
        → IsCatalogued (d, r.1) × AnswerReadable (beside store fresh d r)
        → IsCatalogued (d, (attach store fresh input r).1)
          × AnswerReadable (beside store fresh d (attach store fresh input r))
    unfolding attach
    attach-IsCatalogued input d (err e, c) h = h
    attach-IsCatalogued input d (ok source, c) (i, r) =
        answer-IsCatalogued d source c (attach_to_document input source.object c)
          (attach_to_document-objects input source.object c) r i

    grown :
        (c : Catalog) (d after : D) → Keeps d after → IsCatalogued (d, c) → IsCatalogued (after, c)
    grown c d after k i = record {
      readable =
          All-mono (λ o. IsReadable d o.checksum o.byte_size)
            (λ o. IsReadable after o.checksum o.byte_size) c.objects
            (λ o r. (r.0, k o.checksum r.0 r.1, r.2)) i.readable;
      distinct = i.distinct;
    }

    archive_stored-IsCatalogued :
        (input : ArchiveInput) (c : Catalog) (r : Result StoredBlob × D)
        → PutReadable r
        → IsCatalogued (r.1, c)
        → IsCatalogued (archive_stored store fresh input c r).1
          × AnswerReadable (archive_stored store fresh input c r)
    unfolding archive_stored
    archive_stored-IsCatalogued input c (err e, d) p i = (i, tt)
    archive_stored-IsCatalogued input c (ok s, d) p i =
        attach-IsCatalogued input d
          (ensure_catalog store fresh s c (find_by_checksum s.checksum c.objects))
          (ensure_catalog-IsCatalogued s d c (find_by_checksum s.checksum c.objects) refl p i)

    -- Over blobs that keep what can be read, and whose `put` leaves the bytes readable: where every
    -- object of the catalog can be read at its size and no two have one checksum, that holds after
    -- archiving a file too, whatever comes of it; and the object of the answer can be read, if there is
    -- an answer.
    pub archive-IsCatalogued :
        IsBlobStore
        → (input : ArchiveInput) (d : D) (c : Catalog) → IsCatalogued (d, c)
        → IsCatalogued (archive store fresh input (d, c)).1
          × AnswerReadable (archive store fresh input (d, c))
    unfolding archive
    archive-IsCatalogued laws input d c i =
        let mime = resolve_mime_type input.kind input.mime_type in
        archive_stored-IsCatalogued input c (store.put input.bytes mime d)
          (laws.readable input.bytes mime d)
          (grown c d (store.put input.bytes mime d).1 (laws.kept input.bytes mime d) i)
