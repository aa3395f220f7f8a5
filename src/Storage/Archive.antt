-- ===== src/Storage/Archive.antt =====
-- packages/storage/src/raw-archive.ts and prisma-archive-catalog.ts: the catalog of the archived files,
-- over any store of blobs. A transaction of the catalog that fails writes nothing.
pub mod Catalogued
use tore_legal_data_engine.Prelude.{
  ℕ, suc, String, Option, none, some, List, [], ◌∷◌, ◌++◌, map, Bool, true, false, not, ◌||◌, ◌&&◌,
  if◌then◌else◌, eqb, find_first, some_of, ◌==◌, truthy, or_else,
}
use tore_legal_data_engine.Prelude.Text.{◌<>◌, trim}
use tore_legal_data_engine.Prelude.Result.{DomainError, Result, ok, err}
use tore_legal_data_engine.Storage.{
  StoredBlob, ArchiveObject, ArchiveKind, html, pdf, StorageBackendName, failure,
}

-- `BlobStore`: what the archive uses of a store of blobs, whose state is `D`.
pub record BlobStore (D : Type 0) : Type 0 where
  pub backend : StorageBackendName
  pub put : List ℕ → String → D → Result StoredBlob × D
  pub read : String → D → Result (List ℕ)

-- What the catalog writes of a document and of a crawl result: the object and its key or checksum.
pub record DocumentRow : Type 0 where
  pub id : String
  pub raw_html : Option (String × String)
  pub raw_pdf : Option (String × String)

pub record CrawlResultRow : Type 0 where
  pub id : String
  pub document_id : Option String
  pub raw_object : Option ArchiveObject
  pub downloaded_at : ℕ

pub record Catalog : Type 0 where
  pub objects : List ArchiveObject
  pub documents : List DocumentRow
  pub crawl_results : List CrawlResultRow

pub record ArchiveInput : Type 0 where
  pub document_id : String
  pub kind : ArchiveKind
  pub bytes : List ℕ
  pub mime_type : Option String
  pub crawl_result_id : Option String
  pub downloaded_at : ℕ

pub record ArchivedSource : Type 0 where
  pub object : ArchiveObject
  pub reused : Bool

unfoldable pub resolve_mime_type : ArchiveKind → Option String → String
resolve_mime_type kind mime =
    let trimmed = trim (or_else mime "") in
    if trimmed == ""
    then elim kind [ html ↦ "text/html; charset=utf-8" | pdf ↦ "application/pdf" ]
    else trimmed

-- `findByChecksum`
unfoldable pub find_by_checksum : String → List ArchiveObject → Option ArchiveObject
find_by_checksum checksum objects = find_first (λ o. o.checksum == checksum) objects

-- The update of a document's row.
unfoldable pub with_object : String → ArchiveKind → ArchiveObject → DocumentRow → DocumentRow
with_object id kind object d =
    if d.id == id
    then elim kind [
      | html ↦ record d { raw_html = some (object.id, object.storage_key) }
      | pdf ↦ record d { raw_pdf = some (object.id, object.storage_key) }
    ]
    else d

unfoldable pub crawled : String → ArchiveInput → ArchiveObject → CrawlResultRow → CrawlResultRow
crawled id input object r =
    if r.id == id
    then record r {
      document_id = some input.document_id;
      raw_object = some object;
      downloaded_at = input.downloaded_at;
    }
    else r

abbrev pub Attached : Type 0
Attached = Result (Unit {0}) × Catalog

-- `attachToDocument` once the document is updated; `before` is what a failure goes back to.
unfoldable pub attach_crawl :
    String → ArchiveInput → ArchiveObject → Catalog → Catalog → Option CrawlResultRow → Attached
attach_crawl id input object before c none =
    (err (failure "ArchiveConflictError" ("crawl result not found: " <> id)), before)
attach_crawl id input object before c (some r) =
    if truthy r.document_id && not (or_else r.document_id "" == input.document_id)
    then (
      err (failure "ArchiveConflictError" "crawl result document does not match archive document"),
      before,
    )
    else (ok tt, record c { crawl_results = map (crawled id input object) c.crawl_results })

-- `if (!input.crawlResultId) return`
unfoldable pub attach_rest :
    ArchiveInput → ArchiveObject → Catalog → Catalog → Option String → Attached
unfolding attach_crawl crawled
attach_rest input object before c none = (ok tt, c)
attach_rest input object before c (some id) =
    if id == ""
    then (ok tt, c)
    else attach_crawl id input object before c (find_first (λ r. r.id == id) c.crawl_results)

-- `attachToDocument`
unfoldable pub attach_to_document : ArchiveInput → ArchiveObject → Catalog → Attached
unfolding attach_rest with_object
attach_to_document input object c =
    if some_of (λ d. d.id == input.document_id) c.documents
    then attach_rest input object c
        (record c { documents = map (with_object input.document_id input.kind object) c.documents })
        input.crawl_result_id
    else (err (failure "PrismaClientKnownRequestError" "record not found"), c)

module _ {D : Type 0} (store : BlobStore D) (fresh : Catalog → String) where
  -- The row that `create` inserts.
  abbrev pub row_of : StoredBlob → Catalog → ArchiveObject
  row_of s c = record {
    id = fresh c;
    checksum = s.checksum;
    storage_key = s.storage_key;
    backend = store.backend;
    mime_type = s.mime_type;
    byte_size = s.byte_size;
    archived_at = s.archived_at;
  }

  -- `ensureCatalog`, from what is found under the checksum.
  unfoldable pub ensure_catalog :
      StoredBlob → Catalog → Option ArchiveObject → Result ArchivedSource × Catalog
  ensure_catalog s c none = (
    ok (record { object = row_of s c; reused = s.reused }),
    record c { objects = c.objects ++ row_of s c ∷ [] },
  )
  ensure_catalog s c (some existing) =
      if not (eqb existing.byte_size s.byte_size) || not (existing.storage_key == s.storage_key)
      then (err (failure "Error" ("catalog entry does not match blob for " <> s.checksum)), c)
      else (ok (record { object = existing; reused = true }), c)

  abbrev pub answer : ArchivedSource → Attached → Result ArchivedSource × Catalog
  answer source (ok done, c) = (ok source, c)
  answer source (err e, c) = (err e, c)

  unfoldable pub attach :
      ArchiveInput → Result ArchivedSource × Catalog → Result ArchivedSource × Catalog
  unfolding attach_to_document
  attach input (err e, c) = (err e, c)
  attach input (ok source, c) = answer source (attach_to_document input source.object c)

  abbrev pub beside : D → Result ArchivedSource × Catalog → Result ArchivedSource × (D × Catalog)
  beside d (r, c) = (r, (d, c))

  unfoldable pub archive_stored :
      ArchiveInput → Catalog → Result StoredBlob × D → Result ArchivedSource × (D × Catalog)
  unfolding attach ensure_catalog find_by_checksum
  archive_stored input c (err e, d) = (err e, (d, c))
  archive_stored input c (ok s, d) =
      beside d (attach input (ensure_catalog s c (find_by_checksum s.checksum c.objects)))

  -- `RawArchive.archive`
  unfoldable pub archive : ArchiveInput → D × Catalog → Result ArchivedSource × (D × Catalog)
  unfolding archive_stored resolve_mime_type
  archive input (d, c) =
      archive_stored input c
        (store.put input.bytes (resolve_mime_type input.kind input.mime_type) d)
