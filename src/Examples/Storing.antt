-- ===== src/Examples/Storing.antt =====
-- A file is stored and archived.
use tore_legal_data_engine.Prelude.{
  ℕ, String, Option, none, some, List, [], ◌∷◌, ◌≡◌, refl, arith, is_empty, if◌then◌else◌, ◌==◌,
  false,
}
use tore_legal_data_engine.Prelude.Maps.{get}
use tore_legal_data_engine.Prelude.Text.{trim}
use tore_legal_data_engine.Prelude.Result.{ok}
use tore_legal_data_engine.Storage.{StoredBlob, Disk, html, content_address_key}
use tore_legal_data_engine.Storage.Local.{WriteFault, local_put}
use tore_legal_data_engine.Storage.Local.RoundTrip.{IsStored, local_put-get}
use tore_legal_data_engine.Storage.Local.Immutable.{IsKept, local_put-IsKept}
use tore_legal_data_engine.Storage.Local.Spoiled.{IsRefused, local_put-IsRefused}
use tore_legal_data_engine.Storage.Archive.{Catalog, ArchiveInput, archive}
use tore_legal_data_engine.Storage.Archive.Catalogued.{
  IsBlobStore, IsCatalogued, AnswerReadable, archive-IsCatalogued,
}
use tore_legal_data_engine.Storage.OnDisk.{local_blob_store, local_blob_store-IsBlobStore}

-- A stand-in for the digest.
abbrev digest : List ℕ → String
digest bytes =
    if is_empty bytes
    then "0000000000000000000000000000000000000000000000000000000000000000"
    else "abcdef0123456789abcdef0123456789abcdef0123456789abcdef0123456789"

abbrev no_fault : String → List ℕ → Option WriteFault
no_fault key bytes = none

abbrev page : List ℕ
page = 60 ∷ 104 ∷ []

abbrev page_key : String
page_key = "sha256/ab/cd/abcdef0123456789abcdef0123456789abcdef0123456789abcdef0123456789"

page_key_lem : content_address_key (digest page) ≡ ok page_key
unfolding content_address_key
page_key_lem = refl

mime_lem : (trim "text/html" == "") ≡ false
unfolding trim
mime_lem = refl

local_put-get_example :
    (s : StoredBlob) × (after : Disk) × (local_put digest 7 no_fault page "text/html" []
      ≡ (ok s, after))
    × IsStored digest page s after
unfolding get
local_put-get_example =
    local_put-get digest 7 no_fault page "text/html" page_key [] mime_lem page_key_lem refl
      (λ old there. absurd (cc there))

local_put-IsKept_example : IsKept digest [] (local_put digest 7 no_fault page "text/html" []).1
local_put-IsKept_example =
    local_put-IsKept digest 7 no_fault page "text/html" [] (λ key f part e. absurd (cc e))

-- The disk is full after the first byte, and the file cannot be removed.
abbrev full_disk : WriteFault
full_disk = record {
  error = record { code = "Error"; message = "ENOSPC" };
  left_behind = some (60 ∷ []);
}

abbrev cut_short : String → List ℕ → Option WriteFault
cut_short key bytes = some full_disk

local_put-IsRefused_example :
    IsRefused digest (local_put digest 7 cut_short page "text/html" []).1 (
      local_put digest 8 no_fault page "text/html"
        (local_put digest 7 cut_short page "text/html" []).1)
unfolding get
local_put-IsRefused_example =
    local_put-IsRefused digest 7 8 cut_short no_fault page_key "text/html" "text/html" page
      (60 ∷ []) [] full_disk mime_lem page_key_lem refl refl refl (omega arith)

abbrev page_input : ArchiveInput
page_input = record {
  document_id = "d1";
  kind = html;
  bytes = page;
  mime_type = none;
  crawl_result_id = none;
  downloaded_at = 7;
}

abbrev no_objects : Catalog
no_objects = record {
  objects = [];
  documents = record { id = "d1"; raw_html = none; raw_pdf = none } ∷ [];
  crawl_results = [];
}

abbrev first_id : Catalog → String
first_id c = "object-1"

local_blob_store-IsBlobStore_example : IsBlobStore (local_blob_store digest 7 no_fault)
local_blob_store-IsBlobStore_example = local_blob_store-IsBlobStore digest 7 no_fault

archive-IsCatalogued_example :
    IsCatalogued
      (local_blob_store digest 7 no_fault)
      (archive (local_blob_store digest 7 no_fault) first_id page_input ([], no_objects)).1
    × AnswerReadable
        (local_blob_store digest 7 no_fault)
        (archive (local_blob_store digest 7 no_fault) first_id page_input ([], no_objects))
archive-IsCatalogued_example =
    archive-IsCatalogued (local_blob_store digest 7 no_fault) first_id
      (local_blob_store-IsBlobStore digest 7 no_fault) page_input [] no_objects
      (record { readable = tt; distinct = tt })
