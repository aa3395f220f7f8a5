-- ===== src/Ingest/Republish/Gated.antt =====
-- Republishing writes versions only of documents that passed the gate.
use tore_legal_data_engine.Prelude.{ℕ, String, Option, List, [], false, ◌≡◌}
use tore_legal_data_engine.Prelude.Int.{ℤ}
use tore_legal_data_engine.Prelude.Result.{Result, ok}
use tore_legal_data_engine.Domain.Entities.{LegalDocument}
use tore_legal_data_engine.Publication.Gate.{tree_of}
use tore_legal_data_engine.Publication.Laws.{IsPublishable}
use tore_legal_data_engine.Corpus.Store.{Store}
use tore_legal_data_engine.Ingest.Shape.{parse_shape}
use tore_legal_data_engine.Ingest.Republish.{RepublishOptions, check_shape, shape_reasons}

module _ (parse_date : String → Option ℤ) (uuid : ℕ → String) (parser_id now : String)
    (decode : List ℕ → String) (sha256 : List ℕ → String)
    (parse : String → List ℕ → String → String → Result LegalDocument)
    (law_id_from_url : String → Option String) where
  -- A document that was parsed from these bytes and may be published again.
  pub record IsRepublishable (options : RepublishOptions) (hash : String) (bytes : List ℕ)
      (d : LegalDocument) : Type 0 where
    pub law_id : Option String
    pub url : String
    pub mime : String
    pub read : parse (decode bytes) bytes url mime ≡ ok d
    pub no_dry_run : options.dry_run ≡ false
    pub publishable : IsPublishable d hash (sha256 bytes) law_id
    pub expected : check_shape options.expected_shape (parse_shape (tree_of d)) ≡ ok tt
    pub shapely : shape_reasons (parse_shape (tree_of d)) ≡ []

  abbrev Approved : RepublishOptions → String → Type 0
  Approved options hash =
      (bytes : List ℕ) × (d : LegalDocument) × IsRepublishable options hash bytes d
