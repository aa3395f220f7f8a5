-- ===== src/Domain/Entities.antt =====
-- src/domain/entities.ts: the rows and trees of the corpus. Instants stay texts, as in the source.
use tore_legal_data_engine.Prelude.{ℕ, String, Option, List}
use tore_legal_data_engine.Domain.Enums.{
  LegalNodeType, CitationStatus, DocumentStatus, DocumentType, VersionStatus, ParseReviewStatus,
  IngestJobType, IngestJobStatus,
}

-- `Omit<LegalNode, "children">`
pub record FlatNode : Type 0 where
  pub id : String
  pub document_version_id : String
  pub parent_id : Option String
  pub node_type : LegalNodeType
  pub book : Option String
  pub part : Option String
  pub chapter : Option String
  pub section : Option String
  pub article : Option String
  pub paragraph : Option String
  pub clause : Option String
  pub sub_clause : Option String
  pub number : Option String
  pub title : Option String
  pub text : String
  pub source_locator : String
  pub content_hash : String

-- `LegalNode` and `LegalNode[]`
mutual
  pub data LegalNode : Type 0 where
    legal_node : FlatNode → LegalNodes → LegalNode

  pub data LegalNodes : Type 0 where
    nil : LegalNodes
    cons : LegalNode → LegalNodes → LegalNodes

pub record LegalDocumentVersion : Type 0 where
  pub id : String
  pub document_id : String
  pub version_number : ℕ
  pub effective_from : Option String
  pub effective_to : Option String
  pub content_hash : String
  pub parser_id : String
  pub status : VersionStatus
  pub amendment_document_id : Option String
  pub archive_record_id : String
  pub nodes : LegalNodes

pub record LegalDocument : Type 0 where
  pub id : String
  pub source_id : String
  pub document_type : DocumentType
  pub title : String
  pub document_number : Option String
  pub issuing_authority : String
  pub jurisdiction : String
  pub adopted_at : Option String
  pub canonical_url : String
  pub status : DocumentStatus
  pub versions : List LegalDocumentVersion

-- `LegalNodeSearchCandidate`; the score is a float of the query and is read by nothing here.
pub record LegalNodeSearchCandidate : Type 0 where
  pub node : FlatNode
  pub document_id : String
  pub version_id : String
  pub version_status : VersionStatus
  pub effective_from : Option String
  pub effective_to : Option String
  pub source_content_hash : String
  pub parser_id : String
  pub archive_record_id : String

pub record CitationRecord : Type 0 where
  pub id : String
  pub document_version_id : String
  pub legal_node_id : String
  pub citation_key : String
  pub locator : String
  pub exact_text : String
  pub source_url : String
  pub content_hash : String
  pub status : CitationStatus

pub record CitationMatch : Type 0 where
  pub citation : CitationRecord
  pub document_id : String
  pub document_version_id : String
  pub version_status : VersionStatus
  pub effective_from : Option String
  pub effective_to : Option String
  pub parser_id : String
  pub source_content_hash : String
  pub archive_record_id : String
  pub node_id : String
  pub locator : String
  pub title : Option String
  pub excerpt : String
  pub content_hash : String

pub record CitationCandidate : Type 0 where
  pub query : String
  pub node_id : Option String
  pub document_id : Option String
  pub locator : Option String
  pub as_of : Option String

pub record CitationVerdict : Type 0 where
  pub query : String
  pub status : CitationStatus
  pub node_id : Option String
  pub document_version_id : Option String
  pub locator : Option String
  pub reasons : List String

pub record ParseReview : Type 0 where
  pub id : String
  pub document_id : String
  pub archive_record_id : String
  pub status : ParseReviewStatus
  pub reason : String
  pub reviewed_by : Option String

pub record EngineAuditLog : Type 0 where
  pub actor : String
  pub action : String
  pub entity_type : String
  pub entity_id : Option String

pub record IngestJob : Type 0 where
  pub id : String
  pub source_id : String
  pub job_type : IngestJobType
  pub status : IngestJobStatus
  pub url : Option String
  pub error : Option String
  pub retry_count : ℕ
