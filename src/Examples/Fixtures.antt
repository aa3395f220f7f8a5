-- ===== src/Examples/Fixtures.antt =====
-- A small corpus: one law with two articles, in two versions.
use tore_legal_data_engine.Prelude.{
  ℕ, zero, suc, String, Option, none, some, List, [], true, if◌then◌else◌, ◌==◌,
}
use tore_legal_data_engine.Prelude.Int.{ℤ, pos, negsuc}
use tore_legal_data_engine.Prelude.Text.{◌<>◌, parse_natural}
use tore_legal_data_engine.Domain.Enums.{
  LegalNodeType, document, article, law, VersionStatus, DocumentStatus,
}
use tore_legal_data_engine.Domain.Entities.{
  FlatNode, LegalNodes, nil, cons, legal_node, LegalDocument, LegalDocumentVersion,
}
use tore_legal_data_engine.Corpus.Store.{Store}

abbrev as_instant : Option ℕ → Option ℤ
as_instant none = none
as_instant (some n) = some (pos n)

-- Instants are written as the number of milliseconds since the epoch.
abbrev pub clock : String → Option ℤ
clock s = if s == "-1" then some (negsuc 0) else as_instant (parse_natural s)

abbrev pub fresh : ℕ → String
fresh zero = "u"
fresh (suc n) = "u" <> fresh n

abbrev pub node_at :
    String → Option String → LegalNodeType → Option String → String → String → FlatNode
node_at id above type number text locator = record {
  id = id;
  document_version_id = "";
  parent_id = above;
  node_type = type;
  book = none;
  part = none;
  chapter = none;
  section = none;
  article = number;
  paragraph = none;
  clause = none;
  sub_clause = none;
  number = number;
  title = none;
  text = text;
  source_locator = locator;
  content_hash = "h-" <> id;
}

abbrev pub root : FlatNode
root = node_at "n0" none document none "" "doc"

abbrev pub first_article : FlatNode
first_article = node_at "n1" (some "n0") article (some "1") "Зорилт" "art-1"

abbrev pub second_article : FlatNode
second_article = node_at "n2" (some "n0") article (some "2") "Хууль тогтоомж" "art-2"

abbrev pub tree : LegalNodes
tree =
    cons
      (legal_node root
        (cons (legal_node first_article nil) (cons (legal_node second_article nil) nil)))
      nil

abbrev pub version_at :
    String → ℕ → Option String → Option String → VersionStatus → LegalDocumentVersion
version_at id number from to status = record {
  id = id;
  document_id = "d1";
  version_number = number;
  effective_from = from;
  effective_to = to;
  content_hash = "hash-" <> id;
  parser_id = "parser-1";
  status = status;
  amendment_document_id = none;
  archive_record_id = "archive-" <> id;
  nodes = nil;
}

abbrev pub law_of : List LegalDocumentVersion → LegalDocument
law_of versions = record {
  id = "d1";
  source_id = "mn.legalinfo";
  document_type = law;
  title = "Эрүүгийн хууль";
  document_number = none;
  issuing_authority = "Улсын Их Хурал";
  jurisdiction = "MN";
  adopted_at = none;
  canonical_url = "https://legalinfo.mn/mn/detail?lawId=1";
  status = DocumentStatus.in_force;
  versions = versions;
}

abbrev pub empty_store : Store
empty_store = record {
  source_known = true;
  documents = [];
  versions = [];
  nodes = [];
  citations = [];
  reviews = [];
  audits = [];
  jobs = [];
  archives = [];
  next = 0;
}
