-- ===== src/Lib.antt =====
-- The legal data engine keeps a corpus of Mongolian law: it downloads statutes, archives the bytes,
-- parses them into trees of provisions, checks the trees, publishes them as numbered versions of
-- documents, and answers lookups of provisions and citations, also for an instant in the past. This
-- library models the engine's own logic and proves what makes it correct.
--
-- The parts, and the files of the repository that they model:
-- - Domain (src/domain): enums and entities; Domain/Hierarchy the checks on a tree of nodes, its
--   flattening and its assembly (services/legal-node-hierarchy.ts); Domain/Version the rules on a
--   version and on the versions of a document (services/document-version.ts); Domain/CitationStatus
--   (services/citation-status.ts); Domain/OpenQuestion (services/open-question-search.ts);
--   Domain/SourceDocument what kind of file was downloaded (services/source-document.ts).
-- - Regex: the backtracking search of ECMAScript patterns, which the parts below use for the
--   patterns of the source. Its fuel for a repetition is one more than the characters left, and each
--   round consumes one at least.
-- - Evaluation (src/application/evaluation): the structure report of a version, its cycle search, and
--   the check of citations against nodes. The walk to a node's ancestors runs on fuel, two more than
--   the number of nodes.
-- - Publication: the confidence in a parse (src/parsers/legalinfo/confidence.ts) and the publication
--   gate with its rules for particular laws (src/application/ingest/publication-gate.ts).
-- - Corpus: the tables of the database as a store, with actions that may throw and transactions
--   (src/infrastructure/prisma), the archive of source bytes (src/application/archive,
--   src/infrastructure/archive), and `persistWith` (src/application/legal-corpus/persist-document.ts).
-- - Ingest: `ingestOne` of src/application/ingest/ingest-legalinfo.service.ts from the download of an
--   act to its review or publication, and `publish` with every write of its transaction. It asks the
--   publication gate, and calls Corpus to archive bytes and to save versions and trees. Ingest/Run is
--   `run`: the job, the loop over the acts, and how errors end it; Corpus/Jobs its table of jobs;
--   Ingest/Republish `republishFromArchive`, which publishes archived bytes again;
--   Ingest/Cli the arguments of the command (cli-args.ts).
-- - Net (src/infrastructure/http): the checks on URLs and addresses, and the downloader with its
--   redirects and retries. The redirects left and the retries left fall in each round.
--   Net/RateLimiter is the limiter's progress, with calls that interleave.
-- - Storage (packages/storage): the blobs under their digests in a local store, and the raw archive,
--   which catalogs what it puts into any store of blobs.
-- - Normalizer (packages/citation-normalizer): the tokens of a citation, the locator that they name,
--   and the catalog of instruments that finds whose provision it is.
-- - Scraper (apps/scraper): Retry is the retries of any operation, Requests the client's requests with
--   their redirects. At most five redirects are left, one fewer in each round.
-- - Citations (src/application/citations): the phrase parser, the search of the citation table, and
--   the validator, which classifies what the search finds by Domain/CitationStatus.
-- - Retrieval (src/application/legal-corpus/corpus-retrieval.ts): the lookups, over a record of
--   queries; Retrieval/Corpus makes that record from the store.
-- - Examples: a small corpus, on which each theorem is applied.
--
-- How things are modelled: records and data types follow the entities and enums; an optional field is
-- an Option; a thrown DomainError is an error value; a repository call is an action on the store, in
-- the order of the source. Instants stay the texts they are given as, and `Date.parse` is a parameter,
-- as are the identifiers that are drawn, the case-insensitive search of the database and the ranked
-- search in SQL. Numbers of versions are natural numbers.
--
-- Not modelled: the network itself, which is a parameter where it is asked, the HTML parser's walk over
-- a DOM, the file and database drivers, other command lines, the HTTP server, logging, the metadata of
-- audit records, and the database's own constraints, which would turn some writes into errors. Also
-- left out: the scraper's crawl and its downloads, its cookies and its reading of robots.txt, the
-- evaluation of a whole corpus, the migration and other scripts.
pub mod Prelude
pub mod Domain
pub mod Regex
pub mod Evaluation
pub mod Publication
pub mod Corpus
pub mod Ingest
pub mod Net
pub mod Scraper
pub mod Normalizer
pub mod Storage
pub mod Citations
pub mod Retrieval
pub mod Examples
