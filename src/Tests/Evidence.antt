-- ===== src/Tests/Evidence.antt =====
-- Runs of the evidence index and of the ingestion, app/consumer/service.py, and of the memory
-- store, app/rag/vector_store.py.
use give_exit.Prelude.{
  ℕ, ◌≡◌, ◌≢◌, refl, String, true, false, none, some, [], ◌∷◌, str_eq, eq_iff, arith,
}
use give_exit.Prelude.Dict.{lookup, insert, has}
use give_exit.Store.Defs.{
  CaseRecord, CaseStore, Fresh, init, is_idle, token_digest, expire_idle_cases, pop_all,
  owned_documents, indexed_document_ids,
}
use give_exit.Store.Bounds.{IsValid}
use give_exit.Evidence.Index.{
  Library, member, stored, ensure_evidence_indexed, index_evidence, purge_orphaned_documents,
  delete_case, create_case, purge_expired_cases, discard, add, discard_all, orphans, index_new,
  activate,
}
use give_exit.Evidence.Index.Accounted.{IsOwned, IsAccounted}
use give_exit.Evidence.Index.Runs.{start, then, purging, vectors-IsAccounted}
use give_exit.Evidence.Index.Stranded.{create_case-strands}
use give_exit.Evidence.Index.Shared.{delete_case-shared}
use give_exit.Evidence.Defs.{native_text, ParsedDocument, with_evidence}
use give_exit.Evidence.Ingest.{Screening, Upload, ingest_document}
use give_exit.Evidence.Ingest.Screened.{
  IsEvidence, IsIngested, ingest_document-IsEvidence, ingest_document_lem,
}
use give_exit.Tests.Store.{plain, same, case_one, one_case}

program : Unit {0}
unfolding lookup insert has token_digest init is_idle expire_idle_cases pop_all owned_documents
    indexed_document_ids purge_orphaned_documents discard add discard_all orphans index_evidence
    ensure_evidence_indexed index_new activate
program = tt

-- A case that has indexed "d1".
abbrev with_document : String → String → CaseRecord plain
with_document id digest = record case_one {
  case_id = id;
  token_digest = digest;
  indexed_document_ids = "d1" ∷ [];
  active_evidence_document_id = some "d1";
}

abbrev shared_store : CaseStore plain
shared_store = record one_case {
  cases = ("c1", with_document "c1" "c1:t1") ∷ ("c2", with_document "c2" "c2:t2") ∷ [];
}

abbrev shared_library : Library plain
shared_library = record { cases = shared_store; vectors = "law" ∷ "d1" ∷ [] }

c1_is_not_c2 : ◌≢◌ {A = String} "c1" "c2"
c1_is_not_c2 e = let t : str_eq "c1" "c2" ≡ true = (eq_iff "c1" "c2").1 e in cc

delete_case-shared_example :
    member "d1" (delete_case same "c1" "t1" 20 shared_library).0.vectors ≡ false
unfolding program
delete_case-shared_example =
    (delete_case-shared same plain "c1" "c2" "t1" "d1" 20 stored (with_document "c1" "c1:t1")
      (with_document "c2" "c2:t2") shared_library refl refl refl c1_is_not_c2 refl refl refl).0

abbrev alone : Library plain
alone = record {
  cases = record one_case { cases = ("c1", with_document "c1" "c1:t1") ∷ [] };
  vectors = "law" ∷ "d1" ∷ [];
}

alone-IsValid : IsValid alone.cases
unfolding has
alone-IsValid = record {
  capacity = omega arith;
  distinct = (refl, tt);
  bounded = ((refl, omega arith, omega arith), tt);
}

only_owner :
    (j : String) (o : CaseRecord plain)
    → lookup j alone.cases.cases ≡ some o
    → member "d1" o.indexed_document_ids ≡ true
    → "c1" ≡ j
unfolding lookup
only_owner j o at own = ground (arith, at, eq_iff "c1" j)

abbrev late : Fresh
late = record { now = 99; seen = 99; created = 1; updated = 1; case_id = "c9"; token = "t9" }

create_case-strands_example :
    (¬ (IsOwned "d1" (create_case same "Conte." 99 99 late alone).0.cases))
    × ((later : ℕ)
        → member "d1"
            (purge_expired_cases later (create_case same "Conte." 99 99 late alone).0).0.vectors
          ≡ true)
unfolding program
create_case-strands_example =
    create_case-strands same plain "Conte." "d1" "c1" 99 99 late (with_document "c1" "c1:t1") alone
      alone-IsValid refl refl only_owner refl

abbrev no_cases : CaseStore plain
no_cases = record one_case { cases = [] }

abbrev swept : Library plain
swept =
    (purge_orphaned_documents true "law"
      (record { cases = no_cases; vectors = "law" ∷ "old" ∷ [] })).0

vectors-IsAccounted_example : IsAccounted "law" (purge_expired_cases {p = plain} 50 swept).0
unfolding program
vectors-IsAccounted_example =
    vectors-IsAccounted same plain "law" 2 60 2 1 no_cases ("law" ∷ "old" ∷ [])
      (purge_expired_cases 50 swept).0 refl (then start (purging 50))

abbrev screening : Screening
screening = record {
  sha256_hex = same;
  first = λ n t. t;
  show = λ n. "1";
  show_amount = λ n. "1";
  extract_brl_mentions = λ t. record { amount = 100; quote = "R$ 1"; quote_sha256 = "q" } ∷ [];
  sanitized_document = λ d a. d;
  mode = "balanced";
}

abbrev receipt : ParsedDocument
receipt = record {
  filename = "r.pdf";
  pages = record { number = 1; text = "R$ 1" } ∷ [];
  language = "pt";
  extraction_method = native_text;
  ocr_applied = false;
  warnings = [];
}

-- The detector raised.
abbrev broken_scan : Upload
broken_scan = record {
  name = "r.pdf";
  media_type = "application/pdf";
  source_sha256 = "s1";
  evidence_id = "e1";
  document = some receipt;
  scan = none;
  error = "ValueError";
}

abbrev evidence_case : CaseRecord (with_evidence plain)
evidence_case = record {
  case_id = "c1";
  token_digest = "c1:t1";
  facts = tt;
  messages = [];
  documents = [];
  facts_confirmed = true;
  notice = none;
  scope_verification = none;
  indexed_document_ids = [];
  active_evidence_document_id = none;
  idempotent_messages = [];
  created_at = 1;
  updated_at = 1;
  last_seen_monotonic = 10;
}

ingest_document-IsEvidence_example :
    IsEvidence 3 (ingest_document screening plain 3 broken_scan 4 5 9 evidence_case).0.documents
unfolding program
ingest_document-IsEvidence_example =
    ingest_document-IsEvidence screening plain 3 broken_scan 4 5 9 evidence_case
      (tt, tt, omega arith)

ingest_document_example :
    IsIngested plain 3 broken_scan evidence_case
      (ingest_document screening plain 3 broken_scan 4 5 9 evidence_case)
ingest_document_example = ingest_document_lem screening plain 3 broken_scan 4 5 9 evidence_case
