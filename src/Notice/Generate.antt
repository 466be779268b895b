-- ===== src/Notice/Generate.antt =====
-- `_generate_notice`, `_check_scope`, `_generation_blockers`, `_index_case_evidence`,
-- `_compose_notice_prose` and `get_notice` of app/consumer/service.py. The ground selection and
-- its verifier, the retrieval, the settlement and the composer are an interface, `Drafting`, whose
-- operations may fail where the source's raise.
pub mod Grounded
use give_exit.Prelude.{
  ℕ, ◌+◌, String, Bool, true, false, not, ◌||◌, ◌&&◌, Option, none, some, List, [], ◌∷◌, ◌++◌, Text,
  str_eq, if◌then◌else◌,
}
use give_exit.Prelude.Score.{Score}
use give_exit.Rag.{RetrievedChunk}
use give_exit.Policy.{RetrievalTrace}
use give_exit.Store.Defs.{Payload, CaseRecord, touch}
use give_exit.Service.{Intake, readiness_missing}
use give_exit.Evidence.Defs.{StoredEvidence, ParsedDocument, doc_id}
use give_exit.Evidence.Index.{
  IndexOutcome, IndexResult, reused, indexed, no_retrievable_text, index_failed,
  ensure_evidence_indexed,
}
use give_exit.Verifiers.Scope.{ScopeVerification}
use give_exit.Notice.Combined.{is_given, PageSource, accepted_documents, combined_evidence}
use give_exit.Notice.Citations.{
  EvidenceCitation, Quoting, evidence_references, NoticeGenerationMode, case_mode, prompt_mode,
  is_case_mode, is_nothing, is_grounded,
}

-- What the two retrievals return.
pub record Support (Metadata N : Type 0) : Type 0 where
  pub legal_results : List (List (RetrievedChunk Metadata N))
  pub legal_traces : List (RetrievalTrace N)
  pub evidence_results : List (List (RetrievedChunk Metadata N))
  pub evidence_traces : List (RetrievalTrace N)

pub record ConsumerNotice (Ground Scenario : Type 0) : Type 0 where
  pub notice_id : String
  pub case_id : String
  pub generation_mode : NoticeGenerationMode
  pub evidence_references : List EvidenceCitation
  pub legal_grounds : List Ground
  pub settlement : Scenario
  pub full_text : String
  pub composed_by_fallback : Bool

-- The parts that the generation calls. `none` is an exception.
pub record Drafting (Facts Ground Scenario Prose Metadata N : Type 0) : Type 0 where
  pub complaint_summary : Facts → Option String
  pub missing_fields : Facts → List String
  pub is_consumer_scope : String → Bool
  pub verify_scope : String → ScopeVerification
  pub first : ℕ → String → String
  pub quoting : Quoting Facts
  pub casefold : Text → Text
  -- retrieve_legal_candidates and retrieve_many_with_traces; no document, no evidence results
  pub retrieve : Facts → Option String → Option (Support Metadata N)
  -- select_legal_grounds, then the ground verifier
  pub grounds : Facts → Support Metadata N → List Ground
  pub settle : Facts → List StoredEvidence → Option Scenario
  -- None where the optional provider is unavailable.
  pub compose : Facts → List EvidenceCitation → List Ground → Scenario → Option Prose
  pub compose_deterministically : Facts → List EvidenceCitation → List Ground → Scenario → Prose
  pub render : Facts → List EvidenceCitation → List Ground → Scenario → Prose → String

pub data NoticeError : Type 0 where
  not_ready : List String → NoticeError
  out_of_scope_prompt corpus_not_indexed no_evidence_text evidence_index_failed retrieval_failed :
      NoticeError
  insufficient_grounding settlement_failed : NoticeError

pub data Result {ℓ} (A : Type ℓ) : Type ℓ where
  ok : A → Result A
  err : NoticeError → Result A

abbrev pub or_blank : Option String → String
or_blank none = ""
or_blank (some t) = t

unfoldable pub scope_error : NoticeGenerationMode → NoticeError
scope_error prompt_mode = out_of_scope_prompt
scope_error case_mode = not_ready ("consumer_relationship" ∷ [])

-- The provider's prose, or the deterministic one.
unfoldable pub prose_or_fallback {ℓ} : {Prose : Type ℓ} → Option Prose → Prose → Prose
prose_or_fallback none fallback = fallback
prose_or_fallback (some p) fallback = p

module _ {Facts Ground Scenario Prose Metadata N : Type 0} (no_facts : Facts)
    (d : Drafting Facts Ground Scenario Prose Metadata N) where
  -- What a case of this service holds.
  abbrev pub case_payload : Payload
  case_payload = record {
    Facts = Facts;
    no_facts = no_facts;
    Evidence = StoredEvidence;
    Notice = ConsumerNotice Ground Scenario;
    Verification = ScopeVerification;
  }

  abbrev pub complaint_of : Facts → String
  complaint_of facts = or_blank (d.complaint_summary facts)

  -- stored.complaint_sha256 == sha256_hex(complaint)
  abbrev pub is_current : Facts → ScopeVerification → Bool
  is_current facts v = str_eq v.complaint_sha256 (d.quoting.sha256_hex (complaint_of facts))

  -- The readiness of `Service`, on these facts and this evidence; the texts of the intake do not
  -- matter to it.
  abbrev pub intake : Intake case_payload
  intake = record {
    strip = λ t. t;
    merge_facts = λ t facts. facts;
    next_message = λ facts has_evidence. "";
    is_accepted = λ e. is_given e.safe_document;
    missing_fields = d.missing_fields;
    is_in_scope = λ facts. d.is_consumer_scope (complaint_of facts);
    is_removed = λ facts v. v.removed && is_current facts v;
  }

  unfoldable pub generation_blockers : NoticeGenerationMode → CaseRecord case_payload → List String
  unfolding readiness_missing
  generation_blockers case_mode r = readiness_missing intake r
  generation_blockers prompt_mode r =
      if str_eq (complaint_of r.facts) "" then "complaint_summary" ∷ [] else []

  -- The stored verification if it is of this very text, or a new one.
  unfoldable pub scope_verification_of : Facts → Option ScopeVerification → ScopeVerification
  scope_verification_of facts none = d.verify_scope (complaint_of facts)
  scope_verification_of facts (some v) =
      if is_current facts v then v else d.verify_scope (complaint_of facts)

  -- `_check_scope`: the record with what it remembers, and whether the complaint passes.
  unfoldable pub check_scope : CaseRecord case_payload → CaseRecord case_payload × Bool
  unfolding scope_verification_of
  check_scope r =
      let v = scope_verification_of r.facts r.scope_verification in
      if d.is_consumer_scope (complaint_of r.facts)
      then (record r { scope_verification = some v }, not v.removed)
      else (r, false)

  -- A record, the documents of the vector store, and what came of it.
  abbrev pub Outcome : Type 0 → Type 0
  Outcome A = (CaseRecord case_payload × List String) × Result A

  abbrev pub Notice : Type 0
  Notice = ConsumerNotice Ground Scenario

  module _ (mode : NoticeGenerationMode) (notice_id : String) (wall now : ℕ) where
    -- From the settlement on: `record.notice = notice; record.touch()`.
    unfoldable pub write_notice :
        CaseRecord case_payload
        → List String
        → List EvidenceCitation
        → List Ground
        → Option Scenario
        → Outcome Notice
    unfolding touch prose_or_fallback
    write_notice r vectors references grounds none = ((r, vectors), err settlement_failed)
    write_notice r vectors references grounds (some settlement) =
        let composed = d.compose r.facts references grounds settlement in
        let prose =
          prose_or_fallback composed
            (d.compose_deterministically r.facts references grounds settlement) in
        let notice : Notice = record {
          notice_id = notice_id;
          case_id = r.case_id;
          generation_mode = mode;
          evidence_references = references;
          legal_grounds = grounds;
          settlement = settlement;
          full_text = d.render r.facts references grounds settlement prose;
          composed_by_fallback = not (is_given composed);
        } in
        ((touch wall now (record r { notice = some notice }), vectors), ok notice)

    -- After the retrieval.
    unfoldable pub draft :
        ⦃s : Score N⦄
        → CaseRecord case_payload
        → List String
        → List PageSource
        → Option (Support Metadata N)
        → Outcome Notice
    unfolding write_notice evidence_references is_grounded
    draft r vectors sources none = ((r, vectors), err retrieval_failed)
    draft r vectors sources (some support) =
        let grounds = d.grounds r.facts support in
        let references =
          evidence_references d.quoting r.facts d.casefold support.evidence_results sources
            support.evidence_traces in
        if is_grounded grounds references (is_case_mode mode)
        then write_notice r vectors references grounds (d.settle r.facts r.documents)
        else ((r, vectors), err insufficient_grounding)

    -- After the indexing of the evidence.
    unfoldable pub retrieve_and_draft :
        ⦃s : Score N⦄
        → String
        → List PageSource
        → (CaseRecord case_payload × List String) × IndexResult
        → Outcome Notice
    unfolding draft
    retrieve_and_draft evidence_id sources ((r, vectors), no_retrievable_text) =
        ((r, vectors), err no_evidence_text)
    retrieve_and_draft evidence_id sources ((r, vectors), index_failed) =
        ((r, vectors), err evidence_index_failed)
    retrieve_and_draft evidence_id sources ((r, vectors), indexed) =
        draft r vectors sources (d.retrieve r.facts (some evidence_id))
    retrieve_and_draft evidence_id sources ((r, vectors), reused) =
        draft r vectors sources (d.retrieve r.facts (some evidence_id))

    -- `_index_case_evidence`, and on; `outcome` is what indexing the document would do.
    unfoldable pub index_and_draft :
        ⦃s : Score N⦄ → IndexOutcome → CaseRecord case_payload → List String → Outcome Notice
    unfolding accepted_documents combined_evidence ensure_evidence_indexed retrieve_and_draft doc_id
    index_and_draft outcome r vectors =
        let (document, sources) = combined_evidence r.case_id r.documents in
        let id = doc_id d.quoting.sha256_hex d.first document in
        if is_nothing (accepted_documents r.documents)
        then draft r vectors [] (d.retrieve r.facts none)
        else retrieve_and_draft id sources (ensure_evidence_indexed outcome id r vectors)

    -- After the scope check, on whether the legal corpus is indexed.
    unfoldable pub draft_in_scope :
        ⦃s : Score N⦄
        → Bool
        → IndexOutcome
        → CaseRecord case_payload × Bool
        → List String
        → Outcome Notice
    unfolding index_and_draft
    draft_in_scope corpus_ready outcome (r, false) vectors = ((r, vectors), err (scope_error mode))
    draft_in_scope corpus_ready outcome (r, true) vectors =
        if corpus_ready
        then index_and_draft outcome r vectors
        else ((r, vectors), err corpus_not_indexed)

    -- `_generate_notice`
    unfoldable pub generate_notice :
        ⦃s : Score N⦄ → Bool → IndexOutcome → CaseRecord case_payload → List String → Outcome Notice
    unfolding draft_in_scope check_scope generation_blockers
    generate_notice corpus_ready outcome r vectors =
        let missing = generation_blockers mode r in
        if not (is_nothing missing)
        then ((r, vectors), err (not_ready missing))
        else draft_in_scope corpus_ready outcome (check_scope r) vectors
