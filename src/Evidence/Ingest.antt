-- ===== src/Evidence/Ingest.antt =====
-- `_ingest_document` of `ConsumerCaseService`, app/consumer/service.py: from an upload to the
-- evidence of a case. What the ingestion, the detector and the sanitizer return for the file, and
-- what the amount reader finds in a text, are inputs.
pub mod Screened
use Prim.Native.String.{◌++◌ as str_append}
use give_exit.Prelude.{
  ℕ, ◌+◌, String, Bool, true, false, not, Option, none, some, List, [], ◌∷◌, ◌++◌, ltb, leb, length,
  take, any, str_eq, if◌then◌else◌,
}
use give_exit.Store.Defs.{Payload, Message, assistant, CaseRecord, touch, append_message}
use give_exit.Evidence.Defs.{
  PromptInjectionAssessment, failed_scan_assessment, allows_automated_analysis, evidence_status,
  DocumentPage, ParsedDocument, full_text, EvidenceMonetaryReference, ConsumerEvidence,
  StoredEvidence, with_evidence,
}

pub record Mention : Type 0 where
  pub amount : ℕ
  pub quote : String
  pub quote_sha256 : String

-- What the service calls on the way.
pub record Screening : Type 0 where
  pub sha256_hex : String → String
  pub first : ℕ → String → String
  -- str(page), str(amount)
  pub show : ℕ → String
  pub show_amount : ℕ → String
  pub extract_brl_mentions : String → List Mention
  pub sanitized_document : ParsedDocument → PromptInjectionAssessment → ParsedDocument
  -- The detector's mode.
  pub mode : String

-- One upload: `document` is none where the ingestion raised, `scan` is none where the detector
-- raised an exception of the type `error`. The file name is `Path(filename).name[:255]`.
pub record Upload : Type 0 where
  pub name : String
  pub media_type : String
  pub source_sha256 : String
  pub evidence_id : String
  pub document : Option ParsedDocument
  pub scan : Option PromptInjectionAssessment
  pub error : String

pub data IngestResult : Type 0 where
  duplicate added : ConsumerEvidence → IngestResult
  over_limit not_readable : IngestResult

-- next(item.public for item in documents if item.public.source_sha256 == source_sha256)
unfoldable pub find_duplicate : String → List StoredEvidence → Option ConsumerEvidence
find_duplicate hash [] = none
find_duplicate hash (e ∷ es) =
    if str_eq e.public.source_sha256 hash then some e.public else find_duplicate hash es

module _ (s : Screening) where
  unfoldable pub reference_of : String → ℕ → Mention → EvidenceMonetaryReference
  reference_of source_sha256 page m = record {
    reference_id = s.first 24 (
        s.sha256_hex (
          str_append source_sha256 (
            str_append ":" (
              str_append (s.show page) (
                str_append ":"
                  (str_append (s.show_amount m.amount) (str_append ":" m.quote_sha256)))))));
    amount = m.amount;
    page = page;
    quote = m.quote;
    quote_sha256 = m.quote_sha256;
  }

  -- The mentions of one page, after those that are there.
  unfoldable pub references_of :
      String → ℕ → List Mention → List EvidenceMonetaryReference → List EvidenceMonetaryReference
  unfolding reference_of
  references_of hash page [] found = found
  references_of hash page (m ∷ ms) found =
      let grown = found ++ reference_of hash page m ∷ [] in
      let rest = references_of hash page ms grown in if leb 50 (length grown) then grown else rest

  -- Once there are 50, the loop has returned.
  unfoldable pub references_of_pages :
      String → List DocumentPage → List EvidenceMonetaryReference → List EvidenceMonetaryReference
  unfolding references_of
  references_of_pages hash [] found = found
  references_of_pages hash (page ∷ pages) found =
      let grown = references_of hash page.number (s.extract_brl_mentions page.text) found in
      let rest = references_of_pages hash pages grown in
      if leb 50 (length grown) then grown else rest

  unfoldable pub extract_monetary_references :
      ParsedDocument → String → List EvidenceMonetaryReference
  unfolding references_of_pages
  extract_monetary_references d hash = references_of_pages hash d.pages []

  -- The detector's assessment, or the one for a scan that broke.
  unfoldable pub assessment_of :
      Option PromptInjectionAssessment → String → PromptInjectionAssessment
  unfolding failed_scan_assessment
  assessment_of none error = failed_scan_assessment s.mode error
  assessment_of (some a) error = a

  unfoldable pub safe_document_of :
      ParsedDocument → PromptInjectionAssessment → Option ParsedDocument
  unfolding allows_automated_analysis
  safe_document_of d a =
      if allows_automated_analysis a.recommended_action
      then some (s.sanitized_document d a)
      else none

  unfoldable pub references_in : Option ParsedDocument → String → List EvidenceMonetaryReference
  unfolding extract_monetary_references
  references_in none hash = []
  references_in (some d) hash = extract_monetary_references d hash

  unfoldable pub evidence_warnings : ParsedDocument → PromptInjectionAssessment → List String
  unfolding allows_automated_analysis
  evidence_warnings d a =
      d.warnings
      ++ a.warnings
      ++ (if a.detected
          then "O controle de segurança sinalizou instruções dirigidas à IA neste arquivo." ∷ []
          else [])
      ++ (if allows_automated_analysis a.recommended_action
          then []
          else "O conteúdo não foi disponibilizado ao RAG; revise o arquivo manualmente." ∷ [])

  unfoldable pub stored_evidence :
      Upload → ParsedDocument → PromptInjectionAssessment → StoredEvidence
  unfolding safe_document_of references_in evidence_warnings full_text evidence_status
  stored_evidence u d a =
      let safe = safe_document_of d a in
      record {
        public = record {
          evidence_id = u.evidence_id;
          filename = if str_eq u.name "" then "evidencia" else u.name;
          page_count = length d.pages;
          status = evidence_status a.recommended_action;
          media_type = u.media_type;
          extraction_method = d.extraction_method;
          ocr_applied = d.ocr_applied;
          source_sha256 = u.source_sha256;
          content_sha256 = s.sha256_hex (full_text d);
          monetary_references = references_in safe u.source_sha256;
          security_assessment = a;
          warnings = evidence_warnings d a;
        };
        safe_document = safe;
      }

  unfoldable pub acknowledgement : StoredEvidence → String
  acknowledgement e = acknowledge e.public.filename e.safe_document
    where
      acknowledge : String → Option ParsedDocument → String
      acknowledge name none =
          str_append "Documento "
            (str_append name " requer revisão e não será usado automaticamente.")
      acknowledge name (some d) =
          str_append "Documento " (str_append name " aceito e vinculado ao caso.")

  module _ (p : Payload) where
    unfoldable pub append_evidence :
        StoredEvidence → ℕ → ℕ → ℕ → CaseRecord (with_evidence p) → CaseRecord (with_evidence p)
    unfolding touch append_message acknowledgement
    append_evidence e wall now max_messages r =
        let grown = touch wall now (record r {
          documents = r.documents ++ e ∷ [];
          notice = none;
          facts_confirmed = false;
        }) in
        append_message (record { role = assistant; content = acknowledgement e }) max_messages grown

    -- After the tests for a duplicate and the limit, on what the ingestion returned.
    unfoldable pub add_parsed :
        Option ParsedDocument
        → Upload
        → ℕ
        → ℕ
        → ℕ
        → CaseRecord (with_evidence p)
        → CaseRecord (with_evidence p) × IngestResult
    unfolding assessment_of stored_evidence append_evidence
    add_parsed none u wall now max_messages r = (r, not_readable)
    add_parsed (some d) u wall now max_messages r =
        let e = stored_evidence u d (assessment_of u.scan u.error) in
        (append_evidence e wall now max_messages r, added e.public)

    unfoldable pub unless_duplicate :
        Option ConsumerEvidence
        → ℕ
        → Upload
        → ℕ
        → ℕ
        → ℕ
        → CaseRecord (with_evidence p)
        → CaseRecord (with_evidence p) × IngestResult
    unfolding add_parsed
    unless_duplicate (some e) max_documents u wall now max_messages r = (r, duplicate e)
    unless_duplicate none max_documents u wall now max_messages r =
        if leb max_documents (length r.documents)
        then (r, over_limit)
        else add_parsed u.document u wall now max_messages r

    -- `_ingest_document`, with `_max_documents_per_case` and the store's message limit
    unfoldable pub ingest_document :
        ℕ
        → Upload
        → ℕ
        → ℕ
        → ℕ
        → CaseRecord (with_evidence p)
        → CaseRecord (with_evidence p) × IngestResult
    unfolding find_duplicate unless_duplicate
    ingest_document max_documents u wall now max_messages r =
        unless_duplicate (find_duplicate u.source_sha256 r.documents) max_documents u wall now
          max_messages r
