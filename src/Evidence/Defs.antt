-- ===== src/Evidence/Defs.antt =====
-- What a case keeps of an uploaded file: app/schemas/document.py, app/schemas/security.py and the
-- evidence of app/consumer/schemas.py. Amounts are whole cents. SHA-256 comes from outside.
use Prim.Native.String.{◌++◌ as str_append}
use give_exit.Prelude.{ℕ, String, Bool, true, false, Option, List, [], ◌∷◌}
use give_exit.Store.Defs.{Payload}

pub data SecurityAction : Type 0 where
  proceed proceed_with_warning human_review block : SecurityAction

unfoldable pub allows_automated_analysis : SecurityAction → Bool
allows_automated_analysis proceed = true
allows_automated_analysis proceed_with_warning = true
allows_automated_analysis human_review = false
allows_automated_analysis block = false

pub data EvidenceStatus : Type 0 where
  accepted accepted_with_warning review_required blocked : EvidenceStatus

unfoldable pub evidence_status : SecurityAction → EvidenceStatus
evidence_status proceed = accepted
evidence_status proceed_with_warning = accepted_with_warning
evidence_status human_review = review_required
evidence_status block = blocked

pub data ExtractionMethod : Type 0 where
  native_text ocr hybrid : ExtractionMethod

-- The findings stand for their quotes, which the sanitizer masks.
pub record PromptInjectionAssessment : Type 0 where
  pub detected : Bool
  pub recommended_action : SecurityAction
  pub findings : List String
  pub scan_complete : Bool
  pub scan_mode : String
  pub warnings : List String

pub record DocumentPage : Type 0 where
  pub number : ℕ
  pub text : String

pub record ParsedDocument : Type 0 where
  pub filename : String
  pub pages : List DocumentPage
  pub language : String
  pub extraction_method : ExtractionMethod
  pub ocr_applied : Bool
  pub warnings : List String

-- "\n\n".join(page.text for page in pages)
unfoldable pub joined_pages : List DocumentPage → String
joined_pages [] = ""
joined_pages (page ∷ []) = page.text
joined_pages (page ∷ (next ∷ pages)) =
    str_append page.text (str_append "\n\n" (joined_pages (next ∷ pages)))

unfoldable pub full_text : ParsedDocument → String
unfolding joined_pages
full_text d = joined_pages d.pages

-- `first 16 s` is s[:16].
unfoldable pub doc_id : (String → String) → (ℕ → String → String) → ParsedDocument → String
unfolding full_text
doc_id sha256_hex first d = first 16 (sha256_hex (full_text d))

-- Fail closed; `named` is the type name of the exception.
unfoldable pub failed_scan_assessment : String → String → PromptInjectionAssessment
failed_scan_assessment scan_mode named = record {
  detected = false;
  recommended_action = block;
  findings = [];
  scan_complete = false;
  scan_mode = scan_mode;
  warnings =
      str_append
        "A varredura de prompt injection nao foi concluida; a analise automatizada foi bloqueada ("
        (str_append named ").")
      ∷ [];
}

pub record EvidenceMonetaryReference : Type 0 where
  pub reference_id : String
  pub amount : ℕ
  pub page : ℕ
  pub quote : String
  pub quote_sha256 : String

pub record ConsumerEvidence : Type 0 where
  pub evidence_id : String
  pub filename : String
  pub page_count : ℕ
  pub status : EvidenceStatus
  pub media_type : String
  pub extraction_method : ExtractionMethod
  pub ocr_applied : Bool
  pub source_sha256 : String
  pub content_sha256 : String
  pub monetary_references : List EvidenceMonetaryReference
  pub security_assessment : PromptInjectionAssessment
  pub warnings : List String

-- `public` is what a caller sees; `safe_document` is what may reach the retrieval.
pub record StoredEvidence : Type 0 where
  pub public : ConsumerEvidence
  pub safe_document : Option ParsedDocument

-- The cases whose documents are of this kind.
abbrev pub with_evidence : Payload → Payload
with_evidence p = record p { Evidence = StoredEvidence }
