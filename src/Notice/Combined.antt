-- ===== src/Notice/Combined.antt =====
-- `_combined_evidence` of app/consumer/service.py: the accepted files of a case as one document
-- whose pages keep the file and the page that each came from.
use Prim.Native.String.{◌++◌ as str_append}
use give_exit.Prelude.{
  ℕ, ◌+◌, String, Bool, true, false, Option, none, some, List, [], ◌∷◌, ◌++◌, ◌==◌, filter, length,
  if◌then◌else◌,
}
use give_exit.Evidence.Defs.{DocumentPage, ParsedDocument, native_text, StoredEvidence}

abbrev pub is_given {ℓ} : {A : Type ℓ} → Option A → Bool
is_given none = false
is_given (some a) = true

-- `_accepted_documents`
unfoldable pub accepted_documents : List StoredEvidence → List StoredEvidence
accepted_documents es = filter (λ e. is_given e.safe_document) es

-- `pages` and `sources` of the loop, which have the same keys: the page of the combined document,
-- its text, and where it came from.
pub record PageSource : Type 0 where
  pub global_page : ℕ
  pub text : String
  pub evidence : StoredEvidence
  pub original_page : ℕ

abbrev pub pages_in : Option ParsedDocument → List DocumentPage
pages_in none = []
pages_in (some d) = d.pages

unfoldable pub add_pages : StoredEvidence → List DocumentPage → List PageSource → List PageSource
add_pages e [] sources = sources
add_pages e (page ∷ pages) sources = add_pages e pages (
    sources
    ++ record {
      global_page = length sources + 1;
      text = page.text;
      evidence = e;
      original_page = page.number;
    }
      ∷ [])

unfoldable pub page_sources : List StoredEvidence → List PageSource → List PageSource
unfolding add_pages
page_sources [] sources = sources
page_sources (e ∷ es) sources = page_sources es (add_pages e (pages_in e.safe_document) sources)

-- page_sources.get(page)
unfoldable pub source_at : ℕ → List PageSource → Option PageSource
source_at page [] = none
source_at page (s ∷ ss) = if s.global_page == page then some s else source_at page ss

unfoldable pub combined_document : String → List PageSource → ParsedDocument
combined_document case_id sources = record {
  filename = str_append "consumer_case_" (str_append case_id "_evidence.pdf");
  pages = global_pages sources;
  language = "pt";
  extraction_method = native_text;
  ocr_applied = false;
  warnings = [];
}
  where
    global_pages : List PageSource → List DocumentPage
    global_pages [] = []
    global_pages (s ∷ ss) = record { number = s.global_page; text = s.text } ∷ global_pages ss

unfoldable pub combined_evidence : String → List StoredEvidence → ParsedDocument × List PageSource
unfolding combined_document page_sources accepted_documents
combined_evidence case_id documents =
    let sources = page_sources (accepted_documents documents) [] in
    (combined_document case_id sources, sources)
