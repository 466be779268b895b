-- ===== src/Notice/Citations.antt =====
-- `_evidence_references` and `_require_grounding` of app/consumer/service.py. The quote of a
-- chunk and its test against the facts (app/consumer/evidence_support.py) are an interface.
pub mod Truthful
use give_exit.Prelude.{
  ℕ, ◌+◌, String, Bool, true, false, not, ◌||◌, ◌&&◌, Option, none, some, List, [], ◌∷◌, any, leb,
  ◌==◌, str_eq, Text, if◌then◌else◌,
}
use give_exit.Prelude.Score.{Score}
use give_exit.Rag.{Chunk, RetrievedChunk}
use give_exit.Policy.{RetrievalTrace, alias_support_cap}
use give_exit.Policy.Support.{strongly_supported_chunk_ids}
use give_exit.Grounds.Merge.{merge_results}
use give_exit.Evidence.Defs.{StoredEvidence}
use give_exit.Notice.Combined.{PageSource, source_at}

pub record EvidenceCitation : Type 0 where
  pub evidence_id : String
  pub filename : String
  pub page : ℕ
  pub quote : String
  pub chunk_id : String
  pub content_sha256 : String

abbrev pub evidence_agreement_max_rank : ℕ
evidence_agreement_max_rank = 13

abbrev pub max_citations : ℕ
max_citations = 8

pub record Quoting (Facts : Type 0) : Type 0 where
  pub supporting_quote : String → Facts → String
  pub supports_facts : String → Facts → Bool
  pub sha256_hex : String → String

abbrev pub is_in : String → List String → Bool
is_in id ids = any (λ i. str_eq i id) ids

abbrev pub is_nothing {ℓ} : {A : Type ℓ} → List A → Bool
is_nothing [] = true
is_nothing (x ∷ xs) = false

-- What the loop goes on to: the same count without a citation, one more with it, or the end.
unfoldable pub then_cite :
    ℕ
    → Option EvidenceCitation
    → List EvidenceCitation
    → List EvidenceCitation
    → List EvidenceCitation
then_cite n none same more = same
then_cite n (some c) same more = c ∷ (if leb max_citations (n + 1) then [] else more)

module _ {Facts Metadata : Type 0} (q : Quoting Facts) (facts : Facts) where
  -- The rest of the loop body, on the page's source.
  unfoldable pub cite_from : Chunk Metadata → Option PageSource → Option EvidenceCitation
  cite_from chunk none = none
  cite_from chunk (some source) =
      let quote = q.supporting_quote chunk.text facts in
      if str_eq quote "" || not (q.supports_facts quote facts)
      then none
      else some (record {
        evidence_id = source.evidence.public.evidence_id;
        filename = source.evidence.public.filename;
        page = source.original_page;
        quote = quote;
        chunk_id = chunk.chunk_id;
        content_sha256 = q.sha256_hex chunk.text;
      })

  -- A chunk over several pages has no single source and is not cited.
  unfoldable pub cite : List String → List PageSource → Chunk Metadata → Option EvidenceCitation
  unfolding cite_from
  cite supported sources chunk =
      if not (is_in chunk.chunk_id supported)
      then none
      else if not (chunk.page_start == chunk.page_end)
      then none
      else cite_from chunk (source_at chunk.page_start sources)

  module _ {N : Type 0} where
    -- The loop, which has `n` citations so far; the eighth ends it.
    unfoldable pub cite_all :
        List String → List PageSource → ℕ → List (RetrievedChunk Metadata N) → List EvidenceCitation
    unfolding cite
    cite_all supported sources n [] = []
    cite_all supported sources n (r ∷ rs) =
        then_cite n (cite supported sources r.chunk) (cite_all supported sources n rs)
          (cite_all supported sources (n + 1) rs)

    -- `_evidence_references`
    unfoldable pub evidence_references :
        ⦃s : Score N⦄
        → (Text → Text)
        → List (List (RetrievedChunk Metadata N))
        → List PageSource
        → List (RetrievalTrace N)
        → List EvidenceCitation
    unfolding cite_all
    evidence_references ⦃s⦄ casefold result_sets sources traces =
        let supported =
          strongly_supported_chunk_ids casefold evidence_agreement_max_rank alias_support_cap
            traces in
        if is_nothing supported
        then []
        else cite_all supported sources 0 (merge_results result_sets)

pub data NoticeGenerationMode : Type 0 where
  case_mode prompt_mode : NoticeGenerationMode

abbrev pub is_case_mode : NoticeGenerationMode → Bool
is_case_mode case_mode = true
is_case_mode prompt_mode = false

-- `_require_grounding`: whether it lets the notice pass.
unfoldable pub is_grounded : {Ground : Type 0} → List Ground → List EvidenceCitation → Bool → Bool
is_grounded grounds references require_evidence =
    not (is_nothing grounds) && (not (is_nothing references) || not require_evidence)
