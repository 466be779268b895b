-- ===== src/Notice/Citations/Truthful.antt =====
-- What a documentary citation of a notice stands for: `_evidence_references`,
-- app/consumer/service.py.
use give_exit.Prelude.{◌≡◌, String, true, false, Option, none, some, List, str_eq, Any}
use give_exit.Prelude.Score.{Score}
use give_exit.Rag.{Chunk}
use give_exit.Evidence.Defs.{StoredEvidence}
use give_exit.Notice.Combined.{is_given, accepted_documents, PageSource, source_at}
use give_exit.Notice.Citations.{EvidenceCitation, Quoting, is_in}

-- An accepted file of the case.
abbrev pub IsAccepted : List StoredEvidence → StoredEvidence → Type 0
IsAccepted documents e =
    (is_given e.safe_document ≡ true) × Any (λ x. x ≡ e) (accepted_documents documents)

module _ {Facts : Type 0} (Metadata : Type 0) (q : Quoting Facts) (facts : Facts)
    (Retrieved : Chunk Metadata → Type 0) (supported : List String)
    (sources : List PageSource) where
  -- The citation names and hashes a retrieved chunk that the gate supports, that lies on one
  -- page, and whose page came from the file and the page that the citation names; its quote is of
  -- this chunk and supports the facts.
  abbrev pub IsTruthful : EvidenceCitation → Type 0
  IsTruthful c =
      (chunk : Chunk Metadata) × (s : PageSource) × Retrieved chunk
      × (c.chunk_id ≡ chunk.chunk_id)
      × (c.content_sha256 ≡ q.sha256_hex chunk.text)
      × (is_in chunk.chunk_id supported ≡ true)
      × (chunk.page_start ≡ chunk.page_end)
      × (source_at chunk.page_start sources ≡ some s)
      × (c.evidence_id ≡ s.evidence.public.evidence_id)
      × (c.filename ≡ s.evidence.public.filename)
      × (c.page ≡ s.original_page)
      × (c.quote ≡ q.supporting_quote chunk.text facts)
      × (str_eq c.quote "" ≡ false)
      × (q.supports_facts c.quote facts ≡ true)

  abbrev IsTruthfulIf : Option EvidenceCitation → Type 0
  IsTruthfulIf none = Unit
  IsTruthfulIf (some c) = IsTruthful c
