-- ===== src/Grounds.antt =====
-- Which provisions a notice cites: app/consumer/ground_selection.py. The corpus
-- (app/consumer/legal_corpus.py) is an interface. Its lookups raise for a chunk of another
-- release or of several pages; `as_chunks` gives each chunk the one page of its provision, and
-- the interface is for those.
pub mod Merge
pub mod Article42
pub mod Select
pub mod Founded
pub mod Laws
use give_exit.Prelude.{ℕ, String, Bool, Option}
use give_exit.Rag.{Chunk, RetrievedChunk}
use give_exit.Policy.{LegalProvision, ProvisionStatus}
use give_exit.Settlement.{Decimal}

-- `LegalTextUnit`, as far as the selection reads it
pub record LegalTextUnit : Type 0 where
  pub unit_id : String
  pub status : ProvisionStatus

-- `LegalCorpus`, the lookups of a chunk
pub record LegalCorpus (Metadata N Authority : Type 0) : Type 0 where
  pub provision_for_chunk : Chunk Metadata → LegalProvision
  pub unit_for_chunk : Chunk Metadata → Option LegalTextUnit
  pub authority_for_chunk : RetrievedChunk Metadata N → ℕ → Authority

-- `ConsumerCaseFacts`, the fields that the selection reads
pub record ConsumerCaseFacts : Type 0 where
  pub complaint_summary : Option String
  pub desired_resolution : Option String
  pub article_42_double_repayment_requested : Bool
  pub improper_payment_amount : Option Decimal

-- A hit with its place in the merged ranking.
abbrev pub Ranked : Type 0 → Type 0 → Type 0
Ranked Metadata N = ℕ × RetrievedChunk Metadata N

-- The tuple of `_provision_candidates`.
pub record Candidate (Metadata N : Type 0) : Type 0 where
  pub best_rank : ℕ
  pub best_score : N
  pub rank : ℕ
  pub result : RetrievedChunk Metadata N

-- `LegalGround`; `application_to_facts` holds the label, the only part of the sentence that varies.
pub record LegalGround (Authority : Type 0) : Type 0 where
  pub authority : Authority
  pub application_to_facts : String
