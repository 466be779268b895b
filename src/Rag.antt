-- ===== src/Rag.antt =====
-- The retrieval layer, app/schemas/rag.py and app/rag: what a chunk and a ranked result are.
pub mod Fusion
pub mod Tiers
pub mod Guard
pub mod Lexical
pub mod Memory
pub mod Retrieve
pub mod Boundaries
pub mod Chunker
use give_exit.Prelude.{ℕ, String, Option, List}
use give_exit.Prelude.Dict.{Dict}

-- `Metadata` is the chunk's provenance, which ranking does not read.
pub record Chunk (Metadata : Type 0) : Type 0 where
  pub chunk_id : String
  pub doc_id : String
  pub text : String
  pub section : Option String
  pub page_start : ℕ
  pub page_end : ℕ
  pub metadata : Metadata

-- `N` is the type of scores. A channel that did not return the chunk has no rank.
pub record RetrievedChunk (Metadata N : Type 0) : Type 0 where
  pub chunk : Chunk Metadata
  pub score : N
  pub channel_ranks : Dict ℕ

abbrev pub dense_channel : String
dense_channel = "dense"

abbrev pub lexical_channel : String
lexical_channel = "lexical"
