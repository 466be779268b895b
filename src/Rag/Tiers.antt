-- ===== src/Rag/Tiers.antt =====
-- `_within_agreement_tiers` and `_ranked_in` of app/rag/pipeline.py.
pub mod Restored
use give_exit.Prelude.{
  ℕ, ◌+◌, ◌≡◌, ◌⊎◌, String, Bool, true, Option, none, some, List, [], ◌∷◌, map, leb, ◌==◌, arith,
  length, filter,
}
use give_exit.Prelude.Dict.{Dict, lookup, insert}
use give_exit.Prelude.Sorting.{sort}
use give_exit.Rag.{RetrievedChunk}

abbrev pub or_no_ranks : Option (Dict ℕ) → Dict ℕ
or_no_ranks none = []
or_no_ranks (some d) = d

module _ {Metadata N : Type 0} where
  -- item.model_copy(update={"channel_ranks": {channel: rank}}), rank from `rank` on
  unfoldable pub ranked_in :
      String → ℕ → List (RetrievedChunk Metadata N) → List (RetrievedChunk Metadata N)
  ranked_in channel rank [] = []
  ranked_in channel rank (i ∷ is) =
      record i { channel_ranks = (channel, rank) ∷ [] } ∷ ranked_in channel (rank + 1) is

  -- {item.chunk.chunk_id: item.channel_ranks for item in candidates}: the last one wins.
  unfoldable pub ranks_by_id : List (RetrievedChunk Metadata N) → Dict (Dict ℕ) → Dict (Dict ℕ)
  ranks_by_id [] d = d
  ranks_by_id (i ∷ is) d = ranks_by_id is (insert i.chunk.chunk_id i.channel_ranks d)

  -- The reranked item with the channel ranks that the candidates had for its id.
  unfoldable pub restore : Dict (Dict ℕ) → RetrievedChunk Metadata N → RetrievedChunk Metadata N
  restore ranks i = record i { channel_ranks = or_no_ranks (lookup i.chunk.chunk_id ranks) }

  -- How many channels returned the chunk.
  abbrev pub tier : RetrievedChunk Metadata N → ℕ
  tier i = length i.channel_ranks

  -- The order of the key -len(item.channel_ranks).
  unfoldable pub tier_leb : RetrievedChunk Metadata N → RetrievedChunk Metadata N → Bool
  tier_leb a b = leb (tier b) (tier a)

  unfoldable pub within_agreement_tiers :
      (reranked candidates : List (RetrievedChunk Metadata N)) → List (RetrievedChunk Metadata N)
  unfolding ranks_by_id
  within_agreement_tiers reranked candidates =
      sort tier_leb (map (restore (ranks_by_id candidates [])) reranked)
