-- ===== src/Rag/Fusion.antt =====
-- `reciprocal_rank_fusion` of app/rag/pipeline.py.
pub mod Ranks
pub mod Order
use give_exit.Prelude.{
  ℕ, ◌+◌, String, Bool, true, false, not, ◌||◌, ◌&&◌, Option, none, some, List, [], ◌∷◌, map, ltb,
  ◌==◌, length, take, any, all, replicate, str_eq, str_leb, if◌then◌else◌,
}
use give_exit.Prelude.Dict.{Dict, lookup, has, insert}
use give_exit.Prelude.Sorting.{sort}
use give_exit.Prelude.Score.{Score}
use give_exit.Rag.{Chunk, RetrievedChunk}

pub data FusionError : Type 0 where
  constant_not_positive one_weight_per_ranking weights_not_positive one_name_per_ranking :
      FusionError

pub data Result {ℓ} (A : Type ℓ) : Type ℓ where
  ok : A → Result A
  err : FusionError → Result A

-- len(set(names)) != len(names)
unfoldable pub has_duplicate : List String → Bool
has_duplicate [] = false
has_duplicate (n ∷ ns) = any (λ m. str_eq m n) ns || has_duplicate ns

-- `weights or default`: an absent or an empty list gives the default.
unfoldable pub or_default {ℓ} : {A : Type ℓ} → Option (List A) → List A → List A
or_default none d = d
or_default (some []) d = d
or_default (some (x ∷ xs)) d = x ∷ xs

-- One ranking with its weight and the name of its channel.
pub record Channel (Metadata N : Type 0) : Type 0 where
  pub name : String
  pub weight : N
  pub ranking : List (RetrievedChunk Metadata N)

-- The three maps `chunks`, `fused_scores` and `channel_ranks` have the same keys, in the same
-- order: here they are one.
pub record Fused (Metadata N : Type 0) : Type 0 where
  pub chunk : Chunk Metadata
  pub score : N
  pub channel_ranks : Dict ℕ

-- The order of the key (-score, chunk_id).
unfoldable pub rank_leb :
    {Metadata N : Type 0} ⦃s : Score N⦄
    → RetrievedChunk Metadata N
    → RetrievedChunk Metadata N
    → Bool
rank_leb ⦃s⦄ a b =
    if s.score_leb b.score a.score
    then if s.score_leb a.score b.score then str_leb a.chunk.chunk_id b.chunk.chunk_id else true
    else false

module _ {Metadata N : Type 0} ⦃s : Score N⦄ where
  -- The body of the inner loop, on what the maps hold for the chunk.
  unfoldable pub merge_rank :
      N → ℕ → String → ℕ → RetrievedChunk Metadata N → Option (Fused Metadata N) → Fused Metadata N
  merge_rank weight constant name rank item none = record {
    chunk = item.chunk;
    score = s.add s.zero_score (s.share weight (constant + rank));
    channel_ranks = (name, rank) ∷ [];
  }
  merge_rank weight constant name rank item (some f) =
      if has name f.channel_ranks then f else record {
        chunk = item.chunk;
        score = s.add f.score (s.share weight (constant + rank));
        channel_ranks = insert name rank f.channel_ranks;
      }

  unfoldable pub fuse_item :
      N
      → ℕ
      → String
      → ℕ
      → RetrievedChunk Metadata N
      → Dict (Fused Metadata N)
      → Dict (Fused Metadata N)
  unfolding merge_rank
  fuse_item weight constant name rank item d =
      let id = item.chunk.chunk_id in
      insert id (merge_rank weight constant name rank item (lookup id d)) d

  -- for rank, item in enumerate(ranking, start=rank)
  unfoldable pub fuse_ranking :
      N
      → ℕ
      → String
      → ℕ
      → List (RetrievedChunk Metadata N)
      → Dict (Fused Metadata N)
      → Dict (Fused Metadata N)
  fuse_ranking weight constant name rank [] d = d
  fuse_ranking weight constant name rank (i ∷ is) d =
      fuse_ranking weight constant name (rank + 1) is (fuse_item weight constant name rank i d)

  unfoldable pub fuse_all :
      ℕ → List (Channel Metadata N) → Dict (Fused Metadata N) → Dict (Fused Metadata N)
  fuse_all constant [] d = d
  fuse_all constant (c ∷ cs) d =
      fuse_all constant cs (fuse_ranking c.weight constant c.name 1 c.ranking d)

  unfoldable pub retrieved : Fused Metadata N → RetrievedChunk Metadata N
  retrieved f = record { chunk = f.chunk; score = f.score; channel_ranks = f.channel_ranks }

  -- zip(rankings, weights, names)
  unfoldable pub zip_channels :
      List (List (RetrievedChunk Metadata N)) → List N → List String → List (Channel Metadata N)
  zip_channels (r ∷ rs) (w ∷ ws) (n ∷ ns) =
      record { name = n; weight = w; ranking = r } ∷ zip_channels rs ws ns
  zip_channels _ _ _ = []

  unfoldable pub fused_ranking :
      ℕ → ℕ → List (Channel Metadata N) → List (RetrievedChunk Metadata N)
  unfolding retrieved
  fused_ranking k constant cs =
      take k (sort rank_leb (map (λ e. retrieved e.1) (fuse_all constant cs [])))

  -- `default_names n` is [f"ranking-{index}" for index in range(n)].
  unfoldable pub reciprocal_rank_fusion :
      (ℕ → List String)
      → List (List (RetrievedChunk Metadata N))
      → ℕ
      → ℕ
      → Option (List N)
      → Option (List String)
      → Result (List (RetrievedChunk Metadata N))
  unfolding or_default has_duplicate zip_channels
  reciprocal_rank_fusion default_names rankings k constant weights channels =
      let effective_weights = or_default weights (replicate (length rankings) s.one_score) in
      let names = or_default channels (default_names (length rankings)) in
      if ltb k 1
      then ok []
      else if ltb constant 1
      then err constant_not_positive
      else if not (length effective_weights == length rankings)
      then err one_weight_per_ranking
      else if any (λ w. s.score_leb w s.zero_score) effective_weights
      then err weights_not_positive
      else if not (length names == length rankings) || has_duplicate names
      then err one_name_per_ranking
      else ok (fused_ranking k constant (zip_channels rankings effective_weights names))
