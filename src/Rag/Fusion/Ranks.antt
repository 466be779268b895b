-- ===== src/Rag/Fusion/Ranks.antt =====
-- The ranks that a fused chunk records are its positions in the rankings: the support gate reads
-- channel agreement from them.
use give_exit.Prelude.{
  ℕ, ◌+◌, ◌≡◌, refl, String, Option, none, some, List, [], ◌∷◌, str_eq, eq_iff, if◌then◌else◌,
  arith,
}
use give_exit.Prelude.Dict.{Dict, lookup, lookup-insert}
use give_exit.Prelude.DictLaws.{has-lookup-is_some}
use give_exit.Prelude.Score.{Score}
use give_exit.Rag.{RetrievedChunk}
use give_exit.Rag.Fusion.{Channel, Fused, merge_rank, fuse_item, fuse_ranking, fuse_all}

-- The first of two answers.
abbrev pub or_else : Option ℕ → Option ℕ → Option ℕ
or_else none b = b
or_else (some a) b = some a

or_else_assoc : (a b c : Option ℕ) → or_else (or_else a b) c ≡ or_else a (or_else b c)
or_else_assoc none b c = refl
or_else_assoc (some a) b c = refl

module _ {Metadata N : Type 0} ⦃s : Score N⦄ where
  -- The position of a chunk in a ranking that starts at `rank`.
  abbrev pub first_rank : String → ℕ → List (RetrievedChunk Metadata N) → Option ℕ
  first_rank id rank [] = none
  first_rank id rank (i ∷ is) =
      let rest = first_rank id (rank + 1) is in
      if str_eq i.chunk.chunk_id id then some rank else rest

  -- Its position in the first channel of that name which returned it.
  abbrev pub rank_in_channel : String → String → List (Channel Metadata N) → Option ℕ
  rank_in_channel id name [] = none
  rank_in_channel id name (c ∷ cs) =
      let rest = rank_in_channel id name cs in
      if str_eq c.name name then or_else (first_rank id 1 c.ranking) rest else rest

  abbrev ranks_of : Option (Fused Metadata N) → Dict ℕ
  ranks_of none = []
  ranks_of (some f) = f.channel_ranks

  -- The recorded rank of a chunk in a channel.
  abbrev pub rank_at : String → String → Dict (Fused Metadata N) → Option ℕ
  rank_at id name d = lookup name (ranks_of (lookup id d))

  merge_rank-ranks :
      (w : N) (c : ℕ) (name j : String) (rank : ℕ) (item : RetrievedChunk Metadata N)
      (o : Option (Fused Metadata N))
      → lookup j (merge_rank w c name rank item o).channel_ranks ≡ (
          if str_eq name j
          then or_else (lookup j (ranks_of o)) (some rank)
          else lookup j (ranks_of o))
  unfolding merge_rank lookup
  merge_rank-ranks w c name j rank item none = ground (arith, eq_iff name j)
  merge_rank-ranks w c name j rank item (some f) = ground (
    arith,
    eq_iff name j,
    lookup-insert name j rank f.channel_ranks,
    has-lookup-is_some name f.channel_ranks,
  )

  rank_at-fuse_item :
      (w : N) (c : ℕ) (name : String) (rank : ℕ) (item : RetrievedChunk Metadata N)
      (d : Dict (Fused Metadata N)) (id j : String)
      → rank_at id j (fuse_item w c name rank item d) ≡ (
          if str_eq item.chunk.chunk_id id
          then if str_eq name j then or_else (rank_at id j d) (some rank) else rank_at id j d
          else rank_at id j d)
  unfolding fuse_item
  rank_at-fuse_item w c name rank item d id j = ground (
    arith,
    eq_iff item.chunk.chunk_id id,
    lookup-insert item.chunk.chunk_id id
        (merge_rank w c name rank item (lookup item.chunk.chunk_id d)) d,
    merge_rank-ranks w c name j rank item (lookup item.chunk.chunk_id d),
  )

  rank_at-fuse_ranking :
      (w : N) (c : ℕ) (name : String) (rank : ℕ) (is : List (RetrievedChunk Metadata N))
      (d : Dict (Fused Metadata N)) (id j : String)
      → rank_at id j (fuse_ranking w c name rank is d) ≡ (
          if str_eq name j
          then or_else (rank_at id j d) (first_rank id rank is)
          else rank_at id j d)
  unfolding fuse_ranking
  rank_at-fuse_ranking w c name rank [] d id j = ground arith
  rank_at-fuse_ranking w c name rank (i ∷ is) d id j = ground (
    arith,
    rank_at-fuse_ranking w c name (rank + 1) is (fuse_item w c name rank i d) id j,
    rank_at-fuse_item w c name rank i d id j,
  )

  -- After fusion every chunk records, for each channel name, exactly its position in the first
  -- ranking of that name that returned it, and no rank in a channel that did not.
  pub rank_at-fuse_all :
      (c : ℕ) (cs : List (Channel Metadata N)) (d : Dict (Fused Metadata N)) (id j : String)
      → rank_at id j (fuse_all c cs d) ≡ or_else (rank_at id j d) (rank_in_channel id j cs)
  unfolding fuse_all
  rank_at-fuse_all c [] d id j = ground arith
  rank_at-fuse_all c (ch ∷ cs) d id j = ground (
    arith,
    rank_at-fuse_all c cs (fuse_ranking ch.weight c ch.name 1 ch.ranking d) id j,
    rank_at-fuse_ranking ch.weight c ch.name 1 ch.ranking d id j,
    or_else_assoc (rank_at id j d) (first_rank id 1 ch.ranking) (rank_in_channel id j cs),
  )
