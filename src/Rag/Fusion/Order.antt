-- ===== src/Rag/Fusion/Order.antt =====
-- The list that fusion returns: its order, its length and the provenance of its ranks.
use give_exit.Prelude.{
  ℕ, ◌+◌, ◌≤◌, ◌≡◌, ◌⊎◌, refl, ◌∙◌, sym, String, true, Option, none, some, List, [], ◌∷◌, map,
  str_leb_total, str_leb_trans, eq_iff, arith, Bool-cases, inl, inr, length, All, All-map, All-take,
  length-take,
}
use give_exit.Prelude.Dict.{Dict, lookup, has}
use give_exit.Prelude.DictLaws.{Distinct, Distinct-insert, All-insert, All-lookup, All-entry}
use give_exit.Prelude.Sorting.{sort, IsSorted, sort-IsSorted, IsSorted-take, All-sort}
use give_exit.Prelude.Score.{Score}
use give_exit.Rag.{RetrievedChunk}
use give_exit.Rag.Fusion.{
  Channel, Fused, merge_rank, fuse_item, fuse_ranking, fuse_all, retrieved, rank_leb, fused_ranking,
}
use give_exit.Rag.Fusion.Ranks.{rank_in_channel, rank_at-fuse_all}

module _ {Metadata N : Type 0} ⦃s : Score N⦄ where
  pub rank_leb_total :
      (a b : RetrievedChunk Metadata N) → (rank_leb a b ≡ true) ⊎ (rank_leb b a ≡ true)
  unfolding rank_leb
  rank_leb_total a b =
      ground (arith, s.total a.score b.score, str_leb_total a.chunk.chunk_id b.chunk.chunk_id)

  pub rank_leb_trans :
      (a b c : RetrievedChunk Metadata N)
      → rank_leb a b ≡ true
      → rank_leb b c ≡ true
      → rank_leb a c ≡ true
  unfolding rank_leb
  rank_leb_trans a b c h k = ground (
    arith,
    s.trans c.score b.score a.score,
    s.trans a.score c.score b.score,
    s.trans b.score a.score c.score,
    s.trans a.score b.score c.score,
    s.trans b.score c.score a.score,
    s.trans c.score a.score b.score,
    str_leb_trans a.chunk.chunk_id b.chunk.chunk_id c.chunk.chunk_id,
  )

  -- Every entry stands under its chunk's id.
  abbrev IsKeyed : Dict (Fused Metadata N) → Type 0
  IsKeyed d = All (λ kv. kv.1.chunk.chunk_id ≡ kv.0) d

  merge_rank-id :
      (w : N) (c : ℕ) (name : String) (rank : ℕ) (item : RetrievedChunk Metadata N)
      (o : Option (Fused Metadata N))
      → ((f : Fused Metadata N) → o ≡ some f → f.chunk.chunk_id ≡ item.chunk.chunk_id)
      → (merge_rank w c name rank item o).chunk.chunk_id ≡ item.chunk.chunk_id
  unfolding merge_rank
  merge_rank-id w c name rank item none h = refl
  merge_rank-id w c name rank item (some f) h = elim (Bool-cases (has name f.channel_ranks)) [
    | inl old ↦ rw old (h f refl)
    | inr new ↦ rw new
  ]

  module _ (w : N) (c : ℕ) (name : String) where
    fuse_item_keeps :
        (rank : ℕ) (item : RetrievedChunk Metadata N) (d : Dict (Fused Metadata N))
        → IsKeyed d × Distinct d
        → IsKeyed (fuse_item w c name rank item d) × Distinct (fuse_item w c name rank item d)
    unfolding fuse_item
    fuse_item_keeps rank item d (keyed, u) =
        let id = item.chunk.chunk_id in
        let same : (merge_rank w c name rank item (lookup id d)).chunk.chunk_id ≡ id =
          merge_rank-id w c name rank item (lookup id d) (λ f e.
            let (j, t, k) = All-lookup (λ kv. kv.1.chunk.chunk_id ≡ kv.0) id d keyed e in
            k ∙ (eq_iff j id).0 t) in
        (
          All-insert (λ kv. kv.1.chunk.chunk_id ≡ kv.0) id _ d
              (λ j t. same ∙ sym ((eq_iff j id).0 t)) keyed,
          Distinct-insert id _ d u,
        )

    fuse_ranking_keeps :
        (rank : ℕ) (is : List (RetrievedChunk Metadata N)) (d : Dict (Fused Metadata N))
        → IsKeyed d × Distinct d
        → IsKeyed (fuse_ranking w c name rank is d) × Distinct (fuse_ranking w c name rank is d)
    unfolding fuse_ranking
    fuse_ranking_keeps rank [] d h = h
    fuse_ranking_keeps rank (i ∷ is) d h =
        fuse_ranking_keeps (rank + 1) is (fuse_item w c name rank i d) (fuse_item_keeps rank i d h)

  fuse_all_keeps :
      (c : ℕ) (cs : List (Channel Metadata N)) (d : Dict (Fused Metadata N))
      → IsKeyed d × Distinct d
      → IsKeyed (fuse_all c cs d) × Distinct (fuse_all c cs d)
  unfolding fuse_all
  fuse_all_keeps c [] d h = h
  fuse_all_keeps c (ch ∷ cs) d h =
      fuse_all_keeps c cs (fuse_ranking ch.weight c ch.name 1 ch.ranking d)
        (fuse_ranking_keeps ch.weight c ch.name 1 ch.ranking d h)

  -- The ranks of this item are its positions in the channels.
  abbrev pub HasTrueRanks : List (Channel Metadata N) → RetrievedChunk Metadata N → Type 0
  HasTrueRanks cs item =
      (name : String) → lookup name item.channel_ranks ≡ rank_in_channel item.chunk.chunk_id name cs

  entry-HasTrueRanks :
      (c : ℕ) (cs : List (Channel Metadata N)) (id : String) (f : Fused Metadata N)
      → lookup id (fuse_all c cs []) ≡ some f
      → f.chunk.chunk_id ≡ id
      → HasTrueRanks cs (retrieved f)
  unfolding retrieved lookup
  entry-HasTrueRanks c cs id f found same name =
      ground (arith, rank_at-fuse_all c cs [] id name, same, found)

  fuse_all-HasTrueRanks :
      (c : ℕ) (cs : List (Channel Metadata N)) (d : Dict (Fused Metadata N))
      → All (λ kv. HasTrueRanks cs (retrieved kv.1)) d
      → All (HasTrueRanks cs) (map (λ e. retrieved e.1) d)
  fuse_all-HasTrueRanks c cs [] h = tt
  fuse_all-HasTrueRanks c cs (e ∷ d) h = (h.0, fuse_all-HasTrueRanks c cs d h.1)

  All-both :
      (P Q : String × Fused Metadata N → Type 0) (d : Dict (Fused Metadata N))
      → All P d
      → All Q d
      → All (λ e. P e × Q e) d
  All-both P Q [] h k = tt
  All-both P Q (e ∷ d) h k = ((h.0, k.0), All-both P Q d h.1 k.1)

  all-HasTrueRanks :
      (c : ℕ) (cs : List (Channel Metadata N))
      → All (HasTrueRanks cs) (map (λ e. retrieved e.1) (fuse_all c cs []))
  all-HasTrueRanks c cs =
      let (keyed, u) = fuse_all_keeps c cs [] (tt, tt) in
      fuse_all-HasTrueRanks c cs (fuse_all c cs []) (
        All-map _ _ (fuse_all c cs []) (λ e h. entry-HasTrueRanks c cs e.0 e.1 h.0 h.1)
          (All-both _ _ (fuse_all c cs []) (All-entry (fuse_all c cs []) u) keyed))

-- A fused list has at most `k` chunks, in the order of falling score with ties broken by chunk
-- id; and each of them carries, for every channel name, its position in the first ranking
-- of that name that returned it, and no rank where none did.
pub fused_ranking_lem :
    {Metadata N : Type 0} (s : Score N) (k constant : ℕ) (cs : List (Channel Metadata N))
    → (length (fused_ranking ⦃s = s⦄ k constant cs) ≤ k)
      × IsSorted (rank_leb ⦃s = s⦄) (fused_ranking ⦃s = s⦄ k constant cs)
      × All (HasTrueRanks ⦃s = s⦄ cs) (fused_ranking ⦃s = s⦄ k constant cs)
unfolding fused_ranking
fused_ranking_lem s k constant cs =
    let merged = map (λ e. retrieved ⦃s = s⦄ e.1) (fuse_all ⦃s = s⦄ constant cs []) in
    (
      omega (arith, length-take k (sort (rank_leb ⦃s = s⦄) merged)),
      IsSorted-take (rank_leb ⦃s = s⦄) k (sort (rank_leb ⦃s = s⦄) merged) (
          sort-IsSorted (rank_leb ⦃s = s⦄) (rank_leb_total ⦃s = s⦄) (rank_leb_trans ⦃s = s⦄)
            merged),
      All-take (HasTrueRanks ⦃s = s⦄ cs) k (sort (rank_leb ⦃s = s⦄) merged) (
          All-sort (rank_leb ⦃s = s⦄) (HasTrueRanks ⦃s = s⦄ cs) merged
            (all-HasTrueRanks ⦃s = s⦄ constant cs)),
    )
