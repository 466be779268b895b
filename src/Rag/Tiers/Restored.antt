-- ===== src/Rag/Tiers/Restored.antt =====
-- The reranked order inside the tiers that the candidates had: `_within_agreement_tiers`,
-- app/rag/pipeline.py.
use give_exit.Prelude.{
  ℕ, ◌≡◌, ◌≤◌, ◌⊎◌, refl, ap, ◌∙◌, inl, inr, String, Bool, true, false, Option, some, List, [], ◌∷◌,
  map, ◌==◌, arith, length, filter, str_eq, if◌then◌else◌, All, All-map, Bool-cases, leb→le,
}
use give_exit.Prelude.Dict.{Dict, lookup, insert, lookup-insert}
use give_exit.Prelude.Sorting.{IsSorted, sort-IsSorted, filter-sort_key, All-sort}
use give_exit.Rag.{Chunk, RetrievedChunk}
use give_exit.Rag.Tiers.{or_no_ranks, ranks_by_id, restore, tier, tier_leb, within_agreement_tiers}

or_no_ranks-if :
    (b : Bool) (x : Dict ℕ) (o : Option (Dict ℕ))
    → or_no_ranks (if b then some x else o) ≡ (if b then x else or_no_ranks o)
or_no_ranks-if true x o = refl
or_no_ranks-if false x o = refl

module _ {Metadata N : Type 0} where
  -- The channel ranks of the last candidate with this id.
  abbrev pub last_ranks : String → List (RetrievedChunk Metadata N) → Dict ℕ → Dict ℕ
  last_ranks id [] found = found
  last_ranks id (c ∷ cs) found =
      last_ranks id cs (if str_eq c.chunk.chunk_id id then c.channel_ranks else found)

  tier_leb_total : (a b : RetrievedChunk Metadata N) → (tier_leb a b ≡ true) ⊎ (tier_leb b a ≡ true)
  unfolding tier_leb
  tier_leb_total a b = ground arith

  tier_leb_trans :
      (a b c : RetrievedChunk Metadata N)
      → tier_leb a b ≡ true
      → tier_leb b c ≡ true
      → tier_leb a c ≡ true
  unfolding tier_leb
  tier_leb_trans a b c h k = ground arith

  tier_leb_self :
      (t : ℕ) (a b : RetrievedChunk Metadata N)
      → (tier a == t) ≡ true
      → (tier b == t) ≡ true
      → tier_leb a b ≡ true
  unfolding tier_leb
  tier_leb_self t a b h k = ground arith

  -- No item stands before one of more channels.
  abbrev pub IsFalling : List (RetrievedChunk Metadata N) → Type 0
  IsFalling [] = Unit
  IsFalling (x ∷ xs) = All (λ y. tier y ≤ tier x) xs × IsFalling xs

  IsSorted-IsFalling : (xs : List (RetrievedChunk Metadata N)) → IsSorted tier_leb xs → IsFalling xs
  unfolding tier_leb
  IsSorted-IsFalling [] h = tt
  IsSorted-IsFalling (x ∷ xs) h =
      (All-map _ _ xs (λ y k. leb→le (tier y) (tier x) k) h.0, IsSorted-IsFalling xs h.1)

  lookup-ranks_by_id :
      (id : String) (cs : List (RetrievedChunk Metadata N)) (d : Dict (Dict ℕ))
      → or_no_ranks (lookup id (ranks_by_id cs d)) ≡ last_ranks id cs (or_no_ranks (lookup id d))
  unfolding ranks_by_id
  lookup-ranks_by_id id [] d = refl
  lookup-ranks_by_id id (c ∷ cs) d =
      lookup-ranks_by_id id cs (insert c.chunk.chunk_id c.channel_ranks d)
      ∙ ap (λ o. last_ranks id cs (or_no_ranks o))
          (lookup-insert c.chunk.chunk_id id c.channel_ranks d)
      ∙ ap (λ x. last_ranks id cs x)
          (or_no_ranks-if (str_eq c.chunk.chunk_id id) c.channel_ranks (lookup id d))

  module _ (candidates : List (RetrievedChunk Metadata N)) where
    restored-ranks :
        (i : RetrievedChunk Metadata N)
        → or_no_ranks (lookup i.chunk.chunk_id (ranks_by_id candidates []))
          ≡ last_ranks i.chunk.chunk_id candidates []
    unfolding lookup
    restored-ranks i = lookup-ranks_by_id i.chunk.chunk_id candidates []

    -- The item has the channel ranks of the candidate with its id.
    abbrev pub IsRestored : RetrievedChunk Metadata N → Type 0
    IsRestored i = i.channel_ranks ≡ last_ranks i.chunk.chunk_id candidates []

    All-IsRestored :
        (is : List (RetrievedChunk Metadata N))
        → All IsRestored (map (restore (ranks_by_id candidates [])) is)
    unfolding restore
    All-IsRestored [] = tt
    All-IsRestored (i ∷ is) = (restored-ranks i, All-IsRestored is)

    -- What the reranker gave: the chunk and its score.
    abbrev pub scored : List (RetrievedChunk Metadata N) → List (Chunk Metadata × N)
    scored = map (λ i. (i.chunk, i.score))

    -- How many channels returned the chunk of a reranked item.
    abbrev pub channel_count : RetrievedChunk Metadata N → ℕ
    channel_count i = length (last_ranks i.chunk.chunk_id candidates [])

    filter-restored :
        (t : ℕ) (is : List (RetrievedChunk Metadata N))
        → scored (filter (λ i. tier i == t) (map (restore (ranks_by_id candidates [])) is))
          ≡ scored (filter (λ i. channel_count i == t) is)
    unfolding restore
    filter-restored t [] = refl
    filter-restored t (i ∷ is) =
        let same = restored-ranks i in
        let rest = filter-restored t is in
        elim (Bool-cases (channel_count i == t)) [
          | inl b ↦ rw (same, b) (ap (λ xs. (i.chunk, i.score) ∷ xs) rest)
          | inr b ↦ rw (same, b) rest
        ]

-- The result is ordered by falling number of channels; every item has the channel ranks that the
-- last candidate with its id had; and for every number of channels the items of so many stand in
-- the reranker's order with the reranker's scores, none lost and none added.
pub within_agreement_tiers_lem :
    {Metadata N : Type 0} (reranked candidates : List (RetrievedChunk Metadata N))
    → IsFalling (within_agreement_tiers reranked candidates)
      × All (IsRestored candidates) (within_agreement_tiers reranked candidates)
      × ((t : ℕ)
          → scored candidates
              (filter (λ i. tier i == t) (within_agreement_tiers reranked candidates))
            ≡ scored candidates (filter (λ i. channel_count candidates i == t) reranked))
unfolding within_agreement_tiers
within_agreement_tiers_lem reranked candidates =
    let restored = map (restore (ranks_by_id candidates [])) reranked in
    (
      IsSorted-IsFalling _ (sort-IsSorted tier_leb tier_leb_total tier_leb_trans restored),
      All-sort tier_leb (IsRestored candidates) restored (All-IsRestored candidates reranked),
      λ t.
          ap (scored candidates)
            (filter-sort_key tier_leb (λ i. tier i == t) (tier_leb_self t) restored)
          ∙ filter-restored candidates t reranked,
    )
