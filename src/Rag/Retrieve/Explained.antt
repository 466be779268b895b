-- ===== src/Rag/Retrieve/Explained.antt =====
-- Where the results and the errors of a batch of retrievals come from: app/rag/pipeline.py.
use give_exit.Prelude.{
  ℕ, ◌*◌, ◌≡◌, ◌⊎◌, refl, inl, inr, String, Bool, true, false, ◌&&◌, ◌||◌, Option, none, some, List,
  [], ◌∷◌, map, length, take, if◌then◌else◌, Option-cases, All,
}
use give_exit.Prelude.Score.{Score}
use give_exit.Rag.{RetrievedChunk, dense_channel, lexical_channel}
use give_exit.Rag.Fusion.{Result, ok, err, reciprocal_rank_fusion}
use give_exit.Rag.Tiers.{ranked_in, within_agreement_tiers}
use give_exit.Rag.Retrieve.{
  Attempt, returned, raised, RetrievalMode, dense, hybrid, is_hybrid, is_given, Embedding, embedded,
  unavailable, embedding_raised, Pipeline, batch_failed, k_not_positive, lexical_store_required,
  vectors_do_not_match, Outcome, retrieved, refused, TimedResult, batch_traces, first_error,
  raise_or, results_or_raise,
}
use give_exit.Rag.Retrieve.Traces.{traced_ids, ids, batch_traces-ids, batch_traces-errors}

module _ {Metadata N : Type 0} where
  -- The error of the first query that failed.
  abbrev pub IsFirst : String → List (TimedResult Metadata N) → Type 0
  IsFirst x [] = ⊥
  IsFirst x ((items, none) ∷ ts) = IsFirst x ts
  IsFirst x ((items, some y) ∷ ts) = y ≡ x

  -- The results are those of searches that were all fine, or the error is the first one of
  -- theirs and every trace has the chunks and the error of its search.
  abbrev pub IsExplained : (List (TimedResult Metadata N) → Type 0) → Outcome Metadata N → Type 0
  IsExplained P (retrieved rs ts) =
      (timed : List (TimedResult Metadata N)) × P timed
      × (rs ≡ map (λ t. t.0) timed)
      × All (λ t. t.1 ≡ none) timed
  IsExplained P (refused (batch_failed x ts)) =
      (timed : List (TimedResult Metadata N)) × P timed
      × IsFirst x timed
      × (map (λ t. t.error) ts ≡ map (λ t. t.1) timed)
      × (map traced_ids ts ≡ map ids (map (λ t. t.0) timed))
  IsExplained P (refused k_not_positive) = Unit
  IsExplained P (refused lexical_store_required) = Unit
  IsExplained P (refused vectors_do_not_match) = Unit

  first_error-none :
      (ts : List (TimedResult Metadata N)) → first_error ts ≡ none → All (λ t. t.1 ≡ none) ts
  unfolding first_error
  first_error-none [] h = tt
  first_error-none ((items, none) ∷ ts) h = (refl, first_error-none ts h)
  first_error-none ((items, some x) ∷ ts) h = cc

  first_error-some :
      (x : String) (ts : List (TimedResult Metadata N)) → first_error ts ≡ some x → IsFirst x ts
  unfolding first_error
  first_error-some x [] h = cc
  first_error-some x ((items, none) ∷ ts) h = first_error-some x ts h
  first_error-some x ((items, some y) ∷ ts) h = cc

  pub results_or_raise-IsExplained :
      (P : List (TimedResult Metadata N) → Type 0) (batch_id : String) (mode : RetrievalMode)
      (name : String) (degraded : Option String) (qs : List String)
      (ts : List (TimedResult Metadata N))
      → length qs ≡ length ts
      → P ts
      → IsExplained P (results_or_raise ts (batch_traces batch_id mode name degraded 0 qs ts))
  unfolding results_or_raise raise_or
  results_or_raise-IsExplained P batch_id mode name degraded qs ts e h =
      elim (Option-cases (first_error ts)) [
        | inl fine ↦ rw fine (ts, h, refl, first_error-none ts fine)
        | inr (x, failed) ↦ rw failed (
          ts,
          h,
          first_error-some x ts failed,
          batch_traces-errors batch_id mode name degraded 0 qs ts e,
          batch_traces-ids batch_id mode name degraded 0 qs ts e,
        )
      ]

module _ {Metadata N V : Type 0} ⦃s : Score N⦄ (p : Pipeline Metadata N V) where
  -- The candidates of a query, cut to the limit behind the reranker, or the reranker's error.
  abbrev pub IsRanked :
      ℕ → String → List (RetrievedChunk Metadata N) → TimedResult Metadata N → Type 0
  IsRanked k q items (results, none) =
      ((p.reranker ≡ none) × (results ≡ take k items))
      ⊎ ((rerank : String
            → List (RetrievedChunk Metadata N)
            → ℕ
            → Attempt (List (RetrievedChunk Metadata N)))
          × (p.reranker ≡ some rerank)
          × ((out : List (RetrievedChunk Metadata N)) × (rerank q items (length items)
                ≡ returned out)
              × (results ≡ take k (within_agreement_tiers out items))))
  IsRanked k q items (results, some x) =
      (results ≡ [])
      × ((rerank : String
            → List (RetrievedChunk Metadata N)
            → ℕ
            → Attempt (List (RetrievedChunk Metadata N)))
          × (p.reranker ≡ some rerank)
          × (rerank q items (length items) ≡ raised x))

  -- What a search comes to when `call` is its only channel, named `channel`.
  abbrev pub IsOfOne :
      ℕ
      → String
      → String
      → Attempt (List (RetrievedChunk Metadata N))
      → TimedResult Metadata N
      → Type 0
  IsOfOne k q channel (returned items) t = IsRanked k q (ranked_in channel 1 items) t
  IsOfOne k q channel (raised x) t = t ≡ ([], some x)

  -- With both channels: their fusion, or the error of one of them or of the fusion.
  abbrev pub fusion :
      ℕ
      → List (RetrievedChunk Metadata N)
      → List (RetrievedChunk Metadata N)
      → Result (List (RetrievedChunk Metadata N))
  fusion k xs ys =
      reciprocal_rank_fusion p.default_names (xs ∷ ys ∷ []) k p.rrf_constant
        (some (p.dense_weight ∷ p.lexical_weight ∷ []))
        (some (dense_channel ∷ lexical_channel ∷ []))

  abbrev pub IsOfFusion :
      ℕ → String → Result (List (RetrievedChunk Metadata N)) → TimedResult Metadata N → Type 0
  IsOfFusion k q (ok items) t = IsRanked k q items t
  IsOfFusion k q (err e) t = t ≡ ([], some p.fusion_error)

  abbrev pub IsOfBoth :
      ℕ
      → ℕ
      → String
      → Attempt (List (RetrievedChunk Metadata N))
      → Attempt (List (RetrievedChunk Metadata N))
      → TimedResult Metadata N
      → Type 0
  IsOfBoth k depth q (returned xs) (returned ys) t = IsOfFusion k q (fusion depth xs ys) t
  IsOfBoth k depth q (returned xs) (raised x) t = t ≡ ([], some x)
  IsOfBoth k depth q (raised x) ys t = t ≡ ([], some x)

  abbrev pub Lexical : Type 0
  Lexical = String → String → ℕ → Attempt (List (RetrievedChunk Metadata N))

  -- How many candidates a channel gives.
  abbrev pub depth_of : ℕ → RetrievalMode → ℕ
  depth_of k mode = if is_hybrid mode || is_given p.reranker then k * p.candidate_multiplier else k

  module _ (lexical : Lexical) (doc_id : String) (k depth : ℕ) where
    -- One query with its vector, in this document.
    abbrev pub IsOfSearch : RetrievalMode → String → V → TimedResult Metadata N → Type 0
    IsOfSearch dense q v t = IsOfOne k q dense_channel (p.query v doc_id depth) t
    IsOfSearch hybrid q v t = IsOfBoth k depth q (p.query v doc_id depth) (lexical q doc_id depth) t

    abbrev pub EachSearched :
        RetrievalMode → List String → List V → List (TimedResult Metadata N) → Type 0
    EachSearched mode [] vs ts = ts ≡ []
    EachSearched mode (q ∷ qs) [] ts = ⊥
    EachSearched mode (q ∷ qs) (v ∷ vs) [] = ⊥
    EachSearched mode (q ∷ qs) (v ∷ vs) (t ∷ ts) =
        IsOfSearch mode q v t × EachSearched mode qs vs ts

    abbrev pub EachLexical : List String → List (TimedResult Metadata N) → Type 0
    EachLexical [] ts = ts ≡ []
    EachLexical (q ∷ qs) [] = ⊥
    EachLexical (q ∷ qs) (t ∷ ts) =
        IsOfOne k q lexical_channel (lexical q doc_id depth) t × EachLexical qs ts

    -- No query was searched.
    abbrev pub EachFailed : String → List String → List (TimedResult Metadata N) → Type 0
    EachFailed x [] ts = ts ≡ []
    EachFailed x (q ∷ qs) [] = ⊥
    EachFailed x (q ∷ qs) (t ∷ ts) = (t ≡ ([], some x)) × EachFailed x qs ts

    -- Without the embedding, the lexical channel alone where that is switched on.
    abbrev pub IsDegraded : Bool → String → List String → List (TimedResult Metadata N) → Type 0
    IsDegraded true x qs ts = EachLexical qs ts
    IsDegraded false x qs ts = EachFailed x qs ts

    abbrev pub IsOfBatch :
        RetrievalMode → List String → Embedding V → List (TimedResult Metadata N) → Type 0
    IsOfBatch mode qs (embedded vs) ts = EachSearched mode qs vs ts
    IsOfBatch mode qs (unavailable x) ts =
        IsDegraded (is_hybrid mode && p.embedding_lexical_fallback) x qs ts
    IsOfBatch mode qs (embedding_raised x) ts = EachFailed x qs ts
