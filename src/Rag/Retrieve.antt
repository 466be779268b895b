-- ===== src/Rag/Retrieve.antt =====
-- `retrieve_many_with_traces` of `RagPipeline`, app/rag/pipeline.py, with its lexical fallback and
-- its audit traces. The vector store, the embedding of the queries and the reranker are an
-- interface; each call returns or raises. Durations and the model names of a trace are left out.
pub mod Traces
pub mod Explained
pub mod Searched
pub mod Audited
use give_exit.Prelude.{
  ℕ, ◌+◌, ◌*◌, String, Bool, true, false, not, ◌||◌, ◌&&◌, Option, none, some, List, [], ◌∷◌, map,
  ltb, ◌==◌, length, take, if◌then◌else◌,
}
use give_exit.Prelude.Score.{Score}
use give_exit.Rag.{RetrievedChunk, dense_channel, lexical_channel}
use give_exit.Rag.Fusion.{Result, ok, err, reciprocal_rank_fusion}
use give_exit.Rag.Tiers.{ranked_in, within_agreement_tiers}
use give_exit.Policy.{ItemTrace, RetrievalTrace}

-- A call that returned, or the text of the error that it raised.
pub data Attempt {ℓ} (A : Type ℓ) : Type ℓ where
  returned : A → Attempt A
  raised : String → Attempt A

pub data RetrievalMode : Type 0 where
  dense hybrid : RetrievalMode

abbrev pub is_hybrid : RetrievalMode → Bool
is_hybrid dense = false
is_hybrid hybrid = true

abbrev pub mode_value : RetrievalMode → String
mode_value dense = "dense"
mode_value hybrid = "hybrid"

abbrev pub is_given {ℓ} : {A : Type ℓ} → Option A → Bool
is_given none = false
is_given (some a) = true

-- The query embedding guard: its vectors, or `EmbeddingUnavailableError`, or another error.
pub data Embedding (V : Type 0) : Type 0 where
  embedded : List V → Embedding V
  unavailable embedding_raised : String → Embedding V

pub record Pipeline (Metadata N V : Type 0) : Type 0 where
  pub query : V → String → ℕ → Attempt (List (RetrievedChunk Metadata N))
  -- None for a store that is not a `LexicalVectorStore`.
  pub lexical_query : Option (String → String → ℕ → Attempt (List (RetrievedChunk Metadata N)))
  pub reranker :
      Option
        (String → List (RetrievedChunk Metadata N) → ℕ → Attempt (List (RetrievedChunk Metadata N)))
  pub default_k : ℕ
  pub retrieval_mode : RetrievalMode
  pub candidate_multiplier : ℕ
  pub embedding_lexical_fallback : Bool
  pub rrf_constant : ℕ
  pub dense_weight : N
  pub lexical_weight : N
  -- The names that fusion gives to channels without one, and the text of its errors.
  pub default_names : ℕ → List String
  pub fusion_error : String

pub record QueryBatch : Type 0 where
  pub queries : List String
  pub doc_id : String
  pub batch_id : String
  pub requested_k : ℕ
  pub candidate_k : ℕ

pub data RetrievalError (N : Type 0) : Type 0 where
  k_not_positive lexical_store_required vectors_do_not_match : RetrievalError N
  -- `RetrievalBatchError`: the cause and the audit of every query
  batch_failed : String → List (RetrievalTrace N) → RetrievalError N

pub data Outcome (Metadata N : Type 0) : Type 0 where
  retrieved : List (List (RetrievedChunk Metadata N)) → List (RetrievalTrace N) → Outcome Metadata N
  refused : RetrievalError N → Outcome Metadata N

abbrev pub or_default : ℕ → Option ℕ → ℕ
or_default k none = k
or_default k (some j) = j

abbrev pub or_mode : RetrievalMode → Option RetrievalMode → RetrievalMode
or_mode m none = m
or_mode m (some n) = n

unfoldable pub score_type : RetrievalMode → Bool → String
score_type mode true = "reranker_score"
score_type hybrid false = "rrf_score"
score_type dense false = "cosine_similarity"

-- Ranked results and the error that kept them away.
abbrev pub TimedResult : Type 0 → Type 0 → Type 0
TimedResult Metadata N = List (RetrievedChunk Metadata N) × Option String

module _ {Metadata N : Type 0} where
  unfoldable pub item_traces : ℕ → List (RetrievedChunk Metadata N) → List (ItemTrace N)
  item_traces rank [] = []
  item_traces rank (i ∷ is) =
      record {
        rank = rank;
        chunk_id = i.chunk.chunk_id;
        score = i.score;
        channel_ranks = i.channel_ranks;
      }
      ∷ item_traces (rank + 1) is

  -- `_batch_traces` and `_build_retrieval_trace`, from the query of index `i` on
  unfoldable pub batch_traces :
      String
      → RetrievalMode
      → String
      → Option String
      → ℕ
      → List String
      → List (TimedResult Metadata N)
      → List (RetrievalTrace N)
  unfolding item_traces
  batch_traces batch_id mode score_name degraded i (q ∷ qs) ((results, error) ∷ ts) =
      record {
        batch_id = batch_id;
        query_index = i;
        query = q;
        retrieval_mode = mode_value mode;
        score_type = score_name;
        degraded_mode = degraded;
        error = error;
        results = item_traces 1 results;
      }
      ∷ batch_traces batch_id mode score_name degraded (i + 1) qs ts
  batch_traces batch_id mode score_name degraded i _ _ = []

  -- The first error of the batch.
  unfoldable pub first_error : List (TimedResult Metadata N) → Option String
  first_error [] = none
  first_error ((results, none) ∷ ts) = first_error ts
  first_error ((results, some e) ∷ ts) = some e

  unfoldable pub raise_or :
      Option String → List (TimedResult Metadata N) → List (RetrievalTrace N) → Outcome Metadata N
  raise_or none ts traces = retrieved (map (λ t. t.0) ts) traces
  raise_or (some e) ts traces = refused (batch_failed e traces)

  -- `_results_or_raise`
  unfoldable pub results_or_raise :
      List (TimedResult Metadata N) → List (RetrievalTrace N) → Outcome Metadata N
  unfolding first_error raise_or
  results_or_raise ts traces = raise_or (first_error ts) ts traces

  unfoldable pub attempted :
      Attempt (List (RetrievedChunk Metadata N))
      → (List (RetrievedChunk Metadata N) → List (RetrievedChunk Metadata N))
      → Attempt (List (RetrievedChunk Metadata N))
  attempted (raised e) f = raised e
  attempted (returned items) f = returned (f items)

  unfoldable pub cut_to : ℕ → Attempt (List (RetrievedChunk Metadata N)) → TimedResult Metadata N
  cut_to k (raised e) = ([], some e)
  cut_to k (returned items) = (take k items, none)

  module _ {V : Type 0} ⦃s : Score N⦄ (p : Pipeline Metadata N V) where
    unfoldable pub candidate_k : ℕ → RetrievalMode → ℕ
    candidate_k requested_k mode =
        if is_hybrid mode || is_given p.reranker
        then requested_k * p.candidate_multiplier
        else requested_k

    -- The reranked candidates, put back into their agreement tiers.
    unfoldable pub reranked :
        Option (
          String
          → List (RetrievedChunk Metadata N)
          → ℕ
          → Attempt (List (RetrievedChunk Metadata N)))
        → String
        → List (RetrievedChunk Metadata N)
        → Attempt (List (RetrievedChunk Metadata N))
    unfolding attempted within_agreement_tiers
    reranked none q items = returned items
    reranked (some rerank) q items =
        attempted (rerank q items (length items)) (λ rs. within_agreement_tiers rs items)

    -- `timed` of `_run_searches`
    unfoldable pub run_search :
        ℕ → String → Attempt (List (RetrievedChunk Metadata N)) → TimedResult Metadata N
    unfolding cut_to reranked
    run_search k q (raised e) = ([], some e)
    run_search k q (returned items) = cut_to k (reranked p.reranker q items)

    unfoldable pub fusion_result :
        Result (List (RetrievedChunk Metadata N)) → Attempt (List (RetrievedChunk Metadata N))
    fusion_result (ok items) = returned items
    fusion_result (err e) = raised p.fusion_error

    -- Both channels run at once; the error of either is the search's, and of two errors the one
    -- of the dense channel stands for whichever came first.
    unfoldable pub fused_search :
        ℕ
        → Attempt (List (RetrievedChunk Metadata N))
        → Attempt (List (RetrievedChunk Metadata N))
        → Attempt (List (RetrievedChunk Metadata N))
    unfolding fusion_result reciprocal_rank_fusion
    fused_search k (raised e) lexical = raised e
    fused_search k (returned xs) (raised e) = raised e
    fused_search k (returned xs) (returned ys) = fusion_result (
        reciprocal_rank_fusion p.default_names (xs ∷ ys ∷ []) k p.rrf_constant
          (some (p.dense_weight ∷ p.lexical_weight ∷ []))
          (some (dense_channel ∷ lexical_channel ∷ [])))

    -- `search`, for a store whose lexical search is given
    unfoldable pub search :
        (String → String → ℕ → Attempt (List (RetrievedChunk Metadata N)))
        → RetrievalMode
        → QueryBatch
        → String
        → V
        → Attempt (List (RetrievedChunk Metadata N))
    unfolding attempted ranked_in fused_search
    search lexical dense b q v =
        attempted (p.query v b.doc_id b.candidate_k) (λ items. ranked_in dense_channel 1 items)
    search lexical hybrid b q v =
        fused_search b.candidate_k (p.query v b.doc_id b.candidate_k)
          (lexical q b.doc_id b.candidate_k)

    -- zip(queries, vectors), of one length
    unfoldable pub search_all :
        (String → String → ℕ → Attempt (List (RetrievedChunk Metadata N)))
        → RetrievalMode
        → QueryBatch
        → List String
        → List V
        → List (TimedResult Metadata N)
    unfolding run_search search
    search_all lexical mode b (q ∷ qs) (v ∷ vs) =
        run_search b.requested_k q (search lexical mode b q v) ∷ search_all lexical mode b qs vs
    search_all lexical mode b _ _ = []

    -- The searches of `_lexical_fallback_with_traces`
    unfoldable pub lexical_all :
        (String → String → ℕ → Attempt (List (RetrievedChunk Metadata N)))
        → QueryBatch
        → List String
        → List (TimedResult Metadata N)
    unfolding run_search attempted ranked_in
    lexical_all lexical b [] = []
    lexical_all lexical b (q ∷ qs) =
        run_search b.requested_k q (
          attempted (lexical q b.doc_id b.candidate_k) (λ items. ranked_in lexical_channel 1 items))
        ∷ lexical_all lexical b qs

    unfoldable pub lexical_fallback :
        (String → String → ℕ → Attempt (List (RetrievedChunk Metadata N)))
        → QueryBatch
        → Outcome Metadata N
    unfolding lexical_all batch_traces results_or_raise
    lexical_fallback lexical b =
        let timed = lexical_all lexical b b.queries in
        let name = if is_given p.reranker then "reranker_score" else "bm25_score" in
        results_or_raise timed
          (batch_traces b.batch_id hybrid name (some "lexical_only") 0 b.queries timed)

    -- Every query failed with the error of the embedding.
    unfoldable pub all_failed : String → List String → List (TimedResult Metadata N)
    all_failed e [] = []
    all_failed e (q ∷ qs) = ([], some e) ∷ all_failed e qs

    unfoldable pub embedding_failed : String → RetrievalMode → QueryBatch → Outcome Metadata N
    unfolding all_failed batch_traces score_type
    embedding_failed e mode b = refused (
        batch_failed e (
          batch_traces b.batch_id mode (score_type mode (is_given p.reranker)) none 0 b.queries
            (all_failed e b.queries)))

    unfoldable pub searched :
        (String → String → ℕ → Attempt (List (RetrievedChunk Metadata N)))
        → RetrievalMode
        → QueryBatch
        → Embedding V
        → Outcome Metadata N
    unfolding search_all batch_traces results_or_raise embedding_failed lexical_fallback score_type
    searched lexical mode b (embedded vs) =
        let timed = search_all lexical mode b b.queries vs in
        if length b.queries == length vs
        then results_or_raise timed (
            batch_traces b.batch_id mode (score_type mode (is_given p.reranker)) none 0 b.queries
              timed)
        else refused vectors_do_not_match
    searched lexical mode b (unavailable e) =
        if is_hybrid mode && p.embedding_lexical_fallback
        then lexical_fallback lexical b
        else embedding_failed e mode b
    searched lexical mode b (embedding_raised e) = embedding_failed e mode b

    -- Hybrid retrieval needs a lexical-capable store; dense retrieval never calls it.
    unfoldable pub with_lexical :
        Option (String → String → ℕ → Attempt (List (RetrievedChunk Metadata N)))
        → RetrievalMode
        → QueryBatch
        → Embedding V
        → Outcome Metadata N
    unfolding searched
    with_lexical none hybrid b e = refused lexical_store_required
    with_lexical none dense b e = searched (λ q doc_id k. returned []) dense b e
    with_lexical (some lexical) mode b e = searched lexical mode b e

    unfoldable pub retrieve_many_with_traces :
        String
        → Embedding V
        → List String
        → String
        → Option ℕ
        → Option RetrievalMode
        → Outcome Metadata N
    unfolding candidate_k with_lexical
    retrieve_many_with_traces batch_id e [] doc_id k mode = retrieved [] []
    retrieve_many_with_traces batch_id e (q ∷ qs) doc_id k mode =
        let requested = or_default p.default_k k in
        let effective = or_mode p.retrieval_mode mode in
        let b : QueryBatch = record {
          queries = q ∷ qs;
          doc_id = doc_id;
          batch_id = batch_id;
          requested_k = requested;
          candidate_k = candidate_k requested effective;
        } in
        if ltb requested 1
        then refused k_not_positive
        else with_lexical p.lexical_query effective b e
