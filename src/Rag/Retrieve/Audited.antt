-- ===== src/Rag/Retrieve/Audited.antt =====
-- What a batch of retrievals returns and what its audit says: app/rag/pipeline.py.
use give_exit.Prelude.{
  false, ℕ, suc, ◌≤◌, ◌≡◌, refl, ap, inl, inr, String, ◌&&◌, Option, none, some, List, [], ◌∷◌, ltb,
  ◌==◌, length, length-take, if◌then◌else◌, arith, Bool-cases, ==_iff, All,
}
use give_exit.Prelude.Score.{Score}
use give_exit.Rag.{RetrievedChunk}
use give_exit.Rag.Retrieve.{
  RetrievalError, batch_failed, k_not_positive, lexical_store_required, vectors_do_not_match,
  Attempt, returned, raised, RetrievalMode, dense, hybrid, is_hybrid, is_given, Embedding, embedded,
  unavailable, embedding_raised, Pipeline, QueryBatch, or_default, or_mode, score_type, TimedResult,
  first_error, cut_to, candidate_k, reranked, run_search, search, search_all, lexical_all,
  lexical_fallback, all_failed, embedding_failed, searched, with_lexical, retrieve_many_with_traces,
}
use give_exit.Rag.Retrieve.Traces.{
  IsAudited, batch_traces-query, batch_traces-failed, results_or_raise-IsAudited,
}
use give_exit.Rag.Retrieve.Explained.{IsExplained, IsOfBatch, depth_of}
use give_exit.Rag.Retrieve.Searched.{lexical_of, retrieve_many-IsExplained}

module _ {Metadata N V : Type 0} ⦃s : Score N⦄ (p : Pipeline Metadata N V) where
  length-cut_to :
      (k : ℕ) (a : Attempt (List (RetrievedChunk Metadata N))) → length (cut_to k a).0 ≤ k
  unfolding cut_to
  length-cut_to k (raised e) = omega arith
  length-cut_to k (returned items) = omega (arith, length-take k items)

  length-run_search :
      (k : ℕ) (q : String) (a : Attempt (List (RetrievedChunk Metadata N)))
      → length (run_search p k q a).0 ≤ k
  unfolding run_search
  length-run_search k q (raised e) = omega arith
  length-run_search k q (returned items) = length-cut_to k (reranked p p.reranker q items)

  -- One result for each query, within the limit.
  abbrev IsBatch : ℕ → List String → List (TimedResult Metadata N) → Type 0
  IsBatch k qs ts = (length qs ≡ length ts) × All (λ t. length t.0 ≤ k) ts

  search_all-IsBatch :
      (lexical : String → String → ℕ → Attempt (List (RetrievedChunk Metadata N)))
      (mode : RetrievalMode) (b : QueryBatch) (qs : List String) (vs : List V)
      → length qs ≡ length vs
      → IsBatch b.requested_k qs (search_all p lexical mode b qs vs)
  unfolding search_all
  search_all-IsBatch lexical mode b [] vs e = (refl, tt)
  search_all-IsBatch lexical mode b (q ∷ qs) [] e = cc
  search_all-IsBatch lexical mode b (q ∷ qs) (v ∷ vs) e =
      let (n, h) = search_all-IsBatch lexical mode b qs vs (ground (arith, e)) in
      (ap suc n, (length-run_search b.requested_k q (search p lexical mode b q v), h))

  lexical_all-IsBatch :
      (lexical : String → String → ℕ → Attempt (List (RetrievedChunk Metadata N))) (b : QueryBatch)
      (qs : List String)
      → IsBatch b.requested_k qs (lexical_all p lexical b qs)
  unfolding lexical_all
  lexical_all-IsBatch lexical b [] = (refl, tt)
  lexical_all-IsBatch lexical b (q ∷ qs) =
      let (n, h) = lexical_all-IsBatch lexical b qs in
      (ap suc n, (length-run_search b.requested_k q _, h))

  all_failed_lem : (e : String) (qs : List String) → length qs ≡ length (all_failed p e qs)
  unfolding all_failed
  all_failed_lem e [] = refl
  all_failed_lem e (q ∷ qs) = ap suc (all_failed_lem e qs)

  embedding_failed-IsAudited :
      (why : RetrievalError N → Type 0) (e q : String) (qs : List String) (k : ℕ)
      (d : Option String) (mode : RetrievalMode) (b : QueryBatch)
      → b.queries ≡ q ∷ qs
      → IsAudited why b.queries k d (embedding_failed p e mode b)
  unfolding embedding_failed all_failed first_error
  embedding_failed-IsAudited why e q qs k d mode b some_query =
      let name = score_type mode (is_given p.reranker) in
      rw some_query (
        batch_traces-query b.batch_id mode name none 0 (q ∷ qs) (all_failed p e (q ∷ qs))
            (all_failed_lem e (q ∷ qs)),
        batch_traces-failed b.batch_id mode name none 0 (q ∷ qs) (all_failed p e (q ∷ qs)) e
            (all_failed_lem e (q ∷ qs)) refl,
      )

  -- The mark of a trace: the lexical fallback, exactly when the embedding was unavailable.
  abbrev pub mark : Embedding V → Option String
  mark (embedded vs) = none
  mark (unavailable e) = some "lexical_only"
  mark (embedding_raised e) = none

  abbrev Misfit : List String → Embedding V → Type 0
  Misfit qs (embedded vs) = (length qs == length vs) ≡ false
  Misfit qs (unavailable e) = ⊥
  Misfit qs (embedding_raised e) = ⊥

  -- Why a batch is refused before any query is searched.
  abbrev pub Reason :
      Option (String → String → ℕ → Attempt (List (RetrievedChunk Metadata N)))
      → RetrievalMode
      → List String
      → ℕ
      → Embedding V
      → RetrievalError N
      → Type 0
  Reason o mode qs k e k_not_positive = k ≡ 0
  Reason o mode qs k e lexical_store_required = (is_given o ≡ false) × (mode ≡ hybrid)
  Reason o mode qs k e vectors_do_not_match = Misfit qs e
  Reason o mode qs k e (batch_failed x ts) = Unit

  searched-IsAudited :
      (o : Option (String → String → ℕ → Attempt (List (RetrievedChunk Metadata N))))
      (lexical : String → String → ℕ → Attempt (List (RetrievedChunk Metadata N)))
      (mode : RetrievalMode) (b : QueryBatch) (e : Embedding V) (q : String) (qs : List String)
      → b.queries ≡ q ∷ qs
      → IsAudited
          (Reason o mode b.queries b.requested_k e)
          b.queries
          b.requested_k
          (mark e)
          (searched p lexical mode b e)
  unfolding searched lexical_fallback
  searched-IsAudited o lexical mode b (embedded vs) q qs w =
      elim (Bool-cases (length b.queries == length vs)) [
        | inl same ↦
            let (n, h) =
              search_all-IsBatch lexical mode b b.queries vs
                ((==_iff (length b.queries) (length vs)).0 same) in
            rw same (
              results_or_raise-IsAudited b.batch_id mode (score_type mode (is_given p.reranker))
                none (Reason o mode b.queries b.requested_k (embedded vs)) b.requested_k b.queries
                (search_all p lexical mode b b.queries vs) n h)
        | inr other ↦ rw other other
      ]
  searched-IsAudited o lexical mode b (unavailable e) q qs w =
      elim (Bool-cases (is_hybrid mode && p.embedding_lexical_fallback)) [
        | inl on ↦
            let (n, h) = lexical_all-IsBatch lexical b b.queries in
            rw on (
              results_or_raise-IsAudited b.batch_id hybrid
                (if is_given p.reranker then "reranker_score" else "bm25_score")
                (some "lexical_only") (Reason o mode b.queries b.requested_k (unavailable e))
                b.requested_k b.queries (lexical_all p lexical b b.queries) n h)
        | inr off ↦ rw off (
            embedding_failed-IsAudited (Reason o mode b.queries b.requested_k (unavailable e)) e q
              qs b.requested_k (some "lexical_only") mode b w)
      ]
  searched-IsAudited o lexical mode b (embedding_raised e) q qs w =
      embedding_failed-IsAudited (Reason o mode b.queries b.requested_k (embedding_raised e)) e q qs
        b.requested_k none mode b w

  with_lexical-IsAudited :
      (o : Option (String → String → ℕ → Attempt (List (RetrievedChunk Metadata N))))
      (mode : RetrievalMode) (b : QueryBatch) (e : Embedding V) (q : String) (qs : List String)
      → b.queries ≡ q ∷ qs
      → IsAudited
          (Reason o mode b.queries b.requested_k e)
          b.queries
          b.requested_k
          (mark e)
          (with_lexical p o mode b e)
  unfolding with_lexical
  with_lexical-IsAudited none dense b e q qs w =
      searched-IsAudited none (λ q' doc_id k. returned []) dense b e q qs w
  with_lexical-IsAudited none hybrid b e q qs w = (refl, refl)
  with_lexical-IsAudited (some l) mode b e q qs w = searched-IsAudited (some l) l mode b e q qs w

  retrieve_many-IsAudited :
      (batch_id : String) (e : Embedding V) (q : String) (qs : List String) (doc_id : String)
      (k : Option ℕ) (mode : Option RetrievalMode)
      → IsAudited
          (Reason p.lexical_query
            (or_mode p.retrieval_mode mode)
            (q ∷ qs)
            (or_default p.default_k k)
            e)
          (q ∷ qs)
          (or_default p.default_k k)
          (mark e)
          (retrieve_many_with_traces p batch_id e (q ∷ qs) doc_id k mode)
  unfolding retrieve_many_with_traces
  retrieve_many-IsAudited batch_id e q qs doc_id k mode =
      let requested = or_default p.default_k k in
      let effective = or_mode p.retrieval_mode mode in
      elim (Bool-cases (ltb requested 1)) [
        | inl small ↦ rw small (ground (arith, small))
        | inr big ↦ rw big (
            with_lexical-IsAudited p.lexical_query effective
              (record {
                queries = q ∷ qs;
                doc_id = doc_id;
                batch_id = batch_id;
                requested_k = requested;
                candidate_k = candidate_k p requested effective;
              })
              e q qs refl)
      ]

  -- Every batch of queries is audited. One that succeeds gives each query, in order, its results,
  -- `k` at most, and a trace with the same chunks and no error, marked `lexical_only` exactly when
  -- the embedding was unavailable. The results are what the searches of this document gave: the
  -- dense channel, or the fusion of both, or the lexical channel alone when the embedding was
  -- unavailable and the fallback is on, to the depth of the mode, put in the reranker's order if
  -- there is one, and cut to `k`. A batch fails exactly with the first error of those, or of the
  -- embedding, and every trace has the chunks and the error of its search. It is refused without
  -- traces only for a limit of 0, for hybrid retrieval from a store without lexical search, or
  -- for a number of vectors that is not the number of queries.
  pub retrieve_many_with_traces_lem :
      (batch_id : String) (e : Embedding V) (q : String) (qs : List String) (doc_id : String)
      (k : Option ℕ) (mode : Option RetrievalMode)
      → IsAudited
          (Reason p.lexical_query
            (or_mode p.retrieval_mode mode)
            (q ∷ qs)
            (or_default p.default_k k)
            e)
          (q ∷ qs)
          (or_default p.default_k k)
          (mark e)
          (retrieve_many_with_traces p batch_id e (q ∷ qs) doc_id k mode)
        × IsExplained
            (IsOfBatch p
              (lexical_of p p.lexical_query)
              doc_id
              (or_default p.default_k k)
              (depth_of p (or_default p.default_k k) (or_mode p.retrieval_mode mode))
              (or_mode p.retrieval_mode mode)
              (q ∷ qs)
              e)
            (retrieve_many_with_traces p batch_id e (q ∷ qs) doc_id k mode)
  retrieve_many_with_traces_lem batch_id e q qs doc_id k mode = (
    retrieve_many-IsAudited batch_id e q qs doc_id k mode,
    retrieve_many-IsExplained p batch_id e q qs doc_id k mode,
  )
