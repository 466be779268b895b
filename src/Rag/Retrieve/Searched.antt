-- ===== src/Rag/Retrieve/Searched.antt =====
-- The searches of a batch of retrievals do what their results say: app/rag/pipeline.py.
use give_exit.Prelude.{
  ℕ, suc, ◌≡◌, refl, ap, inl, inr, String, ◌&&◌, Option, none, some, List, [], ◌∷◌, ltb, ◌==◌,
  length, if◌then◌else◌, arith, Bool-cases, ==_iff,
}
use give_exit.Prelude.Score.{Score}
use give_exit.Rag.{RetrievedChunk, dense_channel, lexical_channel}
use give_exit.Rag.Fusion.{Result, ok, err}
use give_exit.Rag.Tiers.{ranked_in, within_agreement_tiers}
use give_exit.Rag.Retrieve.{
  Attempt, returned, raised, RetrievalMode, dense, hybrid, is_hybrid, is_given, Embedding, embedded,
  unavailable, embedding_raised, Pipeline, QueryBatch, or_default, or_mode, score_type, TimedResult,
  attempted, cut_to, candidate_k, reranked, run_search, fusion_result, fused_search, search,
  search_all, lexical_all, lexical_fallback, all_failed, embedding_failed, searched, with_lexical,
  retrieve_many_with_traces,
}
use give_exit.Rag.Retrieve.Traces.{batch_traces-ids, batch_traces-errors}
use give_exit.Rag.Retrieve.Explained.{
  IsExplained, results_or_raise-IsExplained, IsRanked, IsOfOne, IsOfBoth, IsOfFusion, fusion,
  Lexical, depth_of, IsOfSearch, EachSearched, EachLexical, EachFailed, IsOfBatch,
}

module _ {Metadata N V : Type 0} ⦃s : Score N⦄ (p : Pipeline Metadata N V) where
  reranked-IsRanked :
      (k : ℕ) (q : String) (items : List (RetrievedChunk Metadata N))
      (o : Option (
        String → List (RetrievedChunk Metadata N) → ℕ → Attempt (List (RetrievedChunk Metadata N))))
      → p.reranker ≡ o
      → IsRanked p k q items (cut_to k (reranked p o q items))
  unfolding reranked cut_to attempted
  reranked-IsRanked k q items none e = inl (e, refl)
  reranked-IsRanked k q items (some rerank) e = go (rerank q items (length items)) refl
    where
      go :
          (a : Attempt (List (RetrievedChunk Metadata N)))
          → rerank q items (length items) ≡ a
          → IsRanked p k q items (cut_to k (attempted a (λ rs. within_agreement_tiers rs items)))
      go (returned out) called = inr (rerank, e, (out, called, refl))
      go (raised x) called = (refl, (rerank, e, called))

  run_search-IsOfOne :
      (k : ℕ) (q channel : String) (a : Attempt (List (RetrievedChunk Metadata N)))
      → IsOfOne p k q channel a
          (run_search p k q (attempted a (λ items. ranked_in channel 1 items)))
  unfolding run_search attempted
  run_search-IsOfOne k q channel (raised x) = refl
  run_search-IsOfOne k q channel (returned items) =
      reranked-IsRanked k q (ranked_in channel 1 items) p.reranker refl

  run_search-IsOfFusion :
      (k : ℕ) (q : String) (f : Result (List (RetrievedChunk Metadata N)))
      → IsOfFusion p k q f (run_search p k q (fusion_result p f))
  unfolding run_search fusion_result
  run_search-IsOfFusion k q (ok items) = reranked-IsRanked k q items p.reranker refl
  run_search-IsOfFusion k q (err e) = refl

  run_search-IsOfBoth :
      (k depth : ℕ) (q : String) (a b : Attempt (List (RetrievedChunk Metadata N)))
      → IsOfBoth p k depth q a b (run_search p k q (fused_search p depth a b))
  unfolding run_search fused_search
  run_search-IsOfBoth k depth q (raised x) b = refl
  run_search-IsOfBoth k depth q (returned xs) (raised x) = refl
  run_search-IsOfBoth k depth q (returned xs) (returned ys) =
      run_search-IsOfFusion k q (fusion p depth xs ys)

  module _ (lexical : Lexical p) (b : QueryBatch) where
    run_search-IsOfSearch :
        (mode : RetrievalMode) (q : String) (v : V)
        → IsOfSearch p lexical b.doc_id b.requested_k b.candidate_k mode q v
            (run_search p b.requested_k q (search p lexical mode b q v))
    unfolding search
    run_search-IsOfSearch dense q v =
        run_search-IsOfOne b.requested_k q dense_channel (p.query v b.doc_id b.candidate_k)
    run_search-IsOfSearch hybrid q v =
        run_search-IsOfBoth b.requested_k b.candidate_k q (p.query v b.doc_id b.candidate_k)
          (lexical q b.doc_id b.candidate_k)

    search_all-EachSearched :
        (mode : RetrievalMode) (qs : List String) (vs : List V)
        → length qs ≡ length vs
        → EachSearched p lexical b.doc_id b.requested_k b.candidate_k mode qs vs
            (search_all p lexical mode b qs vs)
    unfolding search_all
    search_all-EachSearched mode [] vs e = refl
    search_all-EachSearched mode (q ∷ qs) [] e = cc
    search_all-EachSearched mode (q ∷ qs) (v ∷ vs) e =
        (run_search-IsOfSearch mode q v, search_all-EachSearched mode qs vs (ground (arith, e)))

    lexical_all-EachLexical :
        (qs : List String)
        → EachLexical p lexical b.doc_id b.requested_k b.candidate_k qs (lexical_all p lexical b qs)
    unfolding lexical_all
    lexical_all-EachLexical [] = refl
    lexical_all-EachLexical (q ∷ qs) = (
      run_search-IsOfOne b.requested_k q lexical_channel (lexical q b.doc_id b.candidate_k),
      lexical_all-EachLexical qs,
    )

    all_failed-EachFailed :
        (x : String) (qs : List String)
        → EachFailed p lexical b.doc_id b.requested_k b.candidate_k x qs (all_failed p x qs)
    unfolding all_failed
    all_failed-EachFailed x [] = refl
    all_failed-EachFailed x (q ∷ qs) = (refl, all_failed-EachFailed x qs)

    all_failed-length : (x : String) (qs : List String) → length qs ≡ length (all_failed p x qs)
    unfolding all_failed
    all_failed-length x [] = refl
    all_failed-length x (q ∷ qs) = ap suc (all_failed-length x qs)

    embedding_failed-IsExplained :
        (P : List (TimedResult Metadata N) → Type 0) (x : String) (mode : RetrievalMode)
        (q : String) (qs : List String)
        → b.queries ≡ q ∷ qs
        → P (all_failed p x b.queries)
        → IsExplained P (embedding_failed p x mode b)
    unfolding embedding_failed all_failed
    embedding_failed-IsExplained P x mode q qs w h =
        let name = score_type mode (is_given p.reranker) in
        let ts = all_failed p x b.queries in
        let n = all_failed-length x b.queries in
        (
          ts,
          h,
          rw w refl,
          batch_traces-errors b.batch_id mode name none 0 b.queries ts n,
          batch_traces-ids b.batch_id mode name none 0 b.queries ts n,
        )

    -- What the batch's results come from, by the embedding of its queries.
    abbrev IsOf : RetrievalMode → Embedding V → List (TimedResult Metadata N) → Type 0
    IsOf mode e ts = IsOfBatch p lexical b.doc_id b.requested_k b.candidate_k mode b.queries e ts

    search_all-length :
        (mode : RetrievalMode) (qs : List String) (vs : List V)
        → length qs ≡ length vs
        → length qs ≡ length (search_all p lexical mode b qs vs)
    unfolding search_all
    search_all-length mode [] vs e = refl
    search_all-length mode (q ∷ qs) [] e = cc
    search_all-length mode (q ∷ qs) (v ∷ vs) e =
        ap suc (search_all-length mode qs vs (ground (arith, e)))

    lexical_all-length : (qs : List String) → length qs ≡ length (lexical_all p lexical b qs)
    unfolding lexical_all
    lexical_all-length [] = refl
    lexical_all-length (q ∷ qs) = ap suc (lexical_all-length qs)

    searched-IsExplained :
        (mode : RetrievalMode) (e : Embedding V) (q : String) (qs : List String)
        → b.queries ≡ q ∷ qs
        → IsExplained (IsOf mode e) (searched p lexical mode b e)
    unfolding searched lexical_fallback
    searched-IsExplained mode (embedded vs) q qs w =
        elim (Bool-cases (length b.queries == length vs)) [
          | inl same ↦
              let n = (==_iff (length b.queries) (length vs)).0 same in
              rw same (
                results_or_raise-IsExplained (IsOf mode (embedded vs)) b.batch_id mode
                  (score_type mode (is_given p.reranker)) none b.queries _
                  (search_all-length mode b.queries vs n)
                  (search_all-EachSearched mode b.queries vs n))
          | inr other ↦ rw other tt
        ]
    searched-IsExplained mode (unavailable x) q qs w =
        elim (Bool-cases (is_hybrid mode && p.embedding_lexical_fallback)) [
          | inl on ↦
              let h : IsOf mode (unavailable x) (lexical_all p lexical b b.queries) =
                rw on (lexical_all-EachLexical b.queries) in
              rw on (
                results_or_raise-IsExplained (IsOf mode (unavailable x)) b.batch_id hybrid
                  (if is_given p.reranker then "reranker_score" else "bm25_score")
                  (some "lexical_only") b.queries (lexical_all p lexical b b.queries)
                  (lexical_all-length b.queries) h)
          | inr off ↦
              let h : IsOf mode (unavailable x) (all_failed p x b.queries) =
                rw off (all_failed-EachFailed x b.queries) in
              rw off (embedding_failed-IsExplained (IsOf mode (unavailable x)) x mode q qs w h)
        ]
    searched-IsExplained mode (embedding_raised x) q qs w =
        embedding_failed-IsExplained (IsOf mode (embedding_raised x)) x mode q qs w
          (all_failed-EachFailed x b.queries)

  -- The store's lexical search; the searches that need one are refused without it.
  abbrev pub lexical_of : Option (Lexical p) → Lexical p
  lexical_of none = λ q doc_id k. returned []
  lexical_of (some lexical) = lexical

  with_lexical-IsExplained :
      (o : Option (Lexical p)) (mode : RetrievalMode) (b : QueryBatch) (e : Embedding V)
      (q : String) (qs : List String)
      → b.queries ≡ q ∷ qs
      → IsExplained (IsOf (lexical_of o) b mode e) (with_lexical p o mode b e)
  unfolding with_lexical
  with_lexical-IsExplained none dense b e q qs w =
      searched-IsExplained (λ q' doc_id k. returned []) b dense e q qs w
  with_lexical-IsExplained none hybrid b e q qs w = tt
  with_lexical-IsExplained (some l) mode b e q qs w = searched-IsExplained l b mode e q qs w

  pub retrieve_many-IsExplained :
      (batch_id : String) (e : Embedding V) (q : String) (qs : List String) (doc_id : String)
      (k : Option ℕ) (mode : Option RetrievalMode)
      → IsExplained
          (IsOfBatch p
            (lexical_of p.lexical_query)
            doc_id
            (or_default p.default_k k)
            (depth_of p (or_default p.default_k k) (or_mode p.retrieval_mode mode))
            (or_mode p.retrieval_mode mode)
            (q ∷ qs)
            e)
          (retrieve_many_with_traces p batch_id e (q ∷ qs) doc_id k mode)
  unfolding retrieve_many_with_traces candidate_k
  retrieve_many-IsExplained batch_id e q qs doc_id k mode =
      let requested = or_default p.default_k k in
      let effective = or_mode p.retrieval_mode mode in
      elim (Bool-cases (ltb requested 1)) [
        | inl small ↦ rw small tt
        | inr big ↦ rw big (
            with_lexical-IsExplained p.lexical_query effective
              (record {
                queries = q ∷ qs;
                doc_id = doc_id;
                batch_id = batch_id;
                requested_k = requested;
                candidate_k = candidate_k p requested effective;
              })
              e q qs refl)
      ]
