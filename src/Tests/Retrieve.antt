-- ===== src/Tests/Retrieve.antt =====
-- Runs of the batch retrieval, app/rag/pipeline.py.
use give_exit.Prelude.{ℕ, true, none, some, [], ◌∷◌}
use give_exit.Prelude.Score.{nat_score}
use give_exit.Rag.Retrieve.{
  Pipeline, hybrid, returned, raised, unavailable, retrieve_many_with_traces,
}
use give_exit.Rag.Retrieve.Traces.{IsAudited}
use give_exit.Rag.Retrieve.Audited.{Reason, retrieve_many_with_traces_lem}
use give_exit.Rag.Retrieve.Explained.{IsExplained, IsOfBatch}
use give_exit.Rag.Retrieve.Searched.{lexical_of}
use give_exit.Tests.Rag.{hit}

-- A store whose dense channel is never reached.
abbrev one_hit : Pipeline Unit ℕ ℕ
one_hit = record {
  query = λ v doc_id k. raised "TimeoutError: ";
  lexical_query = some (λ q doc_id k. returned (hit "a" 9 ∷ []));
  reranker = none;
  default_k = 5;
  retrieval_mode = hybrid;
  candidate_multiplier = 4;
  embedding_lexical_fallback = true;
  rrf_constant = 60;
  dense_weight = 1;
  lexical_weight = 1;
  default_names = λ n. [];
  fusion_error = "ValueError: ";
}

retrieve_many_with_traces_example :
    IsAudited
      (Reason ⦃s = nat_score⦄ one_hit one_hit.lexical_query hybrid
        ("juros" ∷ "multa" ∷ [])
        5
        (unavailable "EmbeddingTimeout"))
      ("juros" ∷ "multa" ∷ [])
      5
      (some "lexical_only")
      (retrieve_many_with_traces ⦃s = nat_score⦄ one_hit "b1"
        (unavailable "EmbeddingTimeout")
        ("juros" ∷ "multa" ∷ [])
        "d"
        none
        none)
    × IsExplained
        (IsOfBatch ⦃s = nat_score⦄ one_hit
          (lexical_of ⦃s = nat_score⦄ one_hit one_hit.lexical_query)
          "d"
          5
          20
          hybrid
          ("juros" ∷ "multa" ∷ [])
          (unavailable "EmbeddingTimeout"))
        (retrieve_many_with_traces ⦃s = nat_score⦄ one_hit "b1"
          (unavailable "EmbeddingTimeout")
          ("juros" ∷ "multa" ∷ [])
          "d"
          none
          none)
retrieve_many_with_traces_example =
    retrieve_many_with_traces_lem ⦃s = nat_score⦄ one_hit "b1" (unavailable "EmbeddingTimeout")
      "juros" ("multa" ∷ []) "d" none none
