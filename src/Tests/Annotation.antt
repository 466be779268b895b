-- ===== src/Tests/Annotation.antt =====
-- Runs of the annotation of the traces, app/consumer/service.py.
use give_exit.Prelude.{ℕ, String, none, Option, List, [], ◌∷◌, Any}
use give_exit.Prelude.Score.{nat_score}
use give_exit.Policy.{ItemTrace, RetrievalTrace}
use give_exit.Notice.Annotation.{annotate_composer_selection}
use give_exit.Notice.Annotation.Winners.{Everywhere}
use give_exit.Notice.Annotation.Selected.{
  EveryMark, IsPlaced, IsSelected, annotate_composer_selection_lem,
}
use give_exit.Tests.Rag.{hit}

abbrev ranked : ℕ → String → ℕ → ItemTrace ℕ
ranked rank id score = record { rank = rank; chunk_id = id; score = score; channel_ranks = [] }

abbrev traced : ℕ → List (ItemTrace ℕ) → RetrievalTrace ℕ
traced index items = record {
  batch_id = "b1";
  query_index = index;
  query = "juros";
  retrieval_mode = "hybrid";
  score_type = "rrf_score";
  degraded_mode = none;
  error = none;
  results = items;
}

-- Two queries that share a chunk.
abbrev two_traces : List (RetrievalTrace ℕ)
two_traces =
    traced 0 (ranked 1 "a" 5 ∷ ranked 2 "b" 3 ∷ [])
    ∷ traced 1 (ranked 1 "b" 4 ∷ ranked 2 "a" 2 ∷ [])
    ∷ []

annotate_composer_selection_example :
    Everywhere
      (λ n x.
        Any
          (λ t. Any (IsSelected ⦃s = nat_score⦄ x.chunk_id x.score) t.results)
          (annotate_composer_selection ⦃s = nat_score⦄ two_traces
            (hit "a" 5 ∷ hit "b" 4 ∷ [])
            ("a" ∷ [])))
      0
      two_traces
    × ((place : String → Option (ℕ × ℕ)) × EveryMark (IsPlaced ("a" ∷ []) place) 0 (
          annotate_composer_selection ⦃s = nat_score⦄ two_traces
            (hit "a" 5 ∷ hit "b" 4 ∷ [])
            ("a" ∷ [])))
annotate_composer_selection_example =
    annotate_composer_selection_lem ⦃s = nat_score⦄ two_traces (hit "a" 5 ∷ hit "b" 4 ∷ [])
      ("a" ∷ [])
