-- ===== src/Rag/Retrieve/Traces.antt =====
-- The traces of a batch of retrievals, query by query: app/rag/pipeline.py.
use give_exit.Prelude.{
  ℕ, suc, ◌+◌, ◌≤◌, ◌≡◌, refl, sym, ap, ◌∙◌, inl, inr, String, true, Option, none, some, List, [],
  ◌∷◌, map, any, length, arith, Option-cases, All,
}
use give_exit.Rag.{RetrievedChunk}
use give_exit.Policy.{RetrievalTrace}
use give_exit.Rag.Retrieve.{
  RetrievalError, RetrievalMode, is_given, batch_failed, k_not_positive, lexical_store_required,
  vectors_do_not_match, Outcome, retrieved, refused, TimedResult, item_traces, batch_traces,
  first_error, raise_or, results_or_raise,
}

abbrev pub traced_ids : {N : Type 0} → RetrievalTrace N → List String
traced_ids t = map (λ i. i.chunk_id) t.results

module _ {Metadata N : Type 0} where
  abbrev pub ids : List (RetrievedChunk Metadata N) → List String
  ids rs = map (λ i. i.chunk.chunk_id) rs

  -- A batch that succeeds gives each query its results, `k` at most, and its trace with the same
  -- chunks, without an error and with the mark of the degradation; one that fails still has a
  -- trace for each query, and some trace says what failed; a refusal without traces has a reason.
  abbrev pub IsAudited :
      (RetrievalError N → Type 0) → List String → ℕ → Option String → Outcome Metadata N → Type 0
  IsAudited why qs k degraded (retrieved rs ts) =
      (map (λ t. t.query) ts ≡ qs)
      × (length rs ≡ length qs)
      × All (λ r. length r ≤ k) rs
      × (map traced_ids ts ≡ map ids rs)
      × All (λ t. (t.error ≡ none) × (t.degraded_mode ≡ degraded)) ts
  IsAudited why qs k degraded (refused (batch_failed e ts)) =
      (map (λ t. t.query) ts ≡ qs) × (any (λ t. is_given t.error) ts ≡ true)
  IsAudited why qs k degraded (refused k_not_positive) = why k_not_positive
  IsAudited why qs k degraded (refused lexical_store_required) = why lexical_store_required
  IsAudited why qs k degraded (refused vectors_do_not_match) = why vectors_do_not_match

  traced-item_traces :
      (rank : ℕ) (rs : List (RetrievedChunk Metadata N))
      → map (λ i. i.chunk_id) (item_traces rank rs) ≡ ids rs
  unfolding item_traces
  traced-item_traces rank [] = refl
  traced-item_traces rank (r ∷ rs) =
      ap (λ xs. r.chunk.chunk_id ∷ xs) (traced-item_traces (rank + 1) rs)

  length-results : (ts : List (TimedResult Metadata N)) → length (map (λ t. t.0) ts) ≡ length ts
  length-results [] = refl
  length-results (t ∷ ts) = ap suc (length-results ts)

  results_within :
      (k : ℕ) (ts : List (TimedResult Metadata N))
      → All (λ t. length t.0 ≤ k) ts
      → All (λ r. length r ≤ k) (map (λ t. t.0) ts)
  results_within k [] h = tt
  results_within k (t ∷ ts) h = (h.0, results_within k ts h.1)

  module _ (batch_id : String) (mode : RetrievalMode) (name : String)
      (degraded : Option String) where
    pub batch_traces-query :
        (i : ℕ) (qs : List String) (ts : List (TimedResult Metadata N))
        → length qs ≡ length ts
        → map (λ t. t.query) (batch_traces batch_id mode name degraded i qs ts) ≡ qs
    unfolding batch_traces
    batch_traces-query i [] ts e = refl
    batch_traces-query i (q ∷ qs) [] e = cc
    batch_traces-query i (q ∷ qs) (t ∷ ts) e =
        ap (λ xs. q ∷ xs) (batch_traces-query (i + 1) qs ts (ground (arith, e)))

    pub batch_traces-ids :
        (i : ℕ) (qs : List String) (ts : List (TimedResult Metadata N))
        → length qs ≡ length ts
        → map traced_ids (batch_traces batch_id mode name degraded i qs ts)
          ≡ map ids (map (λ t. t.0) ts)
    unfolding batch_traces
    batch_traces-ids i [] [] e = refl
    batch_traces-ids i [] (t ∷ ts) e = cc
    batch_traces-ids i (q ∷ qs) [] e = cc
    batch_traces-ids i (q ∷ qs) ((rs, x) ∷ ts) e =
        let first = traced-item_traces 1 rs in
        let rest = batch_traces-ids (i + 1) qs ts (ground (arith, e)) in cc

    pub batch_traces-errors :
        (i : ℕ) (qs : List String) (ts : List (TimedResult Metadata N))
        → length qs ≡ length ts
        → map (λ t. t.error) (batch_traces batch_id mode name degraded i qs ts) ≡ map (λ t. t.1) ts
    unfolding batch_traces
    batch_traces-errors i [] [] e = refl
    batch_traces-errors i [] (t ∷ ts) e = cc
    batch_traces-errors i (q ∷ qs) [] e = cc
    batch_traces-errors i (q ∷ qs) ((rs, x) ∷ ts) e =
        ap (λ xs. x ∷ xs) (batch_traces-errors (i + 1) qs ts (ground (arith, e)))

    batch_traces-error :
        (i : ℕ) (qs : List String) (ts : List (TimedResult Metadata N))
        → length qs ≡ length ts
        → first_error ts ≡ none
        → All
            (λ t. (t.error ≡ none) × (t.degraded_mode ≡ degraded))
            (batch_traces batch_id mode name degraded i qs ts)
    unfolding batch_traces first_error
    batch_traces-error i [] ts e h = tt
    batch_traces-error i (q ∷ qs) [] e h = tt
    batch_traces-error i (q ∷ qs) ((rs, none) ∷ ts) e h =
        ((refl, refl), batch_traces-error (i + 1) qs ts (ground (arith, e)) h)
    batch_traces-error i (q ∷ qs) ((rs, some x) ∷ ts) e h = cc

    pub batch_traces-failed :
        (i : ℕ) (qs : List String) (ts : List (TimedResult Metadata N)) (x : String)
        → length qs ≡ length ts
        → first_error ts ≡ some x
        → any (λ t. is_given t.error) (batch_traces batch_id mode name degraded i qs ts) ≡ true
    unfolding batch_traces first_error
    batch_traces-failed i qs [] x e h = cc
    batch_traces-failed i [] (t ∷ ts) x e h = cc
    batch_traces-failed i (q ∷ qs) ((rs, none) ∷ ts) x e h =
        batch_traces-failed (i + 1) qs ts x (ground (arith, e)) h
    batch_traces-failed i (q ∷ qs) ((rs, some y) ∷ ts) x e h = refl

    pub results_or_raise-IsAudited :
        (why : RetrievalError N → Type 0) (k : ℕ) (qs : List String)
        (ts : List (TimedResult Metadata N))
        → length qs ≡ length ts
        → All (λ t. length t.0 ≤ k) ts
        → IsAudited why qs k degraded
            (results_or_raise ts (batch_traces batch_id mode name degraded 0 qs ts))
    unfolding results_or_raise raise_or
    results_or_raise-IsAudited why k qs ts e h = elim (Option-cases (first_error ts)) [
      | inl fine ↦ rw fine (
        batch_traces-query 0 qs ts e,
        length-results ts ∙ sym e,
        results_within k ts h,
        batch_traces-ids 0 qs ts e,
        batch_traces-error 0 qs ts e fine,
      )
      | inr (x, failed) ↦
          rw failed (batch_traces-query 0 qs ts e, batch_traces-failed 0 qs ts x e failed)
    ]
