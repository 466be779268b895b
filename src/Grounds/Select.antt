-- ===== src/Grounds/Select.antt =====
-- `_provision_candidates` and `select_legal_grounds` of app/consumer/ground_selection.py.
use give_exit.Prelude.{
  ℕ, ◌+◌, String, Text, Bool, true, false, not, Option, none, some, List, [], ◌∷◌, map, any, ltb,
  leb, ◌==◌, str_eq, str_leb, if◌then◌else◌,
}
use give_exit.Prelude.Dict.{Dict, lookup}
use give_exit.Prelude.Sorting.{sort}
use give_exit.Prelude.Score.{Score}
use give_exit.Rag.{RetrievedChunk}
use give_exit.Policy.{LegalProvision, RetrievalTrace}
use give_exit.Policy.Window.{precedence_window, enforce_cdc_anchor}
use give_exit.Grounds.{
  LegalTextUnit, LegalCorpus, ConsumerCaseFacts, Ranked, Candidate, LegalGround,
}
use give_exit.Grounds.Merge.{merge_results, chunk_query_occurrences, score_floor, is_below}
use give_exit.Grounds.Article42.{
  or_blank, eligible_candidates, disambiguate_cdc_art_42_candidates,
  is_unpaid_collection_harassment, least_rank, greatest_score,
}

abbrev pub max_ground_candidates : ℕ
max_ground_candidates = 8

abbrev pub max_legal_grounds : ℕ
max_legal_grounds = 8

abbrev or_zero : Option ℕ → ℕ
or_zero none = 0
or_zero (some n) = n

abbrev unit_points : Option LegalTextUnit → ℕ
unit_points none = 0
unit_points (some u) = 1

abbrev pub is_empty {ℓ} : {A : Type ℓ} → List A → Bool
is_empty [] = true
is_empty (x ∷ xs) = false

-- The order of the key (best_rank, chunk_id).
unfoldable pub candidate_leb :
    {Metadata N : Type 0} → Candidate Metadata N → Candidate Metadata N → Bool
candidate_leb a b =
    if a.best_rank == b.best_rank
    then str_leb a.result.chunk.chunk_id b.result.chunk.chunk_id
    else ltb a.best_rank b.best_rank

module _ {Metadata N Authority : Type 0} ⦃s : Score N⦄
    (corpus : LegalCorpus Metadata N Authority) where
  -- a comes strictly before b by the key (-occurrences, -int(has a unit), -score, chunk_id)
  unfoldable pub quoted_before :
      Dict ℕ → RetrievedChunk Metadata N → RetrievedChunk Metadata N → Bool
  quoted_before occurrences a b =
      let m = or_zero (lookup a.chunk.chunk_id occurrences) in
      let n = or_zero (lookup b.chunk.chunk_id occurrences) in
      let u = unit_points (corpus.unit_for_chunk a.chunk) in
      let v = unit_points (corpus.unit_for_chunk b.chunk) in
      if not (m == n)
      then ltb n m
      else if not (u == v)
      then ltb v u
      else if not (s.score_leb b.score a.score)
      then false
      else if not (s.score_leb a.score b.score)
      then true
      else not (str_leb b.chunk.chunk_id a.chunk.chunk_id)

  -- min(ranked_candidates, key=...): the first of the least
  unfoldable pub quoted : Dict ℕ → Ranked Metadata N → List (Ranked Metadata N) → Ranked Metadata N
  quoted occurrences c [] = c
  quoted occurrences c (d ∷ ds) =
      quoted occurrences (if quoted_before occurrences d.1 c.1 then d else c) ds

  unfoldable pub provision_candidate :
      Dict ℕ → Ranked Metadata N → List (Ranked Metadata N) → Candidate Metadata N
  provision_candidate occurrences c cs = record {
    best_rank = least_rank c.0 cs;
    best_score = greatest_score c.1.score cs;
    rank = (quoted occurrences c cs).0;
    result = (quoted occurrences c cs).1;
  }

  -- No group is empty.
  unfoldable pub provision_candidates :
      Dict ℕ → Dict (List (Ranked Metadata N)) → List (Candidate Metadata N)
  provision_candidates occurrences [] = []
  provision_candidates occurrences ((id, []) ∷ d) = provision_candidates occurrences d
  provision_candidates occurrences ((id, c ∷ cs) ∷ d) =
      provision_candidate occurrences c cs ∷ provision_candidates occurrences d

  -- The loop over the window, with `selected` grounds selected.
  unfoldable pub quote_grounds :
      Option N
      → ℕ
      → List (LegalProvision × Candidate Metadata N)
      → List (LegalProvision × LegalGround Authority)
  quote_grounds floor selected [] = []
  quote_grounds floor selected ((p, c) ∷ cs) =
      let skipped = quote_grounds floor selected cs in
      let more = quote_grounds floor (selected + 1) cs in
      let ground_of_c : LegalGround Authority = record {
        authority = corpus.authority_for_chunk c.result c.rank;
        application_to_facts = p.citation_label;
      } in
      if is_below c.best_score floor
      then skipped
      else (p, ground_of_c) ∷ (if leb max_legal_grounds (selected + 1) then [] else more)

  module _ (numeral : Option String → String → String) (half : N → N) where
    -- The provisions and grounds after the gates, in the window and above the floor.
    -- `harassment` is the answer of `_is_unpaid_collection_harassment`.
    unfoldable pub selected_grounds :
        List String
        → (harassment : Bool) → List (RetrievedChunk Metadata N)
        → List (RetrievalTrace N)
        → List (LegalProvision × LegalGround Authority)
    selected_grounds supported harassment merged traces =
        let eligible =
          disambiguate_cdc_art_42_candidates corpus harassment merged
            (eligible_candidates numeral corpus merged supported) in
        let candidates =
          sort candidate_leb (provision_candidates (chunk_query_occurrences traces) eligible) in
        let lexical_only =
          any (λ t. elim t.degraded_mode [ none ↦ false | some m ↦ str_eq m "lexical_only" ])
            traces in
        let window =
          precedence_window max_ground_candidates lexical_only
            (map (λ c. (corpus.provision_for_chunk c.result.chunk, c)) candidates) in
        quote_grounds (score_floor half merged traces) 0 window

    module _ (is_consumer_scope : Text → Bool) (fold : Text → Text)
        (threat undue_payment : Text → Bool) where
      -- `select_legal_grounds`, before the provisions are forgotten.
      unfoldable pub cited_grounds :
          (support : List (RetrievalTrace N) → List String)
          → ConsumerCaseFacts
          → List (List (RetrievedChunk Metadata N))
          → List (RetrievalTrace N)
          → List (LegalProvision × LegalGround Authority)
      cited_grounds support facts result_sets traces =
          let harassment = is_unpaid_collection_harassment fold threat undue_payment facts in
          let selected =
            selected_grounds (support traces) harassment (merge_results result_sets) traces in
          if not (is_consumer_scope (or_blank facts.complaint_summary))
          then []
          else if is_empty (support traces)
          then []
          else if is_empty (merge_results result_sets)
          then []
          else enforce_cdc_anchor selected

      unfoldable pub select_legal_grounds :
          (support : List (RetrievalTrace N) → List String)
          → ConsumerCaseFacts
          → List (List (RetrievedChunk Metadata N))
          → List (RetrievalTrace N)
          → List (LegalGround Authority)
      select_legal_grounds support facts result_sets traces =
          map (λ pg. pg.1) (cited_grounds support facts result_sets traces)
