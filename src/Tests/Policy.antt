-- ===== src/Tests/Policy.antt =====
-- Runs of the citation policy, app/consumer/legal_policy.py.
use give_exit.Prelude.{
  ℕ, ◌≡◌, ◌≤◌, true, false, not, String, none, some, List, [], ◌∷◌, ◌||◌, length, filter, any, take,
  arith,
}
use give_exit.Prelude.Sorting.{sort}
use give_exit.Policy.{
  ItemTrace, RetrievalTrace, LegalSource, federal_constitution, data_protection_law, civil_code,
  active, indexed, LegalProvision,
}
use give_exit.Policy.Aliases.{is_alias_chunk_id}
use give_exit.Policy.Window.{precedence_window}
use give_exit.Policy.Window.Laws.{precedence_window_lem}
use give_exit.Policy.Support.{
  strongly_supported_chunk_ids, agreeing_chunk_ids, has_independent_pair, item_leb,
}
use give_exit.Policy.Support.Agreement.{ids, agreeing_items, agreeing_chunk_ids_lem}
use give_exit.Policy.Support.Laws.{
  among, agrees, degraded_queries, strongly_supported_chunk_ids_lem,
}

abbrev pub provision : LegalSource → LegalProvision
provision source = record {
  provision_id = "p";
  source = source;
  status = active;
  citation_label = "art. 1";
  index_scope = indexed;
  part = none;
  book = none;
  title = none;
  chapter = none;
}

abbrev offered : List (LegalProvision × ℕ)
offered =
    (provision civil_code, 1)
    ∷ (provision data_protection_law, 2)
    ∷ (provision federal_constitution, 3)
    ∷ []

precedence_window_example : length (precedence_window 2 false offered) ≤ 2
precedence_window_example = (precedence_window_lem 2 false offered (omega arith)).0

abbrev item : ℕ → String → ItemTrace ℕ
item rank id = record {
  rank = rank;
  chunk_id = id;
  score = 1;
  channel_ranks = ("dense", 1) ∷ ("lexical", 2) ∷ [];
}

abbrev trace : RetrievalTrace ℕ
trace = record {
  batch_id = "b";
  query_index = 0;
  query = "cobranca";
  retrieval_mode = "hybrid";
  score_type = "rrf_score";
  degraded_mode = none;
  error = none;
  results = item 1 "c1" ∷ item 2 "c2" ∷ [];
}

agreeing_chunk_ids_example :
    (filter (λ id. not (is_alias_chunk_id id)) (agreeing_chunk_ids trace 10 3)
      ≡ ids (agreeing_items 10 false (sort item_leb trace.results)))
    × (filter is_alias_chunk_id (agreeing_chunk_ids trace 10 3)
        ≡ take 3 (ids (agreeing_items 10 true (sort item_leb trace.results))))
agreeing_chunk_ids_example = agreeing_chunk_ids_lem trace 10 3

abbrev lexical : String → RetrievalTrace ℕ
lexical query = record trace { query = query; degraded_mode = some "lexical_only" }

strongly_supported_chunk_ids_example :
    among "c1"
      (strongly_supported_chunk_ids (λ t. t) 10 3 (lexical "juros" ∷ lexical "fraude" ∷ []))
    ≡ (any (agrees (λ t. t) 10 3 "c1") (lexical "juros" ∷ lexical "fraude" ∷ [])
        || has_independent_pair
            (degraded_queries (λ t. t) 10 3 "c1" (lexical "juros" ∷ lexical "fraude" ∷ []) []))
strongly_supported_chunk_ids_example =
    strongly_supported_chunk_ids_lem (λ t. t) 10 3 "c1" (lexical "juros" ∷ lexical "fraude" ∷ [])
