-- ===== src/Grounds/Merge.antt =====
-- `merge_results`, `chunk_query_occurrences` and `_score_floor` of
-- app/consumer/ground_selection.py.
pub mod Members
use give_exit.Prelude.{
  ℕ, String, Bool, true, false, ◌==◌, ◌&&◌, Option, none, some, List, [], ◌∷◌, map, length, any,
  all, str_eq, if◌then◌else◌,
}
use give_exit.Prelude.Dict.{Dict, lookup, insert}
use give_exit.Prelude.Sorting.{sort}
use give_exit.Prelude.Score.{Score}
use give_exit.Rag.{RetrievedChunk}
use give_exit.Rag.Fusion.{rank_leb}
use give_exit.Policy.{ItemTrace, RetrievalTrace}
use give_exit.Policy.Support.{is_usable}

module _ {Metadata N : Type 0} ⦃s : Score N⦄ where
  -- current is None or result.score > current.score
  unfoldable pub improves : RetrievedChunk Metadata N → Option (RetrievedChunk Metadata N) → Bool
  improves result none = true
  improves result (some current) = if s.score_leb result.score current.score then false else true

  -- The inner loop, on `best`.
  unfoldable pub keep_best :
      List (RetrievedChunk Metadata N)
      → Dict (RetrievedChunk Metadata N)
      → Dict (RetrievedChunk Metadata N)
  unfolding improves
  keep_best [] best = best
  keep_best (r ∷ rs) best =
      keep_best rs
        (if improves r (lookup r.chunk.chunk_id best) then insert r.chunk.chunk_id r best else best)

  unfoldable pub keep_best_of_all :
      List (List (RetrievedChunk Metadata N))
      → Dict (RetrievedChunk Metadata N)
      → Dict (RetrievedChunk Metadata N)
  unfolding keep_best
  keep_best_of_all [] best = best
  keep_best_of_all (rs ∷ sets) best = keep_best_of_all sets (keep_best rs best)

  unfoldable pub merge_results :
      List (List (RetrievedChunk Metadata N)) → List (RetrievedChunk Metadata N)
  unfolding keep_best_of_all
  merge_results sets = sort rank_leb (map (λ kv. kv.1) (keep_best_of_all sets []))

-- A query, by the batch and its place in it.
abbrev pub same_query : String × ℕ → String × ℕ → Bool
same_query q r = str_eq q.0 r.0 && (q.1 == r.1)

-- occurrences.setdefault(item.chunk_id, set()).add(query_key)
unfoldable pub add_query : String × ℕ → Option (List (String × ℕ)) → List (String × ℕ)
add_query q none = q ∷ []
add_query q (some qs) = if any (same_query q) qs then qs else q ∷ qs

module _ {N : Type 0} where
  unfoldable pub count_items :
      String × ℕ → List (ItemTrace N) → Dict (List (String × ℕ)) → Dict (List (String × ℕ))
  unfolding add_query
  count_items q [] d = d
  count_items q (i ∷ is) d =
      count_items q is (insert i.chunk_id (add_query q (lookup i.chunk_id d)) d)

  unfoldable pub count_traces :
      List (RetrievalTrace N) → Dict (List (String × ℕ)) → Dict (List (String × ℕ))
  unfolding count_items
  count_traces [] d = d
  count_traces (t ∷ ts) d =
      count_traces ts
        (if is_usable t then count_items (t.batch_id, t.query_index) t.results d else d)

  unfoldable pub chunk_query_occurrences : List (RetrievalTrace N) → Dict ℕ
  unfolding count_traces
  chunk_query_occurrences ts = map (λ kv. (kv.0, length kv.1)) (count_traces ts [])

-- `_score_floor`; `none` is minus infinity, `half` multiplies by 0.5.
module _ {Metadata N : Type 0} ⦃s : Score N⦄ (half : N → N) where
  unfoldable pub positive_floor : List (RetrievedChunk Metadata N) → Option N
  positive_floor [] = none
  positive_floor (best ∷ rest) =
      if s.score_leb best.score s.zero_score then none else some (half best.score)

  unfoldable pub score_floor : List (RetrievedChunk Metadata N) → List (RetrievalTrace N) → Option N
  unfolding positive_floor
  score_floor merged traces =
      if all (λ t. if is_usable t then str_eq t.score_type "rrf_score" else true) traces
      then none
      else positive_floor merged

-- score < floor
unfoldable pub is_below : {N : Type 0} ⦃s : Score N⦄ → N → Option N → Bool
is_below score none = false
is_below ⦃s⦄ score (some floor) = if s.score_leb floor score then false else true
