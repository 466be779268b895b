-- ===== src/Grounds/Merge/Members.antt =====
-- What holds of every retrieved chunk holds of the merged ones: app/consumer/ground_selection.py.
use give_exit.Prelude.{Bool-cases, inl, inr, List, [], ◌∷◌, map, All}
use give_exit.Prelude.Dict.{Dict, lookup, insert}
use give_exit.Prelude.DictLaws.{All-insert}
use give_exit.Prelude.Sorting.{All-sort}
use give_exit.Prelude.Score.{Score}
use give_exit.Rag.{Chunk, RetrievedChunk}
use give_exit.Rag.Fusion.{rank_leb}
use give_exit.Grounds.Merge.{improves, keep_best, keep_best_of_all, merge_results}

module _ {Metadata N : Type 0} ⦃s : Score N⦄ (P : Chunk Metadata → Type 0) where
  abbrev AllKept : Dict (RetrievedChunk Metadata N) → Type 0
  AllKept = All (λ kv. P kv.1.chunk)

  keep_best-All :
      (rs : List (RetrievedChunk Metadata N)) (d : Dict (RetrievedChunk Metadata N))
      → All (λ r. P r.chunk) rs
      → AllKept d
      → AllKept (keep_best rs d)
  unfolding keep_best
  keep_best-All [] d h k = k
  keep_best-All (r ∷ rs) d h k = elim (Bool-cases (improves r (lookup r.chunk.chunk_id d))) [
    | inl b ↦ rw b (
        keep_best-All rs (insert r.chunk.chunk_id r d) h.1
          (All-insert (λ kv. P kv.1.chunk) r.chunk.chunk_id r d (λ j e. h.0) k))
    | inr b ↦ rw b (keep_best-All rs d h.1 k)
  ]

  keep_best_of_all-All :
      (sets : List (List (RetrievedChunk Metadata N))) (d : Dict (RetrievedChunk Metadata N))
      → All (All (λ r. P r.chunk)) sets
      → AllKept d
      → AllKept (keep_best_of_all sets d)
  unfolding keep_best_of_all
  keep_best_of_all-All [] d h k = k
  keep_best_of_all-All (rs ∷ sets) d h k =
      keep_best_of_all-All sets (keep_best rs d) h.1 (keep_best-All rs d h.0 k)

  values-All :
      (d : Dict (RetrievedChunk Metadata N)) → AllKept d → All (λ r. P r.chunk) (map (λ kv. kv.1) d)
  values-All [] h = tt
  values-All (kv ∷ d) h = (h.0, values-All d h.1)

  pub merge_results-All :
      (sets : List (List (RetrievedChunk Metadata N)))
      → All (All (λ r. P r.chunk)) sets
      → All (λ r. P r.chunk) (merge_results sets)
  unfolding merge_results
  merge_results-All sets h =
      All-sort rank_leb (λ r. P r.chunk) _
        (values-All (keep_best_of_all sets []) (keep_best_of_all-All sets [] h tt))
