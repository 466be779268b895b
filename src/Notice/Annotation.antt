-- ===== src/Notice/Annotation.antt =====
-- `_annotate_composer_selection` of app/consumer/service.py: which ranked hits became inputs of the
-- notice. The agent status and the prompt version, which are the same in every trace, are left
-- out.
pub mod Winners
pub mod Selected
use give_exit.Prelude.{
  ℕ, ◌+◌, String, Bool, true, false, not, ◌==◌, ◌&&◌, Option, none, some, List, [], ◌∷◌, map, any,
  str_eq, if◌then◌else◌,
}
use give_exit.Prelude.Dict.{Dict, lookup, insert}
use give_exit.Prelude.Score.{Score}
use give_exit.Rag.{RetrievedChunk}
use give_exit.Policy.{ItemTrace, RetrievalTrace}

pub record AnnotatedItem (N : Type 0) : Type 0 where
  pub item : ItemTrace N
  pub selected_for_merge : Bool
  pub merged_rank : Option ℕ
  pub included_in_context : Bool

pub record AnnotatedTrace (N : Type 0) : Type 0 where
  pub trace : RetrievalTrace N
  pub context_truncated : Bool
  pub results : List (AnnotatedItem N)

-- The place of a hit, by trace and rank, and its score.
pub record Winner (N : Type 0) : Type 0 where
  pub trace_index : ℕ
  pub rank : ℕ
  pub score : N

unfoldable pub merged_ranks :
    {Metadata N : Type 0} → ℕ → List (RetrievedChunk Metadata N) → Dict ℕ → Dict ℕ
unfolding insert
merged_ranks rank [] d = d
merged_ranks rank (i ∷ is) d = merged_ranks (rank + 1) is (insert i.chunk.chunk_id rank d)

unfoldable pub is_winner : {N : Type 0} → ℕ → ℕ → Option (Winner N) → Bool
is_winner trace_index rank none = false
is_winner trace_index rank (some w) = (w.trace_index == trace_index) && (w.rank == rank)

abbrev pub is_member : List String → String → Bool
is_member cs c = any (λ d. str_eq d c) cs

module _ {N : Type 0} ⦃s : Score N⦄ where
  -- current is None or item.score > current[2]
  unfoldable pub wins : N → Option (Winner N) → Bool
  wins score none = true
  wins score (some w) = not (s.score_leb score w.score)

  unfoldable pub win_items : ℕ → List (ItemTrace N) → Dict (Winner N) → Dict (Winner N)
  unfolding wins lookup insert
  win_items t [] d = d
  win_items t (i ∷ is) d = win_items t is (
      if wins i.score (lookup i.chunk_id d)
      then insert i.chunk_id (record { trace_index = t; rank = i.rank; score = i.score }) d
      else d)

  unfoldable pub win_traces : ℕ → List (RetrievalTrace N) → Dict (Winner N) → Dict (Winner N)
  unfolding win_items
  win_traces t [] d = d
  win_traces t (x ∷ xs) d = win_traces (t + 1) xs (win_items t x.results d)

module _ {N : Type 0} (winners : Dict (Winner N)) (ranks : Dict ℕ) (included : List String) where
  unfoldable pub annotated_item : ℕ → ItemTrace N → AnnotatedItem N
  unfolding is_winner lookup
  annotated_item t i =
      let selected = is_winner t i.rank (lookup i.chunk_id winners) in
      record {
        item = i;
        selected_for_merge = selected;
        merged_rank = lookup i.chunk_id ranks;
        included_in_context = selected && is_member included i.chunk_id;
      }

  unfoldable pub annotated_traces : Bool → ℕ → List (RetrievalTrace N) → List (AnnotatedTrace N)
  unfolding annotated_item
  annotated_traces truncated t [] = []
  annotated_traces truncated t (x ∷ xs) =
      record {
        trace = x;
        context_truncated = truncated;
        results = map (λ i. annotated_item t i) x.results;
      }
      ∷ annotated_traces truncated (t + 1) xs

unfoldable pub annotate_composer_selection :
    {Metadata N : Type 0} ⦃s : Score N⦄
    → List (RetrievalTrace N)
    → List (RetrievedChunk Metadata N)
    → List String
    → List (AnnotatedTrace N)
unfolding merged_ranks win_traces annotated_traces
annotate_composer_selection traces merged included =
    annotated_traces (win_traces 0 traces []) (merged_ranks 1 merged []) included
      (any (λ i. not (is_member included i.chunk.chunk_id)) merged) 0 traces
