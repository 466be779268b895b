-- ===== src/Notice/Annotation/Selected.antt =====
-- One selected place for every chunk: `_annotate_composer_selection` of app/consumer/service.py.
use give_exit.Prelude.{
  ℕ, ◌+◌, ◌≡◌, sym, ap, ◌∙◌, inl, inr, String, Bool, true, not, ◌==◌, ==_iff, ◌&&◌, Option, none,
  some, List, [], ◌∷◌, map, any, arith, All, Any, Any-map,
}
use give_exit.Prelude.Dict.{Dict, lookup}
use give_exit.Prelude.Score.{Score}
use give_exit.Rag.{RetrievedChunk}
use give_exit.Policy.{ItemTrace, RetrievalTrace}
use give_exit.Notice.Annotation.{
  AnnotatedItem, AnnotatedTrace, Winner, merged_ranks, is_winner, is_member, win_traces,
  annotated_item, annotated_traces, annotate_composer_selection,
}
use give_exit.Notice.Annotation.Winners.{
  Somewhere, Everywhere, Everywhere-map, Everywhere-self, Any-mapped, win_traces-IsBeaten, IsReal,
  win_traces-IsReal,
}

-- Every annotated item, with the index of its trace.
abbrev pub EveryMark :
    {N : Type 0} → (ℕ → AnnotatedItem N → Type 0) → ℕ → List (AnnotatedTrace N) → Type 0
EveryMark Q n [] = Unit
EveryMark Q n (t ∷ ts) = All (Q n) t.results × EveryMark Q (n + 1) ts

-- Two tests on a place tell which place it is.
same_place : (a b c d : ℕ) → ((a == b) && (c == d)) ≡ true → (a ≡ b) × (c ≡ d)
same_place a b c d h = ground (arith, h, ==_iff a b, ==_iff c d)

same_place_refl : (a b c d : ℕ) → a ≡ b → c ≡ d → ((a == b) && (c == d)) ≡ true
same_place_refl a b c d h k = ground (arith, h, k, ==_iff a b, ==_iff c d)

abbrev place_of : {N : Type 0} → Option (Winner N) → Option (ℕ × ℕ)
place_of none = none
place_of (some w) = some (w.trace_index, w.rank)

is_winner-place_of :
    {N : Type 0} (t rank : ℕ) (o : Option (Winner N))
    → is_winner t rank o ≡ true
    → place_of o ≡ some (t, rank)
unfolding is_winner
is_winner-place_of t rank none h = cc
is_winner-place_of t rank (some w) h =
    let (same, equal) = same_place w.trace_index t w.rank rank h in cc

both : (a b : Bool) → (a && b) ≡ true → (a ≡ true) × (b ≡ true)
both a b h = ground (arith, h)

-- A selected mark is at the place of its chunk; an included one is selected and cited.
abbrev pub IsPlaced :
    {N : Type 0} → List String → (String → Option (ℕ × ℕ)) → ℕ → AnnotatedItem N → Type 0
IsPlaced included place j a =
    (a.selected_for_merge ≡ true → place a.item.chunk_id ≡ some (j, a.item.rank))
    × (a.included_in_context ≡ true
        → (a.selected_for_merge ≡ true) × (is_member included a.item.chunk_id ≡ true))

Somewhere-map :
    {N : Type 0} (P Q : ℕ → ItemTrace N → Type 0) (n : ℕ) (ts : List (RetrievalTrace N))
    → ((j : ℕ) (x : ItemTrace N) → P j x → Q j x)
    → Somewhere P n ts
    → Somewhere Q n ts
Somewhere-map P Q n [] f h = h
Somewhere-map P Q n (t ∷ ts) f (inl h) = inl (Any-map (P n) (Q n) t.results (f n) h)
Somewhere-map P Q n (t ∷ ts) f (inr h) = inr (Somewhere-map P Q (n + 1) ts f h)

module _ {N : Type 0} (winners : Dict (Winner N)) (ranks : Dict ℕ) (included : List String) where
  -- What holds of some place holds of its mark.
  annotated-Somewhere :
      (Q : ℕ → ItemTrace N → Type 0) (R : AnnotatedItem N → Type 0) (b : Bool) (n : ℕ)
      (ts : List (RetrievalTrace N))
      → ((j : ℕ) (y : ItemTrace N) → Q j y → R (annotated_item winners ranks included j y))
      → Somewhere Q n ts
      → Any (λ t. Any R t.results) (annotated_traces winners ranks included b n ts)
  unfolding annotated_traces
  annotated-Somewhere Q R b n [] f h = h
  annotated-Somewhere Q R b n (t ∷ ts) f (inl h) = inl (Any-mapped (Q n) R _ t.results (f n) h)
  annotated-Somewhere Q R b n (t ∷ ts) f (inr h) = inr (annotated-Somewhere Q R b (n + 1) ts f h)

  all-IsPlaced :
      (j : ℕ) (is : List (ItemTrace N))
      → All
          (IsPlaced included (λ c. place_of (lookup c winners)) j)
          (map (λ i. annotated_item winners ranks included j i) is)
  unfolding annotated_item
  all-IsPlaced j [] = tt
  all-IsPlaced j (i ∷ is) = (
    ((λ e. is_winner-place_of j i.rank (lookup i.chunk_id winners) e), (λ e. both _ _ e)),
    all-IsPlaced j is,
  )

  EveryMark-IsPlaced :
      (b : Bool) (n : ℕ) (ts : List (RetrievalTrace N))
      → EveryMark
          (IsPlaced included (λ c. place_of (lookup c winners)))
          n
          (annotated_traces winners ranks included b n ts)
  unfolding annotated_traces
  EveryMark-IsPlaced b n [] = tt
  EveryMark-IsPlaced b n (t ∷ ts) = (all-IsPlaced n t.results, EveryMark-IsPlaced b (n + 1) ts)

module _ {N : Type 0} ⦃s : Score N⦄ where
  -- A hit of the chunk at the place of its winner, and with its score.
  abbrev IsHit : String → Winner N → ℕ → ItemTrace N → Type 0
  IsHit c w j y = (y.chunk_id ≡ c) × (j ≡ w.trace_index) × (y.rank ≡ w.rank) × (y.score ≡ w.score)

  all-IsReal :
      (ts : List (RetrievalTrace N))
      → IsReal (λ c w. Somewhere (IsHit c w) 0 ts) (win_traces 0 ts [])
  unfolding lookup
  all-IsReal ts =
      win_traces-IsReal (λ c w. Somewhere (IsHit c w) 0 ts) 0 ts []
        (Everywhere-map _ _ 0 ts
          (λ j x h.
            Somewhere-map _ _ 0 ts
              (λ k y (e, same). (
                ap (λ (z : ItemTrace N). z.chunk_id) same,
                e,
                ap (λ (z : ItemTrace N). z.rank) same,
                ap (λ (z : ItemTrace N). z.score) same,
              ))
              h)
          (Everywhere-self 0 ts))
        (λ c w e. cc)

  -- A selected hit of the chunk, with this score at least.
  abbrev pub IsSelected : String → N → AnnotatedItem N → Type 0
  IsSelected c score a =
      (a.item.chunk_id ≡ c)
      × (s.score_leb score a.item.score ≡ true)
      × (a.selected_for_merge ≡ true)

  hit-IsSelected :
      (winners : Dict (Winner N)) (ranks : Dict ℕ) (included : List String) (c : String) (score : N)
      (w : Winner N)
      → lookup c winners ≡ some w
      → s.score_leb score w.score ≡ true
      → (j : ℕ) (y : ItemTrace N) → IsHit c w j y
      → IsSelected c score (annotated_item winners ranks included j y)
  unfolding annotated_item is_winner
  hit-IsSelected winners ranks included c score w found below j y (chunk, place, rank, equal) =
      let at : lookup y.chunk_id winners ≡ some w = ap (λ x. lookup x winners) chunk ∙ found in
      (
        chunk,
        rw equal below,
        rw at (same_place_refl w.trace_index j w.rank y.rank (sym place) (sym rank)),
      )

  module _ {Metadata : Type 0} where
    -- Every chunk that some query returned has a selected hit whose score no other hit of the
    -- chunk exceeds, and only one place of a chunk is selected, by trace and rank; what is marked
    -- as included in the context is selected and its chunk became a citation.
    pub annotate_composer_selection_lem :
        (traces : List (RetrievalTrace N)) (merged : List (RetrievedChunk Metadata N))
        (included : List String)
        → Everywhere
            (λ n x.
              Any
                (λ t. Any (IsSelected x.chunk_id x.score) t.results)
                (annotate_composer_selection traces merged included))
            0
            traces
          × ((place : String → Option (ℕ × ℕ)) × EveryMark
                (IsPlaced included place)
                0
                (annotate_composer_selection traces merged included))
    unfolding annotate_composer_selection
    annotate_composer_selection_lem traces merged included =
        let winners = win_traces 0 traces [] in
        let ranks = merged_ranks 1 merged [] in
        let truncated = any (λ i. not (is_member included i.chunk.chunk_id)) merged in
        (
          Everywhere-map _ _ 0 traces
              (λ n x (w, found, below).
                annotated-Somewhere winners ranks included (IsHit x.chunk_id w)
                  (IsSelected x.chunk_id x.score) truncated 0 traces
                  (hit-IsSelected winners ranks included x.chunk_id x.score w found below)
                  (all-IsReal traces x.chunk_id w found))
              (win_traces-IsBeaten 0 traces []),
          (
            (λ c. place_of (lookup c winners)),
            EveryMark-IsPlaced winners ranks included truncated 0 traces,
          ),
        )
