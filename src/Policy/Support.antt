-- ===== src/Policy/Support.antt =====
-- `strongly_supported_chunk_ids` of app/consumer/legal_policy.py, the retrieval-agreement gate.
-- Unicode case folding of a query is an argument.
pub mod Agreement
pub mod Laws
use give_exit.Prelude.{
  ℕ, ◌+◌, String, Text, Bool, true, false, not, ◌||◌, ◌&&◌, Option, none, some, List, [], ◌∷◌, ◌++◌,
  leb, ◌==◌, any, codes, words, unwords, text_eq, contains, str_eq, if◌then◌else◌,
}
use give_exit.Prelude.Dict.{Dict, lookup, insert}
use give_exit.Prelude.Sorting.{sort}
use give_exit.Rag.{dense_channel, lexical_channel}
use give_exit.Policy.{ItemTrace, RetrievalTrace, corroboration_rank}
use give_exit.Policy.Aliases.{is_alias_chunk_id}

-- channel_ranks.get(channel, max_rank + 1) <= max_rank
unfoldable pub ranked_within : String → ℕ → Dict ℕ → Bool
ranked_within channel max_rank ranks = elim (lookup channel ranks) [
  | none ↦ leb (max_rank + 1) max_rank
  | some r ↦ leb r max_rank
]

unfoldable pub channels_agree : Dict ℕ → ℕ → Bool
unfolding ranked_within
channels_agree ranks max_rank =
    ranked_within dense_channel max_rank ranks && ranked_within lexical_channel max_rank ranks

abbrev pub is_none {ℓ} : {A : Type ℓ} → Option A → Bool
is_none none = true
is_none (some a) = false

module _ {N : Type 0} where
  -- The order of the key result.rank.
  unfoldable pub item_leb : ItemTrace N → ItemTrace N → Bool
  item_leb a b = leb a.rank b.rank

  -- The loop of `_agreeing_chunk_ids`, with `aliases` alias slots taken.
  unfoldable pub take_agreeing : ℕ → ℕ → ℕ → List (ItemTrace N) → List String
  take_agreeing max_rank alias_cap aliases [] = []
  take_agreeing max_rank alias_cap aliases (i ∷ is) =
      let capped = is_alias_chunk_id i.chunk_id && (aliases == alias_cap) in
      let without_item = take_agreeing max_rank alias_cap aliases is in
      let with_item =
        take_agreeing max_rank alias_cap
          (if is_alias_chunk_id i.chunk_id then aliases + 1 else aliases) is in
      if not (channels_agree i.channel_ranks max_rank) || capped
      then without_item
      else i.chunk_id ∷ with_item

  unfoldable pub agreeing_chunk_ids : RetrievalTrace N → ℕ → ℕ → List String
  agreeing_chunk_ids t max_rank alias_cap =
      take_agreeing max_rank alias_cap 0 (sort item_leb t.results)

  -- The trace shows both channels.
  unfoldable pub is_healthy : RetrievalTrace N → Bool
  is_healthy t = str_eq t.retrieval_mode "hybrid" && is_none t.degraded_mode

  unfoldable pub is_usable : RetrievalTrace N → Bool
  is_usable t = is_none t.error

-- queries.add(key)
unfoldable pub add_key : Text → List Text → List Text
add_key key ks = if any (λ k. text_eq k key) ks then ks else key ∷ ks

abbrev pub or_no_keys : Option (List Text) → List Text
or_no_keys none = []
or_no_keys (some ks) = ks

-- any(left not in right and right not in left for ... in combinations(sorted(queries), 2)); the
-- test is symmetric, so the order of the pairs does not matter.
unfoldable pub has_independent_pair : List Text → Bool
has_independent_pair [] = false
has_independent_pair (q ∷ qs) =
    any (λ r. not (contains q r) && not (contains r q)) qs || has_independent_pair qs

unfoldable pub independently_corroborated : Dict (List Text) → List String
independently_corroborated [] = []
independently_corroborated ((id, ks) ∷ d) =
    let rest = independently_corroborated d in if has_independent_pair ks then id ∷ rest else rest

-- " ".join(query.split()).casefold()
unfoldable pub query_key : (Text → Text) → String → Text
query_key casefold query = casefold (unwords (words (codes query)))

module _ {N : Type 0} where
  -- corroborating_queries.setdefault(item.chunk_id, set()).add(_query_key(trace.query))
  unfoldable pub corroborate : Text → List (ItemTrace N) → Dict (List Text) → Dict (List Text)
  corroborate key [] d = d
  corroborate key (i ∷ is) d = corroborate key is (
      if leb i.rank corroboration_rank
      then insert i.chunk_id (add_key key (or_no_keys (lookup i.chunk_id d))) d
      else d)

module _ (casefold : Text → Text) {N : Type 0} where
  -- One pass of the loop, on the set `supported` and the corroborating queries.
  unfoldable pub read_trace :
      ℕ → ℕ → RetrievalTrace N → List String × Dict (List Text) → List String × Dict (List Text)
  read_trace max_rank alias_cap t (supported, d) =
      if is_usable t
      then if is_healthy t
        then (supported ++ agreeing_chunk_ids t max_rank alias_cap, d)
        else (supported, corroborate (query_key casefold t.query) t.results d)
      else (supported, d)

  unfoldable pub read_traces :
      ℕ
      → ℕ
      → List (RetrievalTrace N)
      → List String × Dict (List Text)
      → List String × Dict (List Text)
  read_traces max_rank alias_cap [] s = s
  read_traces max_rank alias_cap (t ∷ ts) s =
      read_traces max_rank alias_cap ts (read_trace max_rank alias_cap t s)

  unfoldable pub strongly_supported_chunk_ids : ℕ → ℕ → List (RetrievalTrace N) → List String
  strongly_supported_chunk_ids max_rank alias_cap ts =
      let (supported, d) = read_traces max_rank alias_cap ts ([], []) in
      supported ++ independently_corroborated d
