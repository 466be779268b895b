-- ===== src/Policy/Support/Laws.antt =====
-- What all the traces together support: `strongly_supported_chunk_ids` of
-- app/consumer/legal_policy.py against a description per chunk id.
use give_exit.Prelude.{
  ℕ, ◌≡◌, refl, String, Text, Bool, true, false, ◌||◌, ◌&&◌, List, [], ◌∷◌, ◌++◌, leb, any,
  text_eq_refl, str_eq, eq_iff, if◌then◌else◌, arith, Bool-cases, inl, inr,
}
use give_exit.Prelude.Dict.{Dict, lookup, insert, has, lookup-insert}
use give_exit.Prelude.DictLaws.{Distinct, Distinct-insert}
use give_exit.Policy.{ItemTrace, RetrievalTrace, corroboration_rank}
use give_exit.Policy.Support.{
  agreeing_chunk_ids, is_healthy, is_usable, add_key, or_no_keys, has_independent_pair, query_key,
  corroborate, read_trace, read_traces, independently_corroborated, strongly_supported_chunk_ids,
}

-- id in ids
abbrev pub among : String → List String → Bool
among id = any (λ j. str_eq j id)

among-append :
    (id : String) (xs ys : List String) → among id (xs ++ ys) ≡ (among id xs || among id ys)
among-append id [] ys = refl
among-append id (x ∷ xs) ys = ground (arith, among-append id xs ys)

add_key_idem : (key : Text) (ks : List Text) → add_key key (add_key key ks) ≡ add_key key ks
unfolding add_key
add_key_idem key ks = ground (arith, text_eq_refl key)

independently_corroborated-absent :
    (id : String) (d : Dict (List Text))
    → has id d ≡ false
    → among id (independently_corroborated d) ≡ false
unfolding independently_corroborated has
independently_corroborated-absent id [] h = refl
independently_corroborated-absent id ((j, ks) ∷ d) h =
    ground (arith, independently_corroborated-absent id d)

among-independently_corroborated :
    (id : String) (d : Dict (List Text))
    → Distinct d
    → among id (independently_corroborated d) ≡ has_independent_pair (or_no_keys (lookup id d))
unfolding independently_corroborated lookup has_independent_pair
among-independently_corroborated id [] dd = refl
among-independently_corroborated id ((j, ks) ∷ d) dd = ground (
  arith,
  among-independently_corroborated id d dd.1,
  eq_iff j id,
  independently_corroborated-absent id d,
  dd.0,
)

module _ {N : Type 0} (id : String) where
  -- The item names the chunk, in one of its first places.
  abbrev near : ItemTrace N → Bool
  near i = leb i.rank corroboration_rank && str_eq i.chunk_id id

  lookup-corroborate :
      (key : Text) (is : List (ItemTrace N)) (d : Dict (List Text))
      → or_no_keys (lookup id (corroborate key is d))
        ≡ (if any near is then add_key key (or_no_keys (lookup id d)) else or_no_keys (lookup id d))
  unfolding corroborate
  lookup-corroborate key [] d = refl
  lookup-corroborate key (i ∷ is) d = ground (
    arith,
    eq_iff i.chunk_id id,
    add_key_idem key (or_no_keys (lookup id d)),
    lookup-insert i.chunk_id id (add_key key (or_no_keys (lookup i.chunk_id d))) d,
    lookup-corroborate key is d,
    lookup-corroborate key is
        (insert i.chunk_id (add_key key (or_no_keys (lookup i.chunk_id d))) d),
  )

module _ {N : Type 0} where
  Distinct-corroborate :
      (key : Text) (is : List (ItemTrace N)) (d : Dict (List Text))
      → Distinct d
      → Distinct (corroborate key is d)
  unfolding corroborate
  Distinct-corroborate key [] d h = h
  Distinct-corroborate key (i ∷ is) d h = elim (Bool-cases (leb i.rank corroboration_rank)) [
    | inl e ↦ rw e (
        Distinct-corroborate key is
          (insert i.chunk_id (add_key key (or_no_keys (lookup i.chunk_id d))) d)
          (Distinct-insert i.chunk_id _ d h))
    | inr e ↦ rw e (Distinct-corroborate key is d h)
  ]

abbrev supports : String → List String × Dict (List Text) → Bool
supports id s = among id (s.0 ++ independently_corroborated s.1)

module _ (casefold : Text → Text) {N : Type 0} (max_rank alias_cap : ℕ) where
  -- A usable trace with both channels agrees on the chunk.
  abbrev pub agrees : String → RetrievalTrace N → Bool
  agrees id t =
      if is_usable t
      then if is_healthy t then among id (agreeing_chunk_ids t max_rank alias_cap) else false
      else false

  -- The distinct queries of the usable traces without both channels that returned the chunk in
  -- one of the first places, before those of `keys`.
  abbrev pub degraded_queries : String → List (RetrievalTrace N) → List Text → List Text
  degraded_queries id [] keys = keys
  degraded_queries id (t ∷ ts) keys = degraded_queries id ts (
      if is_usable t
      then if is_healthy t
        then keys
        else if any (near id) t.results
        then add_key (query_key casefold t.query) keys
        else keys
      else keys)

  read_trace-unusable :
      (t : RetrievalTrace N) (s : List String × Dict (List Text))
      → is_usable t ≡ false
      → read_trace casefold max_rank alias_cap t s ≡ s
  unfolding read_trace
  read_trace-unusable t (supported, d) u = rw u refl

  read_trace-healthy :
      (t : RetrievalTrace N) (s : List String × Dict (List Text))
      → is_usable t ≡ true
      → is_healthy t ≡ true
      → read_trace casefold max_rank alias_cap t s
        ≡ (s.0 ++ agreeing_chunk_ids t max_rank alias_cap, s.1)
  unfolding read_trace
  read_trace-healthy t (supported, d) u h = rw u (rw h refl)

  read_trace-degraded :
      (t : RetrievalTrace N) (s : List String × Dict (List Text))
      → is_usable t ≡ true
      → is_healthy t ≡ false
      → read_trace casefold max_rank alias_cap t s
        ≡ (s.0, corroborate (query_key casefold t.query) t.results s.1)
  unfolding read_trace
  read_trace-degraded t (supported, d) u h = rw u (rw h refl)

  read_traces_lem :
      (id : String) (ts : List (RetrievalTrace N)) (s : List String × Dict (List Text))
      → Distinct s.1
      → supports id (read_traces casefold max_rank alias_cap ts s) ≡ (
          (among id s.0 || any (agrees id) ts)
          || has_independent_pair (degraded_queries id ts (or_no_keys (lookup id s.1))))
  unfolding read_traces
  read_traces_lem id [] s dd = ground (
    arith,
    among-append id s.0 (independently_corroborated s.1),
    among-independently_corroborated id s.1 dd,
  )
  read_traces_lem id (t ∷ ts) s dd = elim (Bool-cases (is_usable t)) [
    | inl u ↦ elim (Bool-cases (is_healthy t)) [
      | inl h ↦ ground (
        arith,
        u,
        h,
        read_trace-healthy t s u h,
        among-append id s.0 (agreeing_chunk_ids t max_rank alias_cap),
        read_traces_lem id ts (s.0 ++ agreeing_chunk_ids t max_rank alias_cap, s.1) dd,
      )
      | inr h ↦ ground (
        arith,
        u,
        h,
        read_trace-degraded t s u h,
        lookup-corroborate id (query_key casefold t.query) t.results s.1,
        read_traces_lem id ts (s.0, corroborate (query_key casefold t.query) t.results s.1)
            (Distinct-corroborate (query_key casefold t.query) t.results s.1 dd),
      )
    ]
    | inr u ↦ ground (arith, u, read_trace-unusable t s u, read_traces_lem id ts s dd)
  ]

  -- The supported chunks are those on which a usable trace with both channels agrees, and those
  -- that two of the other usable traces returned among the first three results for queries of
  -- which neither contains the other.
  pub strongly_supported_chunk_ids_lem :
      (id : String) (ts : List (RetrievalTrace N))
      → among id (strongly_supported_chunk_ids casefold max_rank alias_cap ts)
        ≡ (any (agrees id) ts || has_independent_pair (degraded_queries id ts []))
  unfolding strongly_supported_chunk_ids lookup
  strongly_supported_chunk_ids_lem id ts = read_traces_lem id ts ([], []) tt
