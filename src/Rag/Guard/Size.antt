-- ===== src/Rag/Guard/Size.antt =====
-- How large the query vector cache of `QueryEmbeddingGuard` grows.
use give_exit.Prelude.{
  ℕ, ◌+◌, ◌≤◌, ◌≡◌, refl, inl, inr, String, Option, none, some, List, [], ◌∷◌, length,
  length-append, arith, Bool-cases,
}
use native.Mathlib.Nat.{le_trans}
use give_exit.Prelude.Dict.{Dict, lookup, without, length-without_le}
use give_exit.Prelude.DictLaws.{length-without-has, has-of_lookup}
use give_exit.Store.Bounds.{length-evict_front_le}
use give_exit.Rag.Guard.{
  Settings, Outcome, embedded, unavailable, cache_is_off, cached_vector, fresh_vector, store_cache,
  read_cache, fill, embed, filled, completed_batch,
}

module _ {V : Type 0} (sha256_hex : String → String) (c : Settings) where
  length-store_cache :
      (q : String) (v : V) (now : ℕ) (cache : Dict (ℕ × V))
      → length cache ≤ c.cache_max_entries
      → length (store_cache sha256_hex c q v now cache) ≤ c.cache_max_entries
  unfolding store_cache
  length-store_cache q v now cache h = elim (Bool-cases (cache_is_off c)) [
    | inl o ↦ rw o h
    | inr o ↦ rw o (length-evict_front_le c.cache_max_entries _)
  ]

  length-fresh_vector :
      (key : String) (now : ℕ) (cache : Dict (ℕ × V)) (found : Option (ℕ × V))
      → lookup key cache ≡ found
      → length (fresh_vector key now cache found).1 ≤ length cache
  length-fresh_vector key now cache none l = omega arith
  length-fresh_vector key now cache (some (e, v)) l =
      let present = has-of_lookup key cache (e, v) l in
      ground (
        arith,
        length-without-has key cache present,
        length-without_le key cache,
        length-append (without key cache) ((key, (e, v)) ∷ []),
      )

  length-cached_vector :
      (q : String) (now : ℕ) (cache : Dict (ℕ × V))
      → length (cached_vector sha256_hex c q now cache).1 ≤ length cache
  unfolding cached_vector
  length-cached_vector q now cache = elim (Bool-cases (cache_is_off c)) [
    | inl o ↦ rw o (omega arith)
    | inr o ↦ rw o (length-fresh_vector (sha256_hex q) now cache (lookup (sha256_hex q) cache) refl)
  ]

  length-read_cache :
      (now : ℕ) (qs : List String) (cache : Dict (ℕ × V))
      → length (read_cache sha256_hex c now qs cache).1 ≤ length cache
  unfolding read_cache
  length-read_cache now [] cache = omega arith
  length-read_cache now (q ∷ qs) cache =
      le_trans (length-read_cache now qs _) (length-cached_vector q now cache)

  length-fill :
      (qs : List String) (vs : List (Option V)) (es : List V) (clock : ℕ → ℕ) (cache : Dict (ℕ × V))
      → length cache ≤ c.cache_max_entries
      → length (fill sha256_hex c qs vs es clock cache).1 ≤ c.cache_max_entries
  unfolding fill
  length-fill [] vs [] clock cache h = h
  length-fill [] vs (e ∷ es) clock cache h = h
  length-fill (q ∷ qs) [] es clock cache h = h
  length-fill (q ∷ qs) (none ∷ vs) [] clock cache h = h
  length-fill (q ∷ qs) (none ∷ vs) (e ∷ es) clock cache h =
      length-fill qs vs es (λ i. clock (i + 1)) _ (length-store_cache q e (clock 0) cache h)
  length-fill (q ∷ qs) (some v ∷ vs) es clock cache h = length-fill qs vs es clock cache h

  length-completed_batch :
      (p : Option (List V) × Dict (ℕ × V)) → length (completed_batch p).1 ≡ length p.1
  length-completed_batch (none, d) = refl
  length-completed_batch (some vs, d) = refl

  length-filled :
      (qs : List String) (vs : List (Option V)) (clock : ℕ → ℕ) (answer : Outcome (List V))
      (cache : Dict (ℕ × V))
      → length cache ≤ c.cache_max_entries
      → length (filled sha256_hex c qs vs clock answer cache).1 ≤ c.cache_max_entries
  length-filled qs vs clock (embedded es) cache h =
      rw (length-completed_batch (fill sha256_hex c qs vs es clock cache))
        (length-fill qs vs es clock cache h)
  length-filled qs vs clock (unavailable e) cache h = h

  -- A cache within its limit stays within it, whatever the embedder answers.
  pub length-embed :
      (now : ℕ) (clock : ℕ → ℕ) (embed_uncached : List String → Outcome (List V))
      (queries : List String) (cache : Dict (ℕ × V))
      → length cache ≤ c.cache_max_entries
      → length (embed sha256_hex c now clock embed_uncached queries cache).1 ≤ c.cache_max_entries
  unfolding embed
  length-embed now clock embed_uncached queries cache h =
      length-filled queries _ clock _ _ (le_trans (length-read_cache now queries cache) h)
