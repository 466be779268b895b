-- ===== src/Rag/Guard/Cache.antt =====
-- The query vector cache of `QueryEmbeddingGuard`: what `embed` returns, and the cache's size.
use give_exit.Prelude.{
  ℕ, ◌+◌, ◌≡◌, refl, sym, ◌∙◌, inl, inr, String, Option, none, some, List, [], ◌∷◌, map, length,
  ltb, leb, All, All-append, eq_iff, arith, Bool-cases,
}
use give_exit.Prelude.Dict.{Dict, lookup, without}
use give_exit.Prelude.DictLaws.{All-without, All-lookup}
use give_exit.Store.Defs.{evict_front}
use give_exit.Rag.Guard.{
  Settings, Outcome, embedded, cache_is_off, cached_vector, fresh_vector, store_cache, read_cache,
  missing_queries, fill, embed, answer_for, completed_batch,
}

module _ {V : Type 0} (sha256_hex : String → String) (c : Settings) (f : String → V)
    (no_collision : (q r : String) → sha256_hex q ≡ sha256_hex r → f q ≡ f r) where
  -- The cached vector is the one that the embedder gives for every query with the entry's key.
  abbrev IsOf : String × (ℕ × V) → Type 0
  IsOf (k, (e, v)) = (q : String) → sha256_hex q ≡ k → v ≡ f q

  evict_front-IsOf : (n : ℕ) (d : Dict (ℕ × V)) → All IsOf d → All IsOf (evict_front n d)
  unfolding evict_front
  evict_front-IsOf n [] h = tt
  evict_front-IsOf n (kv ∷ d) h = elim (Bool-cases (ltb n (length (kv ∷ d)))) [
    | inl e ↦ rw e (evict_front-IsOf n d h.1)
    | inr e ↦ rw e h
  ]

  store_cache-IsOf :
      (q : String) (now : ℕ) (cache : Dict (ℕ × V))
      → All IsOf cache
      → All IsOf (store_cache sha256_hex c q (f q) now cache)
  unfolding store_cache
  store_cache-IsOf q now cache h = elim (Bool-cases (cache_is_off c)) [
    | inl o ↦ rw o h
    | inr o ↦ rw o (
        evict_front-IsOf c.cache_max_entries _ (
          All-append IsOf (without (sha256_hex q) cache) _ (All-without IsOf (sha256_hex q) cache h)
            ((λ r e. no_collision q r (sym e)), tt)))
  ]

  -- A vector read from the cache is the query's.
  abbrev IsAnswer : String → Option V → Type 0
  IsAnswer q none = Unit
  IsAnswer q (some v) = v ≡ f q

  IsOf-found :
      (q : String) (d : Dict (ℕ × V)) (e : ℕ) (v : V)
      → All IsOf d
      → lookup (sha256_hex q) d ≡ some (e, v)
      → (q' : String) → sha256_hex q' ≡ sha256_hex q
      → v ≡ f q'
  IsOf-found q d e v h l =
      let (j, same, right) = All-lookup IsOf (sha256_hex q) d h l in
      λ q' k. right q' (k ∙ sym ((eq_iff j (sha256_hex q)).0 same))

  fresh_vector-IsAnswer :
      (q : String) (now : ℕ) (cache : Dict (ℕ × V)) (found : Option (ℕ × V))
      → lookup (sha256_hex q) cache ≡ found
      → All IsOf cache
      → IsAnswer q (fresh_vector (sha256_hex q) now cache found).0
        × All IsOf (fresh_vector (sha256_hex q) now cache found).1
  fresh_vector-IsAnswer q now cache none l h = (tt, h)
  fresh_vector-IsAnswer q now cache (some (e, v)) l h =
      let right = IsOf-found q cache e v h l in
      elim (Bool-cases (leb e now)) [
        | inl t ↦ rw t (tt, All-without IsOf (sha256_hex q) cache h)
        | inr t ↦ rw t (
          right q refl,
          All-append IsOf (without (sha256_hex q) cache) _ (All-without IsOf (sha256_hex q) cache h)
              (right, tt),
        )
      ]

  cached_vector-IsAnswer :
      (q : String) (now : ℕ) (cache : Dict (ℕ × V))
      → All IsOf cache
      → IsAnswer q (cached_vector sha256_hex c q now cache).0
        × All IsOf (cached_vector sha256_hex c q now cache).1
  unfolding cached_vector
  cached_vector-IsAnswer q now cache h = elim (Bool-cases (cache_is_off c)) [
    | inl o ↦ rw o (tt, h)
    | inr o ↦ rw o (fresh_vector-IsAnswer q now cache (lookup (sha256_hex q) cache) refl h)
  ]

  -- Each vector read is the query's, or is missing.
  abbrev AreAnswers : List String → List (Option V) → Type 0
  AreAnswers [] [] = Unit
  AreAnswers [] (v ∷ vs) = ⊥
  AreAnswers (q ∷ qs) [] = ⊥
  AreAnswers (q ∷ qs) (v ∷ vs) = IsAnswer q v × AreAnswers qs vs

  read_cache-AreAnswers :
      (now : ℕ) (qs : List String) (cache : Dict (ℕ × V))
      → All IsOf cache
      → AreAnswers qs (read_cache sha256_hex c now qs cache).0
        × All IsOf (read_cache sha256_hex c now qs cache).1
  unfolding read_cache
  read_cache-AreAnswers now [] cache h = (tt, h)
  read_cache-AreAnswers now (q ∷ qs) cache h =
      let first = cached_vector-IsAnswer q now cache h in
      let rest = read_cache-AreAnswers now qs (cached_vector sha256_hex c q now cache).1 first.1 in
      ((first.0, rest.0), rest.1)

  fill-AreAnswers :
      (qs : List String) (vs : List (Option V)) (clock : ℕ → ℕ) (cache : Dict (ℕ × V))
      → AreAnswers qs vs
      → All IsOf cache
      → ((fill sha256_hex c qs vs (map f (missing_queries qs vs)) clock cache).0 ≡ some (map f qs))
        × All IsOf (fill sha256_hex c qs vs (map f (missing_queries qs vs)) clock cache).1
  unfolding fill missing_queries
  fill-AreAnswers [] [] clock cache r h = (refl, h)
  fill-AreAnswers [] (v ∷ vs) clock cache r h = elim r [ ]
  fill-AreAnswers (q ∷ qs) [] clock cache r h = elim r [ ]
  fill-AreAnswers (q ∷ qs) (none ∷ vs) clock cache r h =
      let rest =
        fill-AreAnswers qs vs (λ i. clock (i + 1))
          (store_cache sha256_hex c q (f q) (clock 0) cache) r.1
          (store_cache-IsOf q (clock 0) cache h) in
      (rw rest.0 refl, rest.1)
  fill-AreAnswers (q ∷ qs) (some v ∷ vs) clock cache r h =
      let rest = fill-AreAnswers qs vs clock cache r.1 h in (rw rest.0 (rw r.0 refl), rest.1)

  completed_batch-some :
      (p : Option (List V) × Dict (ℕ × V)) (ws : List V)
      → p.0 ≡ some ws
      → All IsOf p.1
      → ((completed_batch p).0 ≡ embedded ws) × All IsOf (completed_batch p).1
  completed_batch-some (none, d) ws e h = cc
  completed_batch-some (some vs, d) ws e h = (ground (arith, e), h)

  answer_for-right :
      (embed_uncached : List String → Outcome (List V)) (qs : List String)
      → ((rs : List String) → embed_uncached rs ≡ embedded (map f rs))
      → answer_for embed_uncached qs ≡ embedded (map f qs)
  answer_for-right embed_uncached [] a = refl
  answer_for-right embed_uncached (q ∷ qs) a = a (q ∷ qs)

  -- With an embedder that gives query `q` the vector `f q`, a digest without collisions between
  -- queries of different vectors, and right vectors in the cache, `embed` gives every query its
  -- vector, in the order of the queries, whatever of them was cached, missing, repeated, expired
  -- or evicted meanwhile, and it leaves right vectors in the cache.
  pub embed_lem :
      (now : ℕ) (clock : ℕ → ℕ) (embed_uncached : List String → Outcome (List V))
      (queries : List String) (cache : Dict (ℕ × V))
      → All IsOf cache
      → ((rs : List String) → embed_uncached rs ≡ embedded (map f rs))
      → ((embed sha256_hex c now clock embed_uncached queries cache).0 ≡ embedded (map f queries))
        × All IsOf (embed sha256_hex c now clock embed_uncached queries cache).1
  unfolding embed
  embed_lem now clock embed_uncached queries cache h a =
      let read = read_cache-AreAnswers now queries cache h in
      rw
        (answer_for-right embed_uncached
          (missing_queries queries (read_cache sha256_hex c now queries cache).0) a)
        (completed_batch-some _ (map f queries) (fill-AreAnswers queries _ clock _ read.0 read.1).0
          (fill-AreAnswers queries _ clock _ read.0 read.1).1)
