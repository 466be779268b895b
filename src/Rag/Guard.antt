-- ===== src/Rag/Guard.antt =====
-- `QueryEmbeddingGuard` of app/rag/resilience.py and `validate_embedding_vectors` of
-- app/rag/embeddings.py. Clock readings and timeouts are in ticks, as natural numbers. A vector
-- is a list of `Component`; the float test of one vector (finite and of norm one) is an argument,
-- as is SHA-256. A request that embeds is two steps with other requests between them: `acquire`,
-- and one of the endings after it.
pub mod Cache
pub mod Size
pub mod Slots
use give_exit.Prelude.{
  ℕ, zero, suc, ◌+◌, ◌-◌, String, Bool, true, false, not, ◌&&◌, ◌||◌, Option, none, some, List, [],
  ◌∷◌, ◌++◌, length, all, ltb, leb, ◌==◌, if◌then◌else◌,
}
use give_exit.Prelude.Dict.{Dict, lookup, insert, without}
use give_exit.Store.Defs.{evict_front}

pub record Settings : Type 0 where
  pub max_concurrency : ℕ
  pub failure_threshold : ℕ
  pub reset_seconds : ℕ
  pub cache_ttl_seconds : ℕ
  pub cache_max_entries : ℕ

-- What the guard keeps, without the cache and the set of background tasks: of these the model
-- counts those that hold a slot.
pub record Guard : Type 0 where
  pub free_slots : ℕ
  pub consecutive_failures : ℕ
  pub circuit_open_until : ℕ
  pub background_tasks : ℕ
  pub expected_dimension : Option ℕ

-- EmbeddingUnavailableError, the CancelledError that passes through, and the error of a strict
-- `zip` or of an incomplete batch.
pub data Unavailable : Type 0 where
  circuit_open queue_exhausted timed_out failed cancelled incomplete : Unavailable

pub data Outcome {ℓ} (A : Type ℓ) : Type ℓ where
  embedded : A → Outcome A
  unavailable : Unavailable → Outcome A

abbrev pub initial_guard : Settings → Guard
initial_guard c = record {
  free_slots = c.max_concurrency;
  consecutive_failures = 0;
  circuit_open_until = 0;
  background_tasks = 0;
  expected_dimension = none;
}

unfoldable pub record_failure : Settings → ℕ → Guard → Guard
record_failure c now g =
    let failures = g.consecutive_failures + 1 in
    record g {
      consecutive_failures = failures;
      circuit_open_until =
          if leb c.failure_threshold failures then now + c.reset_seconds else g.circuit_open_until;
    }

-- self._slots.release()
unfoldable pub release : Guard → Guard
release g = record g { free_slots = g.free_slots + 1 }

-- The circuit test and `self._slots.acquire()` under the queue timeout, when the wait ends.
unfoldable pub acquire : ℕ → Guard → Outcome Guard
acquire now g =
    if ltb now g.circuit_open_until
    then unavailable circuit_open
    else if g.free_slots == 0
    then unavailable queue_exhausted
    else embedded (record g { free_slots = g.free_slots - 1 })

abbrev dimension_fits : Option ℕ → ℕ → Bool
dimension_fits none d = true
dimension_fits (some e) d = d == e

abbrev known_dimension : Option ℕ → ℕ → Option ℕ
known_dimension none d = some d
known_dimension (some e) d = some e

module _ {Component : Type 0} (is_unit_vector : List Component → Bool) where
  -- `validate_embedding_vectors`, of at least one text: the dimension, or `none` for ValueError.
  unfoldable pub validate_embedding_vectors : List (List Component) → ℕ → Option ℕ → Option ℕ
  validate_embedding_vectors [] expected_count expected = none
  validate_embedding_vectors (v ∷ vs) expected_count expected =
      let same = not (length v == 0) && all (λ w. length w == length v) vs in
      if not (length (v ∷ vs) == expected_count)
      then none
      else if not same
      then none
      else if not (dimension_fits expected (length v))
      then none
      else if all is_unit_vector (v ∷ vs)
      then some (length v)
      else none

  -- The awaited task returned: validation, then success or a recorded failure.
  abbrev pub validated :
      Settings
      → ℕ
      → List (List Component)
      → Guard
      → Option ℕ
      → Outcome (List (List Component)) × Guard
  validated c now vs g none = (unavailable failed, release (record_failure c now g))
  validated c now vs g (some d) = (
    embedded vs,
    release (record g {
      consecutive_failures = 0;
      circuit_open_until = 0;
      expected_dimension = known_dimension g.expected_dimension d;
    }),
  )

  unfoldable pub finish :
      Settings → ℕ → ℕ → List (List Component) → Guard → Outcome (List (List Component)) × Guard
  unfolding validate_embedding_vectors record_failure release
  finish c now count vs g =
      validated c now vs g (validate_embedding_vectors vs count g.expected_dimension)

-- The awaited task raised.
unfoldable pub fail : Settings → ℕ → Guard → Guard
unfolding record_failure release
fail c now g = release (record_failure c now g)

-- `_track_background_task`: the task keeps its slot.
unfoldable pub track_background_task : Guard → Guard
track_background_task g = record g { background_tasks = g.background_tasks + 1 }

unfoldable pub time_out : Settings → ℕ → Guard → Guard
unfolding track_background_task record_failure
time_out c now g = record_failure c now (track_background_task g)

-- The caller was cancelled; the embedding goes on.
unfoldable pub cancel : Guard → Guard
unfolding track_background_task
cancel g = track_background_task g

-- `_completed`, the callback of a background task.
unfoldable pub completed : Guard → Guard
unfolding release
completed g = release (record g { background_tasks = g.background_tasks - 1 })

abbrev pub cache_is_off : Settings → Bool
cache_is_off c = c.cache_ttl_seconds == 0 || (c.cache_max_entries == 0)

-- The queries whose vector is None.
unfoldable pub missing_queries : {V : Type 0} → List String → List (Option V) → List String
missing_queries [] vs = []
missing_queries (q ∷ qs) [] = []
missing_queries (q ∷ qs) (none ∷ vs) = q ∷ missing_queries qs vs
missing_queries (q ∷ qs) (some v ∷ vs) = missing_queries qs vs

abbrev pub prepend : {V : Type 0} → V → Option (List V) → Option (List V)
prepend v none = none
prepend v (some vs) = some (v ∷ vs)

abbrev pub completed_batch :
    {V : Type 0} → Option (List V) × Dict (ℕ × V) → Outcome (List V) × Dict (ℕ × V)
completed_batch (none, cache) = (unavailable incomplete, cache)
completed_batch (some vs, cache) = (embedded vs, cache)

-- `embed_uncached` is not called when nothing is missing.
abbrev pub answer_for :
    {V : Type 0} → (List String → Outcome (List V)) → List String → Outcome (List V)
answer_for embed_uncached [] = embedded []
answer_for embed_uncached (q ∷ qs) = embed_uncached (q ∷ qs)

-- `_cached_vector` on the cached entry
abbrev pub fresh_vector :
    {V : Type 0} → String → ℕ → Dict (ℕ × V) → Option (ℕ × V) → Option V × Dict (ℕ × V)
fresh_vector key now cache none = (none, cache)
fresh_vector key now cache (some (expires_at, v)) =
    if leb expires_at now
    then (none, without key cache)
    else (some v, without key cache ++ (key, (expires_at, v)) ∷ [])

module _ {V : Type 0} (sha256_hex : String → String) (c : Settings) where
  unfoldable pub cached_vector : String → ℕ → Dict (ℕ × V) → Option V × Dict (ℕ × V)
  cached_vector query now cache =
      if cache_is_off c
      then (none, cache)
      else fresh_vector (sha256_hex query) now cache (lookup (sha256_hex query) cache)

  -- `_store_cache`: assigning, then moving to the end, puts the key last.
  unfoldable pub store_cache : String → V → ℕ → Dict (ℕ × V) → Dict (ℕ × V)
  unfolding evict_front
  store_cache query v now cache =
      let key = sha256_hex query in
      if cache_is_off c
      then cache
      else evict_front c.cache_max_entries
          (without key cache ++ (key, (now + c.cache_ttl_seconds, v)) ∷ [])

  -- [self._cached_vector(query, now=now) for query in queries]
  unfoldable pub read_cache : ℕ → List String → Dict (ℕ × V) → List (Option V) × Dict (ℕ × V)
  read_cache now [] cache = ([], cache)
  read_cache now (q ∷ qs) cache =
      let (v, cache1) = cached_vector q now cache in
      let (vs, cache2) = read_cache now qs cache1 in (v ∷ vs, cache2)

  -- The loop over `zip(..., strict=True)`, `clock` the readings at its rounds: the completed
  -- vectors, or `none` when the lengths differ.
  unfoldable pub fill :
      List String
      → List (Option V)
      → List V
      → (ℕ → ℕ)
      → Dict (ℕ × V)
      → Option (List V) × Dict (ℕ × V)
  fill [] vs [] clock cache = (some [], cache)
  fill [] vs (e ∷ es) clock cache = (none, cache)
  fill (q ∷ qs) [] es clock cache = (none, cache)
  fill (q ∷ qs) (some v ∷ vs) es clock cache =
      let (rest, cache1) = fill qs vs es clock cache in (prepend v rest, cache1)
  fill (q ∷ qs) (none ∷ vs) [] clock cache = (none, cache)
  fill (q ∷ qs) (none ∷ vs) (e ∷ es) clock cache =
      let (rest, cache1) = fill qs vs es (λ i. clock (i + 1)) (store_cache q e (clock 0) cache) in
      (prepend e rest, cache1)

  abbrev pub filled :
      List String
      → List (Option V)
      → (ℕ → ℕ)
      → Outcome (List V)
      → Dict (ℕ × V)
      → Outcome (List V) × Dict (ℕ × V)
  filled qs vs clock (embedded es) cache = completed_batch (fill qs vs es clock cache)
  filled qs vs clock (unavailable e) cache = (unavailable e, cache)

  -- `embed`, on the cache, with the answer of `_embed_uncached`.
  unfoldable pub embed :
      ℕ
      → (ℕ → ℕ)
      → (embed_uncached : List String → Outcome (List V)) → List String
      → Dict (ℕ × V)
      → Outcome (List V) × Dict (ℕ × V)
  embed now clock embed_uncached queries cache =
      let (vectors, read) = read_cache now queries cache in
      let answer = answer_for embed_uncached (missing_queries queries vectors) in
      filled queries vectors clock answer read
