-- ===== src/Rag/Memory/Search.antt =====
-- Lexical search of `InMemoryVectorStore` through its token cache: app/rag/vector_store.py.
use give_exit.Prelude.{
  ℕ, ◌≡◌, refl, ap, inl, inr, String, none, List, [], ◌∷◌, map, ltb, ◌==◌, length, Bool-cases,
  if◌then◌else◌,
}
use give_exit.Prelude.Dict.{lookup, lookup-without_self}
use give_exit.Prelude.Score.{Score}
use give_exit.Rag.{Chunk, RetrievedChunk}
use give_exit.Rag.Lexical.{
  SearchTokenizer, entry_of, count_tokens, ranked, bm25_rank, tokenizer, forget, pop_documents,
}
use give_exit.Rag.Lexical.Cache.{
  IsFaithful, IsCacheFaithful, tokenize_all_lem, remember-IsCacheFaithful, forget-IsCacheFaithful,
  tokenizer-IsFaithful,
}
use give_exit.Rag.Memory.{
  MemoryStore, rows_of, upsert, replace_document, delete_document, lexical_query, is_single_doc,
}

module _ {Metadata N : Type 0} ⦃s : Score N⦄ (term_score : ℕ → ℕ → ℕ → ℕ → ℕ → ℕ → N)
    (words : String → List String) where
  -- BM25 with every text tokenized anew.
  abbrev pub uncached_rank : String → List (Chunk Metadata) → ℕ → List (RetrievedChunk Metadata N)
  uncached_rank text [] k = []
  uncached_rank text (c ∷ cs) k =
      let terms = count_tokens (words text) [] in
      if ltb k 1
      then []
      else if length terms == 0
      then []
      else ranked term_score k terms (c ∷ cs) (map (entry_of words) (map (λ x. x.text) (c ∷ cs)))

  bm25_rank_lem :
      (text : String) (cs : List (Chunk Metadata)) (k : ℕ) (t : SearchTokenizer)
      → IsFaithful words t.cached
      → IsFaithful words t.used
      → ((bm25_rank term_score words text cs k t).0 ≡ uncached_rank text cs k)
        × IsFaithful words (bm25_rank term_score words text cs k t).1.used
  unfolding bm25_rank
  bm25_rank_lem text [] k t c u = (refl, u)
  bm25_rank_lem text (x ∷ xs) k t c u =
      let (e, u') = tokenize_all_lem words (map (λ y. y.text) (x ∷ xs)) t c u in
      elim (Bool-cases (ltb k 1)) [
        | inl a ↦ rw a (refl, u)
        | inr a ↦ elim (Bool-cases (length (count_tokens (words text) []) == 0)) [
          | inl b ↦ rw a (rw b (refl, u))
          | inr b ↦ rw a (
              rw b
                (ap (λ es. ranked term_score k (count_tokens (words text) []) (x ∷ xs) es) e, u'))
        ]
      ]

  -- The stores that operations reach from an empty one.
  pub data Reachable : MemoryStore Metadata N → Type 0 where
    empty_store :
        Reachable (record { rows = []; lexical_tokens = record { documents = []; writes = 0 } })
    upserted :
        (cs : List (Chunk Metadata)) (vs : List (List N)) (m : MemoryStore Metadata N)
        → Reachable m
        → Reachable (upsert cs vs m).0
    replaced :
        (cs : List (Chunk Metadata)) (vs : List (List N)) (m : MemoryStore Metadata N)
        → Reachable m
        → Reachable (replace_document cs vs m).0
    deleted :
        (d : String) (m : MemoryStore Metadata N) → Reachable m → Reachable (delete_document d m)
    searched :
        (text d : String) (k : ℕ) (m : MemoryStore Metadata N)
        → Reachable m
        → Reachable (lexical_query term_score words text d k m).0

  upsert-IsCacheFaithful :
      (cs : List (Chunk Metadata)) (vs : List (List N)) (m : MemoryStore Metadata N)
      → IsCacheFaithful words m.lexical_tokens
      → IsCacheFaithful words (upsert cs vs m).0.lexical_tokens
  unfolding upsert
  upsert-IsCacheFaithful cs vs m h = elim (Bool-cases (length cs == length vs)) [
    | inl e ↦ rw e (forget-IsCacheFaithful words (map (λ c. c.doc_id) cs) m.lexical_tokens h)
    | inr e ↦ rw e h
  ]

  replace-IsCacheFaithful :
      (cs : List (Chunk Metadata)) (vs : List (List N)) (m : MemoryStore Metadata N)
      → IsCacheFaithful words m.lexical_tokens
      → IsCacheFaithful words (replace_document cs vs m).0.lexical_tokens
  unfolding replace_document
  replace-IsCacheFaithful [] vs m h = h
  replace-IsCacheFaithful (c ∷ cs) vs m h = elim (Bool-cases (is_single_doc c cs)) [
    | inl e ↦ elim (Bool-cases (length (c ∷ cs) == length vs)) [
      | inl p ↦ rw e (rw p (forget-IsCacheFaithful words (c.doc_id ∷ []) m.lexical_tokens h))
      | inr p ↦ rw e (rw p h)
    ]
    | inr e ↦ rw e h
  ]

  lexical_query-IsCacheFaithful :
      (text d : String) (k : ℕ) (m : MemoryStore Metadata N)
      → IsCacheFaithful words m.lexical_tokens
      → IsCacheFaithful words (lexical_query term_score words text d k m).0.lexical_tokens
  unfolding lexical_query tokenizer
  lexical_query-IsCacheFaithful text d k m h =
      let cs = map (λ kv. kv.1.0) (rows_of d m.rows) in
      let t = tokenizer d m.lexical_tokens in
      remember-IsCacheFaithful words d (bm25_rank term_score words text cs k t).1 m.lexical_tokens
        (bm25_rank_lem text cs k t (tokenizer-IsFaithful words d m.lexical_tokens h) tt).1 h

  Reachable-IsCacheFaithful :
      (m : MemoryStore Metadata N) → Reachable m → IsCacheFaithful words m.lexical_tokens
  unfolding delete_document
  Reachable-IsCacheFaithful m empty_store = tt
  Reachable-IsCacheFaithful m (upserted cs vs m' r) =
      upsert-IsCacheFaithful cs vs m' (Reachable-IsCacheFaithful m' r)
  Reachable-IsCacheFaithful m (replaced cs vs m' r) =
      replace-IsCacheFaithful cs vs m' (Reachable-IsCacheFaithful m' r)
  Reachable-IsCacheFaithful m (deleted d m' r) =
      forget-IsCacheFaithful words (d ∷ []) m'.lexical_tokens (Reachable-IsCacheFaithful m' r)
  Reachable-IsCacheFaithful m (searched text d k m' r) =
      lexical_query-IsCacheFaithful text d k m' (Reachable-IsCacheFaithful m' r)

  -- In every store that operations reach from an empty one, lexical search through the token
  -- cache returns what BM25 returns on the document's chunks with every text tokenized anew, and
  -- deleting a document leaves none of its tokens in the cache.
  pub lexical_query_lem :
      (text d : String) (k : ℕ) (m : MemoryStore Metadata N)
      → Reachable m
      → ((lexical_query term_score words text d k m).1
          ≡ uncached_rank text (map (λ kv. kv.1.0) (rows_of d m.rows)) k)
        × (lookup d (delete_document d m).lexical_tokens.documents ≡ none)
  unfolding lexical_query tokenizer delete_document forget pop_documents
  lexical_query_lem text d k m r = (
    (bm25_rank_lem text (map (λ kv. kv.1.0) (rows_of d m.rows)) k (tokenizer d m.lexical_tokens)
        (tokenizer-IsFaithful words d m.lexical_tokens (Reachable-IsCacheFaithful m r)) tt).0,
    lookup-without_self d m.lexical_tokens.documents,
  )
