-- ===== src/Rag/Memory.antt =====
-- `InMemoryVectorStore` of app/rag/vector_store.py, which proves the vector-store port complete:
-- its rows, its exact cosine search, its lexical search with a token cache, and its listing,
-- export and deletion of documents. A vector is its list of numbers; square roots and the
-- correctly rounded sum (`math.fsum`) are the interface `Floats`.
pub mod Documents
pub mod Search
use give_exit.Prelude.{
  ℕ, String, Bool, true, false, not, ◌&&◌, Option, none, some, List, [], ◌∷◌, ◌++◌, map, ◌==◌,
  length, take, filter, any, all, str_eq, str_leb, if◌then◌else◌,
}
use give_exit.Prelude.Dict.{Dict, insert}
use give_exit.Prelude.Sorting.{sort}
use give_exit.Prelude.Score.{Score}
use give_exit.Rag.{Chunk, RetrievedChunk}
use give_exit.Rag.Fusion.{rank_leb}
use give_exit.Rag.Lexical.{
  LexicalTokenCache, SearchTokenizer, tokenizer, remember, forget, bm25_rank,
}

pub record Floats (N : Type 0) : Type 0 where
  pub one : N
  pub times : N → N → N
  pub over : N → N → N
  pub fsum : List N → N
  pub sqrt : N → N
  pub is_zero : N → Bool

pub data StoreError : Type 0 where
  several_documents lengths_differ : StoreError

pub data Result {ℓ} (A : Type ℓ) : Type ℓ where
  ok : A → Result A
  err : StoreError → Result A

abbrev pub Row : Type 0 → Type 0 → Type 0
Row Metadata N = Chunk Metadata × List N

pub record MemoryStore (Metadata N : Type 0) : Type 0 where
  pub rows : Dict (Row Metadata N)
  pub lexical_tokens : LexicalTokenCache

-- len({chunk.doc_id for chunk in chunks}) == 1, for chunks that begin with `c`
unfoldable pub is_single_doc : {Metadata : Type 0} → Chunk Metadata → List (Chunk Metadata) → Bool
is_single_doc c cs = all (λ x. str_eq x.doc_id c.doc_id) cs

module _ {N : Type 0} (f : Floats N) where
  -- [x * y for x, y in zip(a, b, strict=True)]
  unfoldable pub more_products : N → Option (List N) → Option (List N)
  more_products p none = none
  more_products p (some ps) = some (p ∷ ps)

  unfoldable pub products : List N → List N → Option (List N)
  unfolding more_products
  products [] [] = some []
  products (x ∷ xs) (y ∷ ys) = more_products (f.times x y) (products xs ys)
  products _ _ = none

  -- math.sqrt(math.fsum(x * x for x in a)) or 1.0
  unfoldable pub norm : List N → N
  norm a =
      let root = f.sqrt (f.fsum (map (λ x. f.times x x) a)) in
      if f.is_zero root then f.one else root

  unfoldable pub divided : List N → List N → Option (List N) → Option N
  divided a b none = none
  divided a b (some ps) = some (f.over (f.fsum ps) (f.times (norm a) (norm b)))

  -- None where the strict zip raises.
  unfoldable pub cosine : List N → List N → Option N
  unfolding products divided norm
  cosine a b = divided a b (products a b)

module _ {Metadata N : Type 0} where
  -- row[0].doc_id == doc_id
  abbrev pub is_of : String → String × Row Metadata N → Bool
  is_of doc_id kv = str_eq kv.1.0.doc_id doc_id

  -- The rows of one document, in the order of the store.
  unfoldable pub rows_of : String → Dict (Row Metadata N) → Dict (Row Metadata N)
  rows_of doc_id rows = filter (is_of doc_id) rows

  -- for chunk, vector in zip(chunks, vectors, strict=True): rows[chunk.chunk_id] = (chunk, vector)
  unfoldable pub write_rows :
      List (Chunk Metadata) → List (List N) → Dict (Row Metadata N) → Dict (Row Metadata N)
  write_rows (c ∷ cs) (v ∷ vs) d = write_rows cs vs (insert c.chunk_id (c, v) d)
  write_rows _ _ d = d

  -- What is written before the strict zip raises stays written; the token cache is not told.
  unfoldable pub upsert :
      List (Chunk Metadata)
      → List (List N)
      → MemoryStore Metadata N
      → MemoryStore Metadata N × Result (Unit {0})
  unfolding write_rows
  upsert chunks vectors s =
      let written = record s { rows = write_rows chunks vectors s.rows } in
      if length chunks == length vectors
      then (
        record written { lexical_tokens = forget (map (λ c. c.doc_id) chunks) s.lexical_tokens },
        ok tt,
      )
      else (written, err lengths_differ)

  -- The chunks of another document keep their places; the new chunks come after them.
  unfoldable pub replace_document :
      List (Chunk Metadata)
      → List (List N)
      → MemoryStore Metadata N
      → MemoryStore Metadata N × Result (Unit {0})
  unfolding is_single_doc write_rows
  replace_document [] vectors s = (s, ok tt)
  replace_document (c ∷ cs) vectors s =
      if not (is_single_doc c cs)
      then (s, err several_documents)
      else if not (length (c ∷ cs) == length vectors)
      then (s, err lengths_differ)
      else (
        record s {
          rows = write_rows (c ∷ cs) vectors (filter (λ kv. not (is_of c.doc_id kv)) s.rows);
          lexical_tokens = forget (c.doc_id ∷ []) s.lexical_tokens;
        },
        ok tt,
      )

  unfoldable pub delete_document : String → MemoryStore Metadata N → MemoryStore Metadata N
  delete_document doc_id s = record s {
    rows = filter (λ kv. not (is_of doc_id kv)) s.rows;
    lexical_tokens = forget (doc_id ∷ []) s.lexical_tokens;
  }

  -- The set of these, in the order of the rows and with repetitions.
  unfoldable pub list_document_ids : MemoryStore Metadata N → List String
  list_document_ids s = map (λ kv. kv.1.0.doc_id) s.rows

  abbrev chunk_id_leb : Row Metadata N → Row Metadata N → Bool
  chunk_id_leb a b = str_leb a.0.chunk_id b.0.chunk_id

  unfoldable pub export_document : String → MemoryStore Metadata N → List (Row Metadata N)
  unfolding rows_of
  export_document doc_id s = sort chunk_id_leb (map (λ kv. kv.1) (rows_of doc_id s.rows))

  module _ ⦃o : Score N⦄ (f : Floats N) where
    unfoldable pub with_score :
        Chunk Metadata
        → Option N
        → Option (List (RetrievedChunk Metadata N))
        → Option (List (RetrievedChunk Metadata N))
    with_score c (some score) (some rest) =
        some (record { chunk = c; score = score; channel_ranks = [] } ∷ rest)
    with_score c _ _ = none

    unfoldable pub candidates :
        List N → Dict (Row Metadata N) → Option (List (RetrievedChunk Metadata N))
    unfolding with_score cosine
    candidates vector [] = some []
    candidates vector ((k, (c, stored)) ∷ rows) =
        with_score c (cosine f vector stored) (candidates vector rows)

    unfoldable pub best :
        ℕ → Option (List (RetrievedChunk Metadata N)) → Option (List (RetrievedChunk Metadata N))
    best k none = none
    best k (some cs) = some (take k (sort rank_leb cs))

    unfoldable pub query :
        List N → String → ℕ → MemoryStore Metadata N → Option (List (RetrievedChunk Metadata N))
    unfolding candidates best rows_of
    query vector doc_id k s = best k (candidates vector (rows_of doc_id s.rows))

  module _ ⦃o : Score N⦄ (term_score : ℕ → ℕ → ℕ → ℕ → ℕ → ℕ → N)
      (words : String → List String) where
    unfoldable pub lexical_query :
        String
        → String
        → ℕ
        → MemoryStore Metadata N
        → MemoryStore Metadata N × List (RetrievedChunk Metadata N)
    unfolding bm25_rank tokenizer remember rows_of
    lexical_query text doc_id k s =
        let chunks = map (λ kv. kv.1.0) (rows_of doc_id s.rows) in
        let ranked = bm25_rank term_score words text chunks k (tokenizer doc_id s.lexical_tokens) in
        (record s { lexical_tokens = remember doc_id ranked.1 s.lexical_tokens }, ranked.0)
