-- ===== src/Rag/Lexical.antt =====
-- Lexical search over stored chunks, app/rag/vector_store.py: `_LexicalTokenCache`,
-- `_SearchTokenizer` and `_bm25_rank`. The normalised words of a text
-- (`portuguese_lexical_tokens`: Unicode tables and a regular expression) and the floating-point
-- weight of one term are arguments.
pub mod Cache
use give_exit.Prelude.{
  ℕ, ◌+◌, String, Bool, true, false, not, ◌&&◌, Option, none, some, List, [], ◌∷◌, map, ltb, ◌==◌,
  length, take, filter, str_eq, if◌then◌else◌,
}
use give_exit.Prelude.Dict.{Dict, lookup, has, insert, without}
use give_exit.Prelude.Sorting.{sort}
use give_exit.Prelude.Score.{Score}
use give_exit.Rag.{Chunk, RetrievedChunk}
use give_exit.Rag.Fusion.{rank_leb}

abbrev or_zero : Option ℕ → ℕ
or_zero none = 0
or_zero (some n) = n

-- Counter(tokens)
unfoldable pub count_tokens : List String → Dict ℕ → Dict ℕ
count_tokens [] d = d
count_tokens (t ∷ ts) d = count_tokens ts (insert t (or_zero (lookup t d) + 1) d)

pub record Entry : Type 0 where
  pub tokens : List String
  pub counts : Dict ℕ

unfoldable pub entry_of : (String → List String) → String → Entry
unfolding count_tokens
entry_of words text = record { tokens = words text; counts = count_tokens (words text) [] }

pub record SearchTokenizer : Type 0 where
  pub cached : Dict Entry
  pub writes : ℕ
  pub used : Dict Entry

pub record LexicalTokenCache : Type 0 where
  pub documents : Dict (Dict Entry)
  pub writes : ℕ

abbrev or_nothing_cached : Option (Dict Entry) → Dict Entry
or_nothing_cached none = []
or_nothing_cached (some d) = d

unfoldable pub tokenizer : String → LexicalTokenCache → SearchTokenizer
tokenizer doc_id c = record {
  cached = or_nothing_cached (lookup doc_id c.documents);
  writes = c.writes;
  used = [];
}

abbrev pub is_used : Dict Entry → Bool
is_used [] = false
is_used (e ∷ es) = true

unfoldable pub remember : String → SearchTokenizer → LexicalTokenCache → LexicalTokenCache
remember doc_id t c =
    if is_used t.used && (t.writes == c.writes)
    then record c { documents = insert doc_id t.used c.documents }
    else c

unfoldable pub pop_documents : List String → Dict (Dict Entry) → Dict (Dict Entry)
pop_documents [] d = d
pop_documents (i ∷ is) d = pop_documents is (without i d)

unfoldable pub forget : List String → LexicalTokenCache → LexicalTokenCache
unfolding pop_documents
forget doc_ids c = record c { documents = pop_documents doc_ids c.documents; writes = c.writes + 1 }

module _ (words : String → List String) where
  unfoldable pub or_tokenized : String → Option Entry → Entry
  or_tokenized text none = entry_of words text
  or_tokenized text (some e) = e

  unfoldable pub tokens_and_counts : String → SearchTokenizer → Entry × SearchTokenizer
  unfolding or_tokenized
  tokens_and_counts text t =
      let entry = or_tokenized text (lookup text t.cached) in
      (entry, record t { used = insert text entry t.used })

  -- [tokenize.tokens_and_counts(chunk) for chunk in chunks], on the chunks' texts
  unfoldable pub tokenize_all : List String → SearchTokenizer → List Entry × SearchTokenizer
  unfolding tokens_and_counts
  tokenize_all [] t = ([], t)
  tokenize_all (x ∷ xs) t =
      let first = tokens_and_counts x t in
      let rest = tokenize_all xs first.1 in (first.0 ∷ rest.0, rest.1)

-- sum(term in counts for _, counts in doc_entries)
unfoldable pub document_frequency : String → List Entry → ℕ
document_frequency term es = length (filter (λ e. has term e.counts) es)

unfoldable pub total_length : List Entry → ℕ
total_length [] = 0
total_length (e ∷ es) = length e.tokens + total_length es

-- The weight of a term has its frequency in the query, the number of documents, the number that
-- hold it, its frequency here, the length of this document and of all.
module _ {N : Type 0} ⦃s : Score N⦄ (term_score : ℕ → ℕ → ℕ → ℕ → ℕ → ℕ → N) where
  -- The loop over the query's terms, on one entry.
  unfoldable pub entry_score : List Entry → Entry → Dict ℕ → N → N
  unfolding document_frequency total_length
  entry_score es e [] score = score
  entry_score es e ((term, n) ∷ terms) score =
      let frequency = or_zero (lookup term e.counts) in
      if frequency == 0
      then entry_score es e terms score
      else entry_score es e terms (
          s.add score (
            term_score n (length es) (document_frequency term es) frequency (length e.tokens)
              (total_length es)))

module _ {Metadata N : Type 0} ⦃s : Score N⦄ (term_score : ℕ → ℕ → ℕ → ℕ → ℕ → ℕ → N) where
  -- zip(chunks, doc_entries), keeping the positive scores
  unfoldable pub scored :
      Dict ℕ → List Entry → List (Chunk Metadata) → List Entry → List (RetrievedChunk Metadata N)
  unfolding entry_score
  scored terms all_entries (c ∷ cs) (e ∷ es) =
      let score = entry_score term_score all_entries e terms s.zero_score in
      let rest = scored terms all_entries cs es in
      if not (s.score_leb score s.zero_score)
      then record { chunk = c; score = score; channel_ranks = [] } ∷ rest
      else rest
  scored terms all_entries _ _ = []

  unfoldable pub ranked :
      ℕ → Dict ℕ → List (Chunk Metadata) → List Entry → List (RetrievedChunk Metadata N)
  unfolding scored
  ranked k terms cs es = take k (sort rank_leb (scored terms es cs es))

  -- `_bm25_rank` with the tokenizer of a store, which comes back with what it used.
  unfoldable pub bm25_rank :
      (String → List String)
      → String
      → List (Chunk Metadata)
      → ℕ
      → SearchTokenizer
      → List (RetrievedChunk Metadata N) × SearchTokenizer
  unfolding ranked count_tokens tokenize_all
  bm25_rank words query [] k t = ([], t)
  bm25_rank words query (c ∷ cs) k t =
      let terms = count_tokens (words query) [] in
      let tokenized = tokenize_all words (map (λ x. x.text) (c ∷ cs)) t in
      if ltb k 1
      then ([], t)
      else if length terms == 0
      then ([], t)
      else (ranked k terms (c ∷ cs) tokenized.0, tokenized.1)
