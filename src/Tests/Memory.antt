-- ===== src/Tests/Memory.antt =====
-- Runs of the memory store, app/rag/vector_store.py.
use give_exit.Prelude.{ℕ, ◌≡◌, refl, String, none, List, [], ◌∷◌, map}
use give_exit.Prelude.Dict.{lookup, insert}
use give_exit.Prelude.Score.{nat_score}
use give_exit.Rag.{Chunk}
use give_exit.Rag.Memory.{
  MemoryStore, rows_of, write_rows, upsert, replace_document, delete_document, lexical_query,
  is_single_doc, ok,
}
use give_exit.Rag.Memory.Documents.{documents, replace_document-refines}
use give_exit.Rag.Memory.Search.{uncached_rank, upserted, searched, empty_store, lexical_query_lem}

program : Unit {0}
unfolding write_rows insert lookup is_single_doc
program = tt

abbrev piece : String → String → String → Chunk Unit
piece id doc text = record {
  chunk_id = id;
  doc_id = doc;
  text = text;
  section = none;
  page_start = 1;
  page_end = 1;
  metadata = tt;
}

abbrev nothing_stored : MemoryStore Unit ℕ
nothing_stored = record { rows = []; lexical_tokens = record { documents = []; writes = 0 } }

abbrev two_documents : MemoryStore Unit ℕ
two_documents = record nothing_stored {
  rows = ("a0", (piece "a0" "a" "juros", 1 ∷ [])) ∷ ("b0", (piece "b0" "b" "multa", 2 ∷ [])) ∷ [];
}

replace_document-refines_example :
    (replace_document (piece "a1" "a" "tarifa" ∷ []) ((3 ∷ []) ∷ []) two_documents).1 ≡ ok tt
unfolding program
replace_document-refines_example =
    (replace_document-refines (piece "a1" "a" "tarifa") [] ((3 ∷ []) ∷ []) two_documents refl refl
      (refl, tt)).0

-- One word for each text.
abbrev one_word : String → List String
one_word t = t ∷ []

abbrev flat : ℕ → ℕ → ℕ → ℕ → ℕ → ℕ → ℕ
flat query_frequency documents frequency_of own_length length_here total = query_frequency

abbrev stored_once : MemoryStore Unit ℕ
stored_once = (upsert (piece "a0" "a" "juros" ∷ []) ((1 ∷ []) ∷ []) nothing_stored).0

abbrev searched_once : MemoryStore Unit ℕ
searched_once = (lexical_query ⦃o = nat_score⦄ flat one_word "juros" "a" 2 stored_once).0

lexical_query_example :
    ((lexical_query ⦃o = nat_score⦄ flat one_word "juros" "a" 2 searched_once).1
      ≡ uncached_rank ⦃s = nat_score⦄ flat one_word "juros"
          (map (λ kv. kv.1.0) (rows_of "a" searched_once.rows))
          2)
    × (lookup "a" (delete_document "a" searched_once).lexical_tokens.documents ≡ none)
lexical_query_example =
    lexical_query_lem ⦃s = nat_score⦄ flat one_word "juros" "a" 2 searched_once (
      searched "juros" "a" 2 stored_once
        (upserted (piece "a0" "a" "juros" ∷ []) ((1 ∷ []) ∷ []) nothing_stored empty_store))
