-- ===== src/Rag/Memory/Documents.antt =====
-- How `InMemoryVectorStore` keeps documents apart: app/rag/vector_store.py. The abstract store is
-- a map from document ids to the rows of a document.
use give_exit.Prelude.{
  ◌≡◌, refl, ap, ◌∙◌, inl, inr, String, Bool, true, false, not, Option, none, some, List, [], ◌∷◌,
  map, ◌==◌, length, filter, any, all, str_eq, if◌then◌else◌, arith, Bool-cases, eq_iff, eq_refl,
  All,
}
use give_exit.Prelude.Dict.{Dict, lookup, insert, lookup-insert}
use give_exit.Rag.{Chunk}
use give_exit.Rag.Memory.{
  MemoryStore, Row, ok, is_of, rows_of, write_rows, is_single_doc, replace_document,
  delete_document, list_document_ids,
}

module _ {Metadata N : Type 0} where
  abbrev is_owned : String → Option (Row Metadata N) → Bool
  is_owned d none = true
  is_owned d (some r) = str_eq r.0.doc_id d

  rows_of-insert :
      (d k : String) (row : Row Metadata N) (rows : Dict (Row Metadata N))
      → str_eq row.0.doc_id d ≡ true
      → is_owned d (lookup k rows) ≡ true
      → rows_of d (insert k row rows) ≡ insert k row (rows_of d rows)
  unfolding rows_of insert lookup
  rows_of-insert d k row [] own free = ground (arith, own)
  rows_of-insert d k row ((j, w) ∷ rows) own free =
      ground (arith, own, free, rows_of-insert d k row rows own)

  rows_of-insert_other :
      (d e k : String) (row : Row Metadata N) (rows : Dict (Row Metadata N))
      → str_eq row.0.doc_id d ≡ true
      → is_owned d (lookup k rows) ≡ true
      → str_eq e d ≡ false
      → rows_of e (insert k row rows) ≡ rows_of e rows
  unfolding rows_of insert lookup
  rows_of-insert_other d e k row [] own free other =
      ground (arith, eq_iff row.0.doc_id d, eq_iff row.0.doc_id e, eq_iff e d)
  rows_of-insert_other d e k row ((j, w) ∷ rows) own free other = ground (
    arith,
    eq_iff row.0.doc_id d,
    eq_iff row.0.doc_id e,
    eq_iff w.0.doc_id d,
    eq_iff w.0.doc_id e,
    eq_iff e d,
    rows_of-insert_other d e k row rows own,
  )

  is_owned-insert :
      (d k j : String) (row : Row Metadata N) (rows : Dict (Row Metadata N))
      → str_eq row.0.doc_id d ≡ true
      → is_owned d (lookup j rows) ≡ true
      → is_owned d (lookup j (insert k row rows)) ≡ true
  is_owned-insert d k j row rows own free = elim (Bool-cases (str_eq k j)) [
    | inl e ↦ rw (lookup-insert k j row rows) (rw e own)
    | inr e ↦ rw (lookup-insert k j row rows) (rw e free)
  ]

  abbrev IsOwn : String → Dict (Row Metadata N) → List (Chunk Metadata) → Type 0
  IsOwn d rows cs =
      All (λ c. (str_eq c.doc_id d ≡ true) × (is_owned d (lookup c.chunk_id rows) ≡ true)) cs

  IsOwn-insert :
      (d k : String) (row : Row Metadata N) (rows : Dict (Row Metadata N))
      (cs : List (Chunk Metadata))
      → str_eq row.0.doc_id d ≡ true
      → IsOwn d rows cs
      → IsOwn d (insert k row rows) cs
  IsOwn-insert d k row rows [] own h = tt
  IsOwn-insert d k row rows (c ∷ cs) own h = (
    (h.0.0, is_owned-insert d k c.chunk_id row rows own h.0.1),
    IsOwn-insert d k row rows cs own h.1,
  )

  rows_of-write_rows :
      (d : String) (cs : List (Chunk Metadata)) (vs : List (List N)) (rows : Dict (Row Metadata N))
      → IsOwn d rows cs
      → rows_of d (write_rows cs vs rows) ≡ write_rows cs vs (rows_of d rows)
  unfolding write_rows
  rows_of-write_rows d [] vs rows h = refl
  rows_of-write_rows d (c ∷ cs) [] rows h = refl
  rows_of-write_rows d (c ∷ cs) (v ∷ vs) rows h =
      rows_of-write_rows d cs vs (insert c.chunk_id (c, v) rows)
        (IsOwn-insert d c.chunk_id (c, v) rows cs h.0.0 h.1)
      ∙ ap (λ r. write_rows cs vs r) (rows_of-insert d c.chunk_id (c, v) rows h.0.0 h.0.1)

  rows_of-write_rows_other :
      (d e : String) (cs : List (Chunk Metadata)) (vs : List (List N))
      (rows : Dict (Row Metadata N))
      → IsOwn d rows cs
      → str_eq e d ≡ false
      → rows_of e (write_rows cs vs rows) ≡ rows_of e rows
  unfolding write_rows
  rows_of-write_rows_other d e [] vs rows h other = refl
  rows_of-write_rows_other d e (c ∷ cs) [] rows h other = refl
  rows_of-write_rows_other d e (c ∷ cs) (v ∷ vs) rows h other =
      rows_of-write_rows_other d e cs vs (insert c.chunk_id (c, v) rows)
        (IsOwn-insert d c.chunk_id (c, v) rows cs h.0.0 h.1) other
      ∙ rows_of-insert_other d e c.chunk_id (c, v) rows h.0.0 h.0.1 other

  -- The rows that `replace_document` and `delete_document` retain.
  abbrev pub others : String → Dict (Row Metadata N) → Dict (Row Metadata N)
  others d rows = filter (λ kv. not (is_of d kv)) rows

  rows_of-others_self : (d : String) (rows : Dict (Row Metadata N)) → rows_of d (others d rows) ≡ []
  unfolding rows_of
  rows_of-others_self d [] = refl
  rows_of-others_self d (kv ∷ rows) = ground (arith, rows_of-others_self d rows)

  rows_of-others :
      (d e : String) (rows : Dict (Row Metadata N))
      → str_eq e d ≡ false
      → rows_of e (others d rows) ≡ rows_of e rows
  unfolding rows_of
  rows_of-others d e [] other = refl
  rows_of-others d e (kv ∷ rows) other =
      ground
        (arith, eq_iff kv.1.0.doc_id d, eq_iff kv.1.0.doc_id e, eq_iff e d, rows_of-others d e rows)

  -- The abstract store, and what putting a document into it means.
  abbrev pub documents : MemoryStore Metadata N → String → Dict (Row Metadata N)
  documents s d = rows_of d s.rows

  abbrev pub put :
      String
      → Dict (Row Metadata N)
      → (String → Dict (Row Metadata N))
      → String
      → Dict (Row Metadata N)
  put d rows m e = if str_eq e d then rows else m e

  IsOwn-fresh :
      (d : String) (rows : Dict (Row Metadata N)) (cs : List (Chunk Metadata))
      → all (λ x. str_eq x.doc_id d) cs ≡ true
      → All (λ x. lookup x.chunk_id rows ≡ none) cs
      → IsOwn d rows cs
  IsOwn-fresh d rows [] h f = tt
  IsOwn-fresh d rows (c ∷ cs) h f =
      ((ground (arith, h), rw f.0 refl), IsOwn-fresh d rows cs (ground (arith, h)) f.1)

  -- Seen as a map from document ids to rows, `replace_document` puts the new rows, as they would
  -- be written into an empty store, at the id of the chunks and changes no other document. Its
  -- conditions: the chunks are of one document, each has one vector, and no other document has a
  -- chunk with one of their ids.
  pub replace_document-refines :
      (c : Chunk Metadata) (cs : List (Chunk Metadata)) (vs : List (List N))
      (s : MemoryStore Metadata N)
      → is_single_doc c cs ≡ true
      → (length (c ∷ cs) == length vs) ≡ true
      → All (λ x. lookup x.chunk_id (others c.doc_id s.rows) ≡ none) (c ∷ cs)
      → ((replace_document (c ∷ cs) vs s).1 ≡ ok tt)
        × ((e : String)
            → documents (replace_document (c ∷ cs) vs s).0 e
              ≡ put c.doc_id (write_rows (c ∷ cs) vs []) (documents s) e)
  unfolding replace_document is_single_doc
  replace_document-refines c cs vs s single paired fresh =
      let d = c.doc_id in
      let own : IsOwn d (others d s.rows) (c ∷ cs) =
        IsOwn-fresh d (others d s.rows) (c ∷ cs) (rw (eq_refl d) single) fresh in
      (
        rw single (rw paired refl),
        λ e. rw single (
            rw paired (elim (Bool-cases (str_eq e d)) [
              | inl t ↦ rw t (
                  rw ((eq_iff e d).0 t) (
                    rows_of-write_rows d (c ∷ cs) vs (others d s.rows) own
                    ∙ ap (λ r. write_rows (c ∷ cs) vs r) (rows_of-others_self d s.rows)))
              | inr t ↦ rw t (
                  rows_of-write_rows_other d e (c ∷ cs) vs (others d s.rows) own t
                  ∙ rows_of-others d e s.rows t)
            ])),
      )

  listed-others :
      (d : String) (rows : Dict (Row Metadata N))
      → any (λ e. str_eq e d) (map (λ kv. kv.1.0.doc_id) (others d rows)) ≡ false
  listed-others d [] = refl
  listed-others d (kv ∷ rows) = ground (arith, listed-others d rows)

  -- Seen as a map from document ids to rows, `delete_document` empties the id and changes no
  -- other document; the id is no longer listed.
  pub delete_document-refines :
      (d : String) (s : MemoryStore Metadata N)
      → ((e : String) → documents (delete_document d s) e ≡ put d [] (documents s) e)
        × (any (λ e. str_eq e d) (list_document_ids (delete_document d s)) ≡ false)
  unfolding delete_document list_document_ids
  delete_document-refines d s = (
    λ e. elim (Bool-cases (str_eq e d)) [
      | inl t ↦ rw t (rw ((eq_iff e d).0 t) (rows_of-others_self d s.rows))
      | inr t ↦ rw t (rows_of-others d e s.rows t)
    ],
    listed-others d s.rows,
  )
