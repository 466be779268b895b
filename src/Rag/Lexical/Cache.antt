-- ===== src/Rag/Lexical/Cache.antt =====
-- The token cache is only a cache: app/rag/vector_store.py.
use give_exit.Prelude.{
  ◌≡◌, refl, sym, subst, inl, inr, String, ◌&&◌, List, [], ◌∷◌, map, ◌==◌, Bool-cases, Option-cases,
  eq_iff, All,
}
use give_exit.Prelude.Dict.{Dict, lookup, insert, without}
use give_exit.Prelude.DictLaws
use give_exit.Rag.Lexical.{
  Entry, entry_of, SearchTokenizer, LexicalTokenCache, tokenizer, remember, forget, is_used,
  pop_documents, tokens_and_counts, tokenize_all, or_tokenized,
}

module _ (words : String → List String) where
  -- Every stored entry is what tokenizing its text gives.
  abbrev pub IsFaithful : Dict Entry → Type 0
  IsFaithful d = All (λ kv. kv.1 ≡ entry_of words kv.0) d

  abbrev pub IsCacheFaithful : LexicalTokenCache → Type 0
  IsCacheFaithful c = All (λ kv. IsFaithful kv.1) c.documents

  module _ where
    or_tokenized_lem :
        (text : String) (d : Dict Entry)
        → IsFaithful d
        → or_tokenized words text (lookup text d) ≡ entry_of words text
    unfolding or_tokenized
    or_tokenized_lem text d h = elim (Option-cases (lookup text d)) [
      | inl e ↦ rw e refl
      | inr (v, e) ↦ rw e (
          let (j, t, f) = DictLaws.All-lookup (λ kv. kv.1 ≡ entry_of words kv.0) text d h e in
          subst (λ x. v ≡ entry_of words x) ((eq_iff j text).0 t) f)
    ]

    insert-IsFaithful :
        (text : String) (v : Entry) (d : Dict Entry)
        → v ≡ entry_of words text
        → IsFaithful d
        → IsFaithful (insert text v d)
    insert-IsFaithful text v d e h =
        DictLaws.All-insert (λ kv. kv.1 ≡ entry_of words kv.0) text v d
          (λ j t. subst (λ x. v ≡ entry_of words x) (sym ((eq_iff j text).0 t)) e) h

    tokens_and_counts_lem :
        (text : String) (t : SearchTokenizer)
        → IsFaithful t.cached
        → IsFaithful t.used
        → ((tokens_and_counts words text t).0 ≡ entry_of words text)
          × IsFaithful (tokens_and_counts words text t).1.used
    unfolding tokens_and_counts
    tokens_and_counts_lem text t c u =
        let e = or_tokenized_lem text t.cached c in
        (e, insert-IsFaithful text (or_tokenized words text (lookup text t.cached)) t.used e u)

    -- A faithful tokenizer reads a text as the words do, and stays faithful.
    pub tokenize_all_lem :
        (texts : List String) (t : SearchTokenizer)
        → IsFaithful t.cached
        → IsFaithful t.used
        → ((tokenize_all words texts t).0 ≡ map (entry_of words) texts)
          × IsFaithful (tokenize_all words texts t).1.used
    unfolding tokenize_all tokens_and_counts
    tokenize_all_lem [] t c u = (refl, u)
    tokenize_all_lem (x ∷ xs) t c u =
        let (e, u') = tokens_and_counts_lem x t c u in
        let (es, u'') = tokenize_all_lem xs (tokens_and_counts words x t).1 c u' in (cc, u'')

    -- What a search leaves in the cache is faithful again.
    pub remember-IsCacheFaithful :
        (doc_id : String) (t : SearchTokenizer) (c : LexicalTokenCache)
        → IsFaithful t.used
        → IsCacheFaithful c
        → IsCacheFaithful (remember doc_id t c)
    unfolding remember
    remember-IsCacheFaithful doc_id t c u h =
        elim (Bool-cases (is_used t.used && (t.writes == c.writes))) [
          | inl e ↦
              rw e
                (DictLaws.All-insert (λ kv. IsFaithful kv.1) doc_id t.used c.documents (λ j k. u) h)
          | inr e ↦ rw e h
        ]

    pop_documents-IsFaithful :
        (ids : List String) (d : Dict (Dict Entry))
        → All (λ kv. IsFaithful kv.1) d
        → All (λ kv. IsFaithful kv.1) (pop_documents ids d)
    unfolding pop_documents
    pop_documents-IsFaithful [] d h = h
    pop_documents-IsFaithful (i ∷ is) d h =
        pop_documents-IsFaithful is (without i d)
          (DictLaws.All-without (λ kv. IsFaithful kv.1) i d h)

    pub forget-IsCacheFaithful :
        (ids : List String) (c : LexicalTokenCache)
        → IsCacheFaithful c
        → IsCacheFaithful (forget ids c)
    unfolding forget
    forget-IsCacheFaithful ids c h = pop_documents-IsFaithful ids c.documents h

    pub tokenizer-IsFaithful :
        (doc_id : String) (c : LexicalTokenCache)
        → IsCacheFaithful c
        → IsFaithful (tokenizer doc_id c).cached
    unfolding tokenizer
    tokenizer-IsFaithful doc_id c h = elim (Option-cases (lookup doc_id c.documents)) [
      | inl e ↦ rw e tt
      | inr (d, e) ↦ rw e (DictLaws.All-lookup (λ kv. IsFaithful kv.1) doc_id c.documents h e).2
    ]
