-- ===== src/Lib.antt =====
-- The verification library of the consumer-notice service.
--
-- The service helps a consumer write a notice to a supplier. A case collects messages, facts and
-- evidence (app/consumer/store.py, app/consumer/service.py); evidence and law are cut into chunks
-- (app/rag/chunking.py), embedded (app/rag/embeddings.py behind app/rag/resilience.py), searched
-- in a dense and a lexical channel and fused (app/rag/pipeline.py); a deterministic policy
-- (app/consumer/legal_policy.py, app/consumer/ground_selection.py) decides which provisions the
-- notice cites; app/consumer/settlement.py computes its proposal. HTTP requests pass the guards
-- of app/api/security.py and app/api/uploads.py, model calls the retry of app/llm/retry.py.
--
-- Files and the code that they model:
--   Prelude       tests, lists, texts, dictionaries, stable sorting and the Score interface (the
--                 order of Python floats and the laws that rounding keeps) that all files share
--   Store         ConsumerCaseRecord and ConsumerCaseStore: create, expire_idle_cases,
--                 get_authorized, delete_authorized and the writers of a record; Reachable closes
--                 them under any sequence of operations
--   Api           RateLimit: SlidingWindowRateLimiter; Body: BodySizeLimitMiddleware over an
--                 application as a tree of receives and sends; Client: client_identifier;
--                 Upload: write_upload_in_chunks
--   Llm           Retry: RetryingLLMClient._call
--   Settlement    SettlementCalculator, amounts in cents
--   Rag           Fusion and Tiers: reciprocal_rank_fusion and _within_agreement_tiers; Guard:
--                 QueryEmbeddingGuard, its cache as a function of the queries, its slots and
--                 circuit as steps that interleave; Boundaries: split_at_boundaries; Chunker:
--                 SectionAwareChunker; Lexical: _LexicalTokenCache, _SearchTokenizer and
--                 _bm25_rank; Memory: InMemoryVectorStore, as a map from documents to rows;
--                 Retrieve: retrieve_many_with_traces and its lexical fallback, over an interface
--                 of the store, the embedding of the queries and the reranker
--   Policy        Support: strongly_supported_chunk_ids; Window: precedence_window and
--                 enforce_cdc_anchor; Eligibility: provision_is_eligible; Aliases:
--                 is_alias_chunk_id
--   Grounds       select_legal_grounds, from the policy and an interface of the corpus
--   Verifiers     Quote: verified_quote; Ground: apply_verdicts and LLMGroundVerifier; Scope:
--                 LLMScopeVerifier; the model's answer or failure is an input
--   Service       ConsumerCaseService: add_message, _snapshot and _readiness_missing, over the store and
--                 an interface of the intake
--   Evidence      ConsumerCaseService on uploads: Defs: what is stored of a file; Ingest:
--                 _ingest_document; Index: _ensure_evidence_indexed, create_case, delete_case,
--                 purge_expired_cases and purge_orphaned_documents over the case store and the ids of
--                 the vector store's documents; Support: evidence_supports_confirmed_facts, over an
--                 interface of the regular expressions and the words of a text; Facts:
--                 update_facts over an interface of pydantic's validation, and _settlement_inputs
--   Notice        ConsumerCaseService on notices: Combined: _combined_evidence; Citations:
--                 _evidence_references and _require_grounding; Annotation:
--                 _annotate_composer_selection; Generate: _generate_notice, over the
--                 readiness of Service, the index of Evidence and an interface of the other parts
--   Tests         concrete runs to which the theorems apply
--
-- Python dictionaries are association lists in insertion order; sorted() is a stable insertion
-- sort. Clocks, delays and timeouts are whole ticks; a jittered delay is counted in parts of a tick,
-- by the scale of the random draws. A limit or a capacity is the number that the source is
-- configured with.
--
-- Fuel: split_at_boundaries runs on the length of the text and one more, and every round takes a
-- character off; move_back runs on the limit, since each word break is earlier than the last. All
-- other loops are recursion on a list or on the number of attempts.
--
-- Arguments, because their code is in a library: SHA-256, Unicode case folding and letter tests,
-- regular expression searches, the random ids, tokens and draws, the embedder and the float test of a
-- vector, the words of a text for lexical search and the weight of a term. Not modelled: locks,
-- logging, the remote models, the databases, PDF and OCR reading, the
-- web framework's wiring, the prompt texts and the notice's templates.
pub mod Prelude
pub mod Store
pub mod Api
pub mod Llm
pub mod Settlement
pub mod Rag
pub mod Policy
pub mod Evidence
pub mod Grounds
pub mod Verifiers
pub mod Notice
pub mod Service
pub mod Tests
