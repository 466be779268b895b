-- ===== src/Evidence/Index.antt =====
-- Which documents the vector store holds for the cases: `_ensure_evidence_indexed`, `create_case`,
-- `delete_case`, `purge_expired_cases` and `purge_orphaned_documents` of `ConsumerCaseService`,
-- app/consumer/service.py. Of the vector store only the ids of its documents are kept. What
-- `index_document` of the retrieval pipeline makes of a document is an input of each run.
mod Sets
pub mod Accounted
pub mod Cleanup
pub mod Runs
pub mod Stranded
pub mod Shared
use give_exit.Prelude.{
  ℕ, String, Bool, true, false, not, ◌||◌, ◌&&◌, Option, none, some, List, [], ◌∷◌, ◌++◌, length,
  filter, any, str_eq, if◌then◌else◌,
}
use give_exit.Prelude.Dict.{insert}
use give_exit.Store.Defs.{
  Payload, Message, Role, assistant, CaseRecord, CaseStore, StoreError, Result, ok, err, touch,
  append_message, Fresh, create, get_authorized, delete_authorized, expire_idle_cases,
  indexed_document_ids,
}

-- A Python set of texts is a list in which only membership is read.
abbrev pub member : String → List String → Bool
member d ds = any (λ e. str_eq e d) ds

-- `discard`
unfoldable pub discard : String → List String → List String
discard d ds = filter (λ e. not (str_eq e d)) ds

-- `add`
unfoldable pub add : String → List String → List String
add d ds = if member d ds then ds else ds ++ d ∷ []

unfoldable pub discard_all : List String → List String → List String
unfolding discard
discard_all [] ds = ds
discard_all (d ∷ more) ds = discard_all more (discard d ds)

-- The cases and the ids of the documents that the vector store holds.
pub record Library (p : Payload) : Type 0 where
  pub cases : CaseStore p
  pub vectors : List String

-- `index_document` raised before it wrote, deleted a document without text, or stored its chunks.
pub data IndexOutcome : Type 0 where
  failed no_chunks stored : IndexOutcome

pub data IndexResult : Type 0 where
  reused indexed no_retrievable_text index_failed : IndexResult

-- record.active_evidence_document_id == current_id
abbrev pub is_active : String → Option String → Bool
is_active current_id none = false
is_active current_id (some d) = str_eq d current_id

module _ {p : Payload} where
  -- The part after `index_document` stored the chunks, on the previously active id.
  unfoldable pub activate :
      String → Option String → CaseRecord p → List String → CaseRecord p × List String
  unfolding add discard
  activate current_id none r vectors = (
    record r {
      active_evidence_document_id = some current_id;
      indexed_document_ids = add current_id r.indexed_document_ids;
    },
    vectors,
  )
  activate current_id (some previous_id) r vectors =
      let ids = add current_id r.indexed_document_ids in
      let is_same = str_eq previous_id current_id in
      (
        record r {
          active_evidence_document_id = some current_id;
          indexed_document_ids = if is_same then ids else discard previous_id ids;
        },
        if is_same then vectors else discard previous_id vectors,
      )

  unfoldable pub index_new :
      IndexOutcome
      → String
      → CaseRecord p
      → List String
      → (CaseRecord p × List String) × IndexResult
  unfolding activate add discard
  index_new failed current_id r vectors = ((r, vectors), index_failed)
  index_new no_chunks current_id r vectors = ((r, discard current_id vectors), no_retrievable_text)
  index_new stored current_id r vectors =
      (activate current_id r.active_evidence_document_id r (add current_id vectors), indexed)

  unfoldable pub ensure_evidence_indexed :
      IndexOutcome
      → String
      → CaseRecord p
      → List String
      → (CaseRecord p × List String) × IndexResult
  unfolding index_new
  ensure_evidence_indexed outcome current_id r vectors =
      if is_active current_id r.active_evidence_document_id
        && member current_id r.indexed_document_ids
      then ((r, vectors), reused)
      else index_new outcome current_id r vectors

  -- The same on the record that the store holds under the id.
  unfoldable pub index_evidence :
      IndexOutcome → String → String → CaseRecord p → Library p → Library p × IndexResult
  unfolding ensure_evidence_indexed insert
  index_evidence outcome current_id case_id r l =
      let done = ensure_evidence_indexed outcome current_id r l.vectors in
      (
        record {
          cases = record l.cases { cases = insert case_id done.0.0 l.cases.cases };
          vectors = done.0.1;
        },
        done.1,
      )

  -- `_delete_indexed_documents`
  unfoldable pub delete_indexed_documents : CaseRecord p → List String → List String
  unfolding discard_all
  delete_indexed_documents r vectors = discard_all r.indexed_document_ids vectors

  unfoldable pub delete_of_all : List (CaseRecord p) → List String → List String
  unfolding delete_indexed_documents
  delete_of_all [] vectors = vectors
  delete_of_all (r ∷ rs) vectors = delete_of_all rs (delete_indexed_documents r vectors)

  unfoldable pub purge_expired_cases : ℕ → Library p → Library p × ℕ
  unfolding delete_of_all expire_idle_cases
  purge_expired_cases now l =
      let (cases, expired) = expire_idle_cases now l.cases in
      (record { cases = cases; vectors = delete_of_all expired l.vectors }, length expired)

  -- `sorted` decides only the order of the deletions.
  unfoldable pub orphans : String → Library p → List String
  unfolding indexed_document_ids
  orphans corpus_id l =
      filter (λ d. not (str_eq d corpus_id || member d (indexed_document_ids l.cases))) l.vectors

  unfoldable pub purge_orphaned_documents : Bool → String → Library p → Library p × ℕ
  unfolding orphans discard_all
  purge_orphaned_documents false corpus_id l = (l, 0)
  purge_orphaned_documents true corpus_id l =
      let gone = orphans corpus_id l in
      (record l { vectors = discard_all gone l.vectors }, length gone)

  -- After `delete_authorized` raised, nothing is deleted.
  unfoldable pub drop_documents :
      CaseStore p × Result (CaseRecord p) → List String → Library p × Result (Unit {0})
  unfolding delete_indexed_documents
  drop_documents (s, err e) vectors = (record { cases = s; vectors = vectors }, err e)
  drop_documents (s, ok r) vectors =
      (record { cases = s; vectors = delete_indexed_documents r vectors }, ok tt)

  -- The greeting is the first message of a new case; a store that is full creates none.
  unfoldable pub greet :
      String
      → ℕ
      → ℕ
      → CaseStore p × Result (CaseRecord p × String)
      → CaseStore p × Result (CaseRecord p × String)
  unfolding touch append_message insert
  greet greeting wall now (s, err e) = (s, err e)
  greet greeting wall now (s, ok (r, token)) =
      let greeted = touch wall now (
        append_message (record { role = assistant; content = greeting }) s.max_messages_per_case
          r) in
      (record s { cases = insert r.case_id greeted s.cases }, ok (greeted, token))

module _ (sha256_hex : String → String) {p : Payload} where
  unfoldable pub delete_case : String → String → ℕ → Library p → Library p × Result (Unit {0})
  unfolding drop_documents delete_authorized
  delete_case case_id token now l =
      drop_documents (delete_authorized sha256_hex case_id token now l.cases) l.vectors

  unfoldable pub create_case :
      String → ℕ → ℕ → Fresh → Library p → Library p × Result (CaseRecord p × String)
  unfolding greet create
  create_case greeting wall now f l =
      let (s, out) = greet greeting wall now (create sha256_hex f l.cases) in
      (record l { cases = s }, out)
