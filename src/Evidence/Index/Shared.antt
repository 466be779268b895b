-- ===== src/Evidence/Index/Shared.antt =====
-- A document id is the hash of the text, so two cases can have one: app/schemas/document.py and
-- the clean-up of app/consumer/service.py.
use give_exit.Prelude.{ℕ, ◌≡◌, ◌≢◌, refl, String, true, false, some, arith, eq_iff, eq_refl}
use give_exit.Prelude.Dict.{lookup, insert, lookup-insert, lookup-without}
use give_exit.Store.Defs.{Payload, CaseRecord, delete_authorized, drop_found, token_digest}
use give_exit.Store.Access.{get_authorized_lem}
use give_exit.Evidence.Index.{
  Library, member, IndexOutcome, reused, ensure_evidence_indexed, delete_case, drop_documents,
  delete_indexed_documents,
}
use give_exit.Evidence.Index.Sets.{member-discard_all}

-- When two cases have indexed one document id, which equal accepted texts give them, deleting one
-- of them takes the document out of the vector store for both: the other case is as it was, and
-- its next indexing, whatever the pipeline would do, reports the missing document as reused and
-- does not store it again.
pub delete_case-shared :
    (h : String → String) (p : Payload) (k j token d : String) (now : ℕ) (oc : IndexOutcome)
    (r o : CaseRecord p) (l : Library p)
    → lookup k l.cases.cases ≡ some r
    → r.token_digest ≡ token_digest h k token
    → member d r.indexed_document_ids ≡ true
    → k ≢ j
    → lookup j l.cases.cases ≡ some o
    → o.active_evidence_document_id ≡ some d
    → member d o.indexed_document_ids ≡ true
    → (member d (delete_case h k token now l).0.vectors ≡ false)
      × (lookup j (delete_case h k token now l).0.cases.cases ≡ some o)
      × (ensure_evidence_indexed oc d o (delete_case h k token now l).0.vectors
          ≡ ((o, (delete_case h k token now l).0.vectors), reused))
unfolding delete_case drop_documents delete_authorized drop_found delete_indexed_documents
    ensure_evidence_indexed
delete_case-shared h p k j token d now oc r o l found right own apart other active own' =
    let granted = (get_authorized_lem h p k token now l.cases).0 r found right in
    (
      rw granted (ground (arith, own, member-discard_all d r.indexed_document_ids l.vectors)),
      rw granted (
          ground (
            arith,
            apart,
            other,
            eq_iff k j,
            lookup-without k j (insert k (record r { last_seen_monotonic = now }) l.cases.cases),
            lookup-insert k j (record r { last_seen_monotonic = now }) l.cases.cases,
          )),
      rw active (rw (eq_refl d) (rw own' refl)),
    )
