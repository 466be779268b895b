-- ===== src/Evidence/Index/Runs.antt =====
-- The evidence index over the life of a process: app/consumer/service.py.
use give_exit.Prelude.{
  ℕ, ◌≡◌, refl, sym, ap, subst, inl, inr, String, Bool, true, false, ◌&&◌, Option, none, some, List,
  [], Bool-cases, leb, length,
}
use give_exit.Prelude.Dict.{lookup, insert, lookup-insert_self}
use give_exit.Store.Defs.{
  Payload, CaseRecord, CaseStore, Result, ok, err, expire_idle_cases, pop_all, Fresh, create,
  new_record, init, append_message, touch, Message, assistant,
}
use give_exit.Store.Bounds.{
  IsValid, IsBounded, stored_bounds, write-IsValid, expire-IsValid, create-IsValid,
  delete_authorized-IsValid,
}
use give_exit.Store.Reachable.{Write, Write-IsBounded, message, init-IsValid}
use give_exit.Evidence.Index.{
  Library, member, IndexOutcome, failed, no_chunks, stored, is_active, activate, index_new,
  ensure_evidence_indexed, index_evidence, purge_expired_cases, purge_orphaned_documents,
  delete_case, drop_documents, create_case, greet,
}
use give_exit.Evidence.Index.Accounted.{
  IsAccounted, index_evidence-IsAccounted, purge_expired-IsAccounted,
}
use give_exit.Evidence.Index.Cleanup.{
  delete_case-IsAccounted, purged-IsAccounted, purge_orphaned-IsAccounted, rewrite-IsAccounted,
  open_case-IsAccounted,
}

module _ (h : String → String) {p : Payload} (corpus_id : String) where
  -- One operation of the service. A case is opened while no case is idle, under a new id; any
  -- other write to a record leaves its indexed ids alone.
  pub data Step (l : Library p) : Library p → Type 0 where
    indexing :
        (oc : IndexOutcome) (doc_id k : String) (r : CaseRecord p)
        → lookup k l.cases.cases ≡ some r
        → Step l (index_evidence oc doc_id k r l).0
    deleting : (k token : String) (now : ℕ) → Step l (delete_case h k token now l).0
    purging : (now : ℕ) → Step l (purge_expired_cases now l).0
    sweeping : (on : Bool) → Step l (purge_orphaned_documents on corpus_id l).0
    writing :
        (k : String) (r q : CaseRecord p)
        → lookup k l.cases.cases ≡ some r
        → Write h l.cases r q
        → q.indexed_document_ids ≡ r.indexed_document_ids
        → Step l (record l { cases = record l.cases { cases = insert k q l.cases.cases } })
    opening :
        (greeting : String) (wall now : ℕ) (f : Fresh)
        → (expire_idle_cases f.now l.cases).1 ≡ []
        → lookup f.case_id l.cases.cases ≡ none
        → Step l (create_case h greeting wall now f l).0

  pub data Run (l : Library p) : Library p → Type 0 where
    start : Run l l
    then : {m n : Library p} → Run l m → Step m n → Run l n

  -- Indexing does not touch what bounds a record.
  abbrev SameBounds : CaseRecord p → CaseRecord p → Type 0
  SameBounds q r =
      (q.case_id ≡ r.case_id)
      × (q.messages ≡ r.messages)
      × (q.idempotent_messages ≡ r.idempotent_messages)

  activate_bounds :
      (d : String) (o : Option String) (r : CaseRecord p) (ds : List String)
      → SameBounds (activate d o r ds).0 r
  unfolding activate
  activate_bounds d none r ds = (refl, refl, refl)
  activate_bounds d (some e) r ds = (refl, refl, refl)

  index_new_bounds :
      (oc : IndexOutcome) (d : String) (r : CaseRecord p) (ds : List String)
      → SameBounds (index_new oc d r ds).0.0 r
  unfolding index_new
  index_new_bounds failed d r ds = (refl, refl, refl)
  index_new_bounds no_chunks d r ds = (refl, refl, refl)
  index_new_bounds stored d r ds = activate_bounds d r.active_evidence_document_id r _

  ensure_bounds :
      (oc : IndexOutcome) (d : String) (r : CaseRecord p) (ds : List String)
      → SameBounds (ensure_evidence_indexed oc d r ds).0.0 r
  unfolding ensure_evidence_indexed
  ensure_bounds oc d r ds =
      elim (Bool-cases
        (is_active d r.active_evidence_document_id && member d r.indexed_document_ids)) [
          | inl t ↦ rw t (refl, refl, refl)
          | inr t ↦ rw t (index_new_bounds oc d r ds)
        ]

  IsBounded-as :
      (m n : ℕ) (k : String) (q r : CaseRecord p)
      → SameBounds q r
      → IsBounded m n (k, r)
      → IsBounded m n (k, q)
  IsBounded-as m n k q r (a, b, c) v = (rw a v.0, rw b v.1, rw c v.2)

  index-IsValid :
      (oc : IndexOutcome) (d k : String) (r : CaseRecord p) (l : Library p)
      → lookup k l.cases.cases ≡ some r
      → IsValid l.cases
      → IsValid (index_evidence oc d k r l).0.cases
  unfolding index_evidence
  index-IsValid oc d k r l e v =
      let q = (ensure_evidence_indexed oc d r l.vectors).0.0 in
      write-IsValid h k r q l.cases v e (
        IsBounded-as l.cases.max_messages_per_case l.cases.max_idempotency_keys_per_case k q r
          (ensure_bounds oc d r l.vectors) (stored_bounds k r l.cases v e))

  drop_documents_cases :
      (out : CaseStore p × Result (CaseRecord p)) (ds : List String)
      → (drop_documents out ds).0.cases ≡ out.0
  unfolding drop_documents
  drop_documents_cases (s, err e) ds = refl
  drop_documents_cases (s, ok r) ds = refl

  delete-IsValid :
      (k token : String) (now : ℕ) (l : Library p)
      → IsValid l.cases
      → IsValid (delete_case h k token now l).0.cases
  unfolding delete_case
  delete-IsValid k token now l v =
      subst IsValid (sym (drop_documents_cases _ l.vectors))
        (delete_authorized-IsValid h k token now l.cases v)

  sweep_cases :
      (on : Bool) (l : Library p) → (purge_orphaned_documents on corpus_id l).0.cases ≡ l.cases
  unfolding purge_orphaned_documents
  sweep_cases true l = refl
  sweep_cases false l = refl

  abbrev IsGood : Library p → Type 0
  IsGood l = IsValid l.cases × IsAccounted corpus_id l

  expire_none :
      (now : ℕ) (s : CaseStore p)
      → (expire_idle_cases now s).1 ≡ []
      → (expire_idle_cases now s).0 ≡ s
  unfolding expire_idle_cases pop_all
  expire_none now s e = ap (λ es. record s { cases = pop_all es s.cases }) e

  -- The new record, then the same record with its greeting.
  open-IsAccounted :
      (k : String) (r q : CaseRecord p) (l : Library p)
      → lookup k l.cases.cases ≡ none
      → q.indexed_document_ids ≡ r.indexed_document_ids
      → IsAccounted corpus_id l
      → IsAccounted corpus_id
          (record l { cases = record l.cases { cases = insert k q (insert k r l.cases.cases) } })
  open-IsAccounted k r q l new same a =
      rewrite-IsAccounted h corpus_id k r q
        (record l { cases = record l.cases { cases = insert k r l.cases.cases } })
        (lookup-insert_self k r l.cases.cases) same (open_case-IsAccounted h corpus_id k r l new a)

  opened-IsAccounted :
      (greeting : String) (wall now : ℕ) (f : Fresh) (l : Library p)
      → (expire_idle_cases f.now l.cases).1 ≡ []
      → lookup f.case_id l.cases.cases ≡ none
      → IsAccounted corpus_id l
      → IsAccounted corpus_id (create_case h greeting wall now f l).0
  unfolding create_case create greet new_record touch append_message
  opened-IsAccounted greeting wall now f l idle new a =
      rw (expire_none f.now l.cases idle)
        (elim (Bool-cases (leb l.cases.max_active_cases (length l.cases.cases))) [
          | inl full ↦ rw full a
          | inr room ↦ rw room (open-IsAccounted f.case_id _ _ l new refl a)
        ])

  greet-IsValid :
      (greeting : String) (wall now : ℕ) (out : CaseStore p × Result (CaseRecord p × String))
      → IsValid out.0
      → ((r : CaseRecord p) (t : String)
          → out.1 ≡ ok (r, t)
          → lookup r.case_id out.0.cases ≡ some r)
      → IsValid (greet greeting wall now out).0
  unfolding greet touch append_message
  greet-IsValid greeting wall now (s, err e) v at = v
  greet-IsValid greeting wall now (s, ok (r, t)) v at =
      let found = at r t refl in
      let m : Message = record { role = assistant; content = greeting } in
      write-IsValid h r.case_id r _ s v found (
        Write-IsBounded h r.case_id s r (append_message m s.max_messages_per_case r) (message m)
          (stored_bounds r.case_id r s v found))

  created_found :
      (f : Fresh) (s : CaseStore p) (r : CaseRecord p) (t : String)
      → (create h f s).1 ≡ ok (r, t)
      → lookup r.case_id (create h f s).0.cases ≡ some r
  unfolding create new_record
  created_found f s r t e =
      let s' = (expire_idle_cases f.now s).0 in
      elim (Bool-cases (leb s'.max_active_cases (length s'.cases))) [
        | inl full ↦ let no_case = rw full at e in cc
        | inr room ↦
            let made = rw room at e in
            let same : new_record h f ≡ r = cc in
            rw room (rw (← same) (lookup-insert_self f.case_id (new_record h f) s'.cases))
      ]

  pub create_case-IsValid :
      (greeting : String) (wall now : ℕ) (f : Fresh) (l : Library p)
      → IsValid l.cases
      → IsValid (create_case h greeting wall now f l).0.cases
  unfolding create_case
  create_case-IsValid greeting wall now f l v =
      greet-IsValid greeting wall now (create h f l.cases) (create-IsValid h f l.cases v)
        (λ r t e. created_found f l.cases r t e)

  Step-IsGood : {l m : Library p} → Step l m → IsGood l → IsGood m
  unfolding purge_expired_cases
  Step-IsGood {l} (indexing oc d k r e) (v, a) =
      (index-IsValid oc d k r l e v, index_evidence-IsAccounted corpus_id oc d k r l e a)
  Step-IsGood {l} (deleting k token now) (v, a) =
      (delete-IsValid k token now l v, delete_case-IsAccounted h corpus_id k token now l a)
  Step-IsGood {l} (purging now) (v, a) =
      (expire-IsValid now l.cases v, purge_expired-IsAccounted corpus_id now l v a)
  Step-IsGood {l} (sweeping on) (v, a) =
      (subst IsValid (sym (sweep_cases on l)) v, purge_orphaned-IsAccounted h corpus_id on l v a)
  Step-IsGood {l} (writing k r q e w same) (v, a) = (
    write-IsValid h k r q l.cases v e
        (Write-IsBounded h k l.cases r q w (stored_bounds k r l.cases v e)),
    rewrite-IsAccounted h corpus_id k r q l e same a,
  )
  Step-IsGood {l} (opening greeting wall now f idle new) (v, a) = (
    create_case-IsValid greeting wall now f l v,
    opened-IsAccounted greeting wall now f l idle new a,
  )

  Run-IsGood : {l m : Library p} → Run l m → IsGood l → IsGood m
  Run-IsGood start g = g
  Run-IsGood (then r st) g = Step-IsGood st (Run-IsGood r g)

-- A process that starts with an empty case store and the start-up purge, whatever documents the
-- vector store held before, never holds a document that is neither the legal corpus nor owned by
-- a live case, after any sequence of indexing, deletions, expiry purges, sweeps, other writes to
-- records, and case creations at which no case is idle and the new id is unused.
pub vectors-IsAccounted :
    (h : String → String) (p : Payload) (corpus_id : String)
    (max_cases ttl max_messages max_keys : ℕ) (s : CaseStore p) (vectors : List String)
    (l : Library p)
    → init p max_cases ttl max_messages max_keys ≡ ok s
    → Run h corpus_id
        (purge_orphaned_documents true corpus_id (record { cases = s; vectors = vectors })).0
        l
    → IsAccounted corpus_id l
vectors-IsAccounted h p corpus_id a b c d s vectors l e run =
    let l0 : Library p = record { cases = s; vectors = vectors } in
    let v = init-IsValid h a b c d s e in
    (Run-IsGood h corpus_id run (
      subst IsValid (sym (sweep_cases h corpus_id true l0)) v,
      purged-IsAccounted h corpus_id l0 v,
    )).1
