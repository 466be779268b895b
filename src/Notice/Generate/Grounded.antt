-- ===== src/Notice/Generate/Grounded.antt =====
-- What a generated notice rests on, and what a refused one leaves: `_generate_notice`,
-- app/consumer/service.py.
use give_exit.Prelude.{
  ℕ, ◌≡◌, refl, ◌∙◌, inl, inr, String, Bool, true, false, ◌&&◌, Option, none, some, List, [], arith,
  Bool-cases,
}
use give_exit.Prelude.Score.{Score}
use give_exit.Store.Defs.{Payload, CaseRecord, touch}
use give_exit.Evidence.Index.{
  IndexOutcome, failed, no_chunks, stored, IndexResult, reused, indexed, no_retrievable_text,
  index_failed, member, is_active, activate, index_new, ensure_evidence_indexed,
}
use give_exit.Evidence.Defs.{doc_id}
use give_exit.Notice.Combined.{PageSource, accepted_documents, combined_evidence}
use give_exit.Notice.Citations.{
  EvidenceCitation, evidence_references, NoticeGenerationMode, is_case_mode, is_nothing,
  is_grounded,
}
use give_exit.Notice.Generate.{
  Support, ConsumerNotice, Drafting, NoticeError, ok, err, case_payload, complaint_of,
  generation_blockers, scope_verification_of, check_scope, Outcome, write_notice, draft,
  retrieve_and_draft, index_and_draft, draft_in_scope, generate_notice,
}

module _ {p : Payload} where
  -- The generation leaves these parts of the record alone.
  abbrev pub IsKept : CaseRecord p → CaseRecord p → Type 0
  IsKept r q =
      (q.notice ≡ r.notice)
      × (q.facts ≡ r.facts)
      × (q.documents ≡ r.documents)
      × (q.facts_confirmed ≡ r.facts_confirmed)

  IsKept-trans : (r q x : CaseRecord p) → IsKept r q → IsKept q x → IsKept r x
  IsKept-trans r q x (a, b, c, e) (a', b', c', e') = (a' ∙ a, b' ∙ b, c' ∙ c, e' ∙ e)

  activate-IsKept :
      (d : String) (o : Option String) (r : CaseRecord p) (ds : List String)
      → IsKept r (activate d o r ds).0
  unfolding activate
  activate-IsKept d none r ds = (refl, refl, refl, refl)
  activate-IsKept d (some e) r ds = (refl, refl, refl, refl)

  index_new-IsKept :
      (oc : IndexOutcome) (d : String) (r : CaseRecord p) (ds : List String)
      → IsKept r (index_new oc d r ds).0.0
  unfolding index_new
  index_new-IsKept failed d r ds = (refl, refl, refl, refl)
  index_new-IsKept no_chunks d r ds = (refl, refl, refl, refl)
  index_new-IsKept stored d r ds = activate-IsKept d r.active_evidence_document_id r _

  ensure-IsKept :
      (oc : IndexOutcome) (d : String) (r : CaseRecord p) (ds : List String)
      → IsKept r (ensure_evidence_indexed oc d r ds).0.0
  unfolding ensure_evidence_indexed
  ensure-IsKept oc d r ds =
      elim (Bool-cases
        (is_active d r.active_evidence_document_id && member d r.indexed_document_ids)) [
          | inl t ↦ rw t (refl, refl, refl, refl)
          | inr t ↦ rw t (index_new-IsKept oc d r ds)
        ]

module _ {Facts Ground Scenario Prose Metadata N : Type 0} (no_facts : Facts)
    (d : Drafting Facts Ground Scenario Prose Metadata N) ⦃s : Score N⦄
    (mode : NoticeGenerationMode) (notice_id : String) (wall now : ℕ) where
  -- A notice that was made stands in the record and cites; a refusal leaves the record's own.
  abbrev pub IsSound :
      CaseRecord (case_payload no_facts d)
      → Outcome no_facts d (ConsumerNotice Ground Scenario)
      → Type 0
  IsSound r ((q, vectors), err e) = IsKept r q
  IsSound r ((q, vectors), ok n) =
      (q.notice ≡ some n)
      × (n.case_id ≡ q.case_id)
      × (is_nothing n.legal_grounds ≡ false)
      × (is_case_mode mode ≡ true → is_nothing n.evidence_references ≡ false)

  write_notice-IsSound :
      (r0 r : CaseRecord (case_payload no_facts d)) (vectors : List String)
      (references : List EvidenceCitation) (grounds : List Ground) (settled : Option Scenario)
      → IsKept r0 r
      → is_grounded grounds references (is_case_mode mode) ≡ true
      → IsSound r0
          (write_notice no_facts d mode notice_id wall now r vectors references grounds settled)
  unfolding write_notice touch is_grounded
  write_notice-IsSound r0 r vectors references grounds none k g = k
  write_notice-IsSound r0 r vectors references grounds (some x) k g =
      (refl, refl, ground (arith, g), (λ m. ground (arith, g, m)))

  draft-IsSound :
      (r0 r : CaseRecord (case_payload no_facts d)) (vectors : List String)
      (sources : List PageSource) (support : Option (Support Metadata N))
      → IsKept r0 r
      → IsSound r0 (draft no_facts d mode notice_id wall now r vectors sources support)
  unfolding draft
  draft-IsSound r0 r vectors sources none k = k
  draft-IsSound r0 r vectors sources (some x) k =
      let references =
        evidence_references d.quoting r.facts d.casefold x.evidence_results sources
          x.evidence_traces in
      elim (Bool-cases (is_grounded (d.grounds r.facts x) references (is_case_mode mode))) [
        | inl b ↦ rw b (
            write_notice-IsSound r0 r vectors references (d.grounds r.facts x)
              (d.settle r.facts r.documents) k b)
        | inr b ↦ rw b k
      ]

  retrieve_and_draft-IsSound :
      (r0 r : CaseRecord (case_payload no_facts d)) (vectors : List String) (id : String)
      (sources : List PageSource) (x : IndexResult)
      → IsKept r0 r
      → IsSound r0
          (retrieve_and_draft no_facts d mode notice_id wall now id sources ((r, vectors), x))
  unfolding retrieve_and_draft
  retrieve_and_draft-IsSound r0 r vectors id sources no_retrievable_text k = k
  retrieve_and_draft-IsSound r0 r vectors id sources index_failed k = k
  retrieve_and_draft-IsSound r0 r vectors id sources indexed k =
      draft-IsSound r0 r vectors sources (d.retrieve r.facts (some id)) k
  retrieve_and_draft-IsSound r0 r vectors id sources reused k =
      draft-IsSound r0 r vectors sources (d.retrieve r.facts (some id)) k

  index_and_draft-IsSound :
      (oc : IndexOutcome) (r0 r : CaseRecord (case_payload no_facts d)) (vectors : List String)
      → IsKept r0 r
      → IsSound r0 (index_and_draft no_facts d mode notice_id wall now oc r vectors)
  unfolding index_and_draft
  index_and_draft-IsSound oc r0 r vectors k =
      let (document, sources) = combined_evidence r.case_id r.documents in
      let id = doc_id d.quoting.sha256_hex d.first document in
      let e = ensure_evidence_indexed oc id r vectors in
      elim (Bool-cases (is_nothing (accepted_documents r.documents))) [
        | inl b ↦ rw b (draft-IsSound r0 r vectors [] (d.retrieve r.facts none) k)
        | inr b ↦ rw b (
            retrieve_and_draft-IsSound r0 e.0.0 e.0.1 id sources e.1
              (IsKept-trans r0 r e.0.0 k (ensure-IsKept oc id r vectors)))
      ]

  -- What lets the generation pass the first tests.
  abbrev pub Passes : Bool → CaseRecord (case_payload no_facts d) → Type 0
  Passes corpus_ready r =
      (is_nothing (generation_blockers no_facts d mode r) ≡ true)
      × (d.is_consumer_scope (complaint_of no_facts d r.facts) ≡ true)
      × ((scope_verification_of no_facts d r.facts r.scope_verification).removed ≡ false)
      × (corpus_ready ≡ true)

  module _ (corpus_ready : Bool) (oc : IndexOutcome) (r : CaseRecord (case_payload no_facts d))
      (vectors : List String) where
    abbrev out : Outcome no_facts d (ConsumerNotice Ground Scenario)
    out = generate_notice no_facts d mode notice_id wall now corpus_ready oc r vectors

    -- A property of the outcome that holds on every refusal, and past all tests.
    generate_cases :
        (Q : Outcome no_facts d (ConsumerNotice Ground Scenario) → Type 0)
        → ((q : CaseRecord (case_payload no_facts d)) (e : NoticeError)
            → IsKept r q
            → Q ((q, vectors), err e))
        → ((q : CaseRecord (case_payload no_facts d))
            → IsKept r q
            → Passes corpus_ready r
            → Q (index_and_draft no_facts d mode notice_id wall now oc q vectors))
        → Q out
    unfolding generate_notice draft_in_scope check_scope
    generate_cases Q refused passed =
        let v = scope_verification_of no_facts d r.facts r.scope_verification in
        elim (Bool-cases (is_nothing (generation_blockers no_facts d mode r))) [
          | inl a ↦ elim (Bool-cases (d.is_consumer_scope (complaint_of no_facts d r.facts))) [
            | inl b ↦ elim (Bool-cases v.removed) [
              | inl c ↦ rw a (rw b (rw c (refused _ _ (refl, refl, refl, refl))))
              | inr c ↦ elim (Bool-cases corpus_ready) [
                | inl e ↦ rw a (rw b (rw c (rw e (passed _ (refl, refl, refl, refl) (a, b, c, e)))))
                | inr e ↦ rw a (rw b (rw c (rw e (refused _ _ (refl, refl, refl, refl)))))
              ]
            ]
            | inr b ↦ rw a (rw b (refused _ _ (refl, refl, refl, refl)))
          ]
          | inr a ↦ rw a (refused r _ (refl, refl, refl, refl))
        ]

    abbrev IsPassed : Outcome no_facts d (ConsumerNotice Ground Scenario) → Type 0
    IsPassed (q, err e) = Unit
    IsPassed (q, ok n) = Passes corpus_ready r

    IsPassed-any :
        (o : Outcome no_facts d (ConsumerNotice Ground Scenario))
        → Passes corpus_ready r
        → IsPassed o
    IsPassed-any (q, err e) h = tt
    IsPassed-any (q, ok n) h = h

    -- A notice is made only when nothing blocks its mode, the complaint is a consumer's, its scope
    -- verification did not remove it and the legal corpus is indexed. It is then in the record,
    -- carries the record's case id and at least one legal ground, and in the mode of a full case at
    -- least one documentary citation. Every refusal, at whatever step, leaves the notice, the
    -- facts, their confirmation and the documents as they were.
    pub generate_notice_lem : IsSound r out × IsPassed out
    generate_notice_lem = (
      generate_cases (IsSound r) (λ q e k. k) (λ q k h. index_and_draft-IsSound oc r q vectors k),
      generate_cases IsPassed (λ q e k. tt)
          (λ q k h.
            IsPassed-any (index_and_draft no_facts d mode notice_id wall now oc q vectors) h),
    )
