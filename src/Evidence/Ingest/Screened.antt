-- ===== src/Evidence/Ingest/Screened.antt =====
-- Nothing that was not screened reaches the retrieval: `_ingest_document`,
-- app/consumer/service.py.
use give_exit.Prelude.{
  ℕ, suc, ◌≤◌, ◌≡◌, refl, ap, inl, inr, String, Bool, true, false, Option, none, some, List, [],
  ◌∷◌, ◌++◌, leb, length, str_eq, arith, Bool-cases, Option-cases, eq_iff, All, Any, leb→le,
  All-append,
}
use give_exit.Store.Defs.{Payload, CaseRecord, touch, append_message}
use give_exit.Evidence.Defs.{
  PromptInjectionAssessment, failed_scan_assessment, allows_automated_analysis, evidence_status,
  DocumentPage, ParsedDocument, EvidenceMonetaryReference, ConsumerEvidence, StoredEvidence,
  with_evidence,
}
use give_exit.Evidence.Ingest.{
  Mention, Screening, Upload, IngestResult, added, duplicate, over_limit, not_readable,
  find_duplicate, reference_of, references_of, references_of_pages, extract_monetary_references,
  assessment_of, safe_document_of, references_in, stored_evidence, append_evidence, add_parsed,
  unless_duplicate, ingest_document,
}

abbrev pub is_present {ℓ} : {A : Type ℓ} → Option A → Bool
is_present none = false
is_present (some a) = true

-- The safe projection is there exactly when the action allows automated analysis, the status is
-- the action's, and there are 50 amounts at most.
abbrev pub IsScreened : StoredEvidence → Type 0
IsScreened e =
    (is_present e.safe_document
      ≡ allows_automated_analysis e.public.security_assessment.recommended_action)
    × (e.public.status ≡ evidence_status e.public.security_assessment.recommended_action)
    × (length e.public.monetary_references ≤ 50)

-- No file stands twice.
abbrev pub IsDeduplicated : List StoredEvidence → Type 0
IsDeduplicated [] = Unit
IsDeduplicated (e ∷ es) = (find_duplicate e.public.source_sha256 es ≡ none) × IsDeduplicated es

length-snoc {ℓ} : {A : Type ℓ} (xs : List A) (a : A) → length (xs ++ a ∷ []) ≡ suc (length xs)
length-snoc [] a = refl
length-snoc (x ∷ xs) a = ap suc (length-snoc xs a)

find_duplicate-snoc :
    (hash : String) (es : List StoredEvidence) (e : StoredEvidence)
    → find_duplicate hash es ≡ none
    → str_eq e.public.source_sha256 hash ≡ false
    → find_duplicate hash (es ++ e ∷ []) ≡ none
unfolding find_duplicate
find_duplicate-snoc hash [] e h other = rw other refl
find_duplicate-snoc hash (x ∷ xs) e h other = ground (arith, h, find_duplicate-snoc hash xs e)

IsDeduplicated-snoc :
    (es : List StoredEvidence) (e : StoredEvidence)
    → find_duplicate e.public.source_sha256 es ≡ none
    → IsDeduplicated es
    → IsDeduplicated (es ++ e ∷ [])
unfolding find_duplicate
IsDeduplicated-snoc [] e h u = (refl, tt)
IsDeduplicated-snoc (x ∷ xs) e h u = (
  find_duplicate-snoc x.public.source_sha256 xs e u.0 (
      ground (
        arith,
        h,
        eq_iff x.public.source_sha256 e.public.source_sha256,
        eq_iff e.public.source_sha256 x.public.source_sha256,
      )),
  IsDeduplicated-snoc xs e (ground (arith, h)) u.1,
)

-- What a case's evidence always is: screened, each file once, within the limit.
abbrev pub IsEvidence : ℕ → List StoredEvidence → Type 0
IsEvidence max_documents es = All IsScreened es × IsDeduplicated es × (length es ≤ max_documents)

-- A broken scan blocks.
failed_scan :
    (s : Screening) (u : Upload) (d : ParsedDocument)
    → u.scan ≡ none
    → safe_document_of s d (assessment_of s u.scan u.error) ≡ none
unfolding assessment_of safe_document_of failed_scan_assessment
failed_scan s u d broken = rw broken refl

module _ (s : Screening) where
  length-references_of :
      (hash : String) (page : ℕ) (ms : List Mention) (found : List EvidenceMonetaryReference)
      → length found ≤ 49
      → length (references_of s hash page ms found) ≤ 50
  unfolding references_of
  length-references_of hash page [] found h = omega (arith, h)
  length-references_of hash page (m ∷ ms) found h =
      let grown = found ++ reference_of s hash page m ∷ [] in
      let one_more = length-snoc found (reference_of s hash page m) in
      elim (Bool-cases (leb 50 (length grown))) [
        | inl full ↦ rw full (omega (arith, one_more, h))
        | inr room ↦
            rw room (length-references_of hash page ms grown (ground (arith, one_more, h, room)))
      ]

  length-references_of_pages :
      (hash : String) (pages : List DocumentPage) (found : List EvidenceMonetaryReference)
      → length found ≤ 49
      → length (references_of_pages s hash pages found) ≤ 50
  unfolding references_of_pages
  length-references_of_pages hash [] found h = omega (arith, h)
  length-references_of_pages hash (page ∷ pages) found h =
      let grown = references_of s hash page.number (s.extract_brl_mentions page.text) found in
      let bound =
        length-references_of hash page.number (s.extract_brl_mentions page.text) found h in
      elim (Bool-cases (leb 50 (length grown))) [
        | inl full ↦ rw full bound
        | inr room ↦ rw room (length-references_of_pages hash pages grown (ground (arith, room)))
      ]

  stored_evidence-IsScreened :
      (u : Upload) (d : ParsedDocument) (a : PromptInjectionAssessment)
      → IsScreened (stored_evidence s u d a)
  unfolding stored_evidence safe_document_of references_in extract_monetary_references
  stored_evidence-IsScreened u d a =
      elim (Bool-cases (allows_automated_analysis a.recommended_action)) [
        | inl t ↦ rw t (
          refl,
          refl,
          length-references_of_pages u.source_sha256 (s.sanitized_document d a).pages []
              (omega arith),
        )
        | inr t ↦ rw t (refl, refl, omega arith)
      ]

  module _ (p : Payload) where
    add_parsed-IsEvidence :
        (o : Option ParsedDocument) (max_documents : ℕ) (u : Upload) (wall now max_messages : ℕ)
        (r : CaseRecord (with_evidence p))
        → find_duplicate u.source_sha256 r.documents ≡ none
        → suc (length r.documents) ≤ max_documents
        → IsEvidence max_documents r.documents
        → IsEvidence max_documents (add_parsed s p o u wall now max_messages r).0.documents
    unfolding add_parsed append_evidence touch append_message stored_evidence
    add_parsed-IsEvidence none n u wall now mm r new room v = v
    add_parsed-IsEvidence (some d) n u wall now mm r new room (screened, once, bound) =
        let e = stored_evidence s u d (assessment_of s u.scan u.error) in
        (
          All-append IsScreened r.documents (e ∷ []) screened
              (stored_evidence-IsScreened u d (assessment_of s u.scan u.error), tt),
          IsDeduplicated-snoc r.documents e new once,
          omega (arith, length-snoc r.documents e, room),
        )

-- Whatever is uploaded, and whatever the ingestion and the detector answer or raise, the evidence
-- of a case stays screened (a projection for the retrieval exists exactly for an action that
-- allows automated analysis, the status is the action's, and no file gives more than 50 amounts),
-- no file stands in it twice, and it stays within the limit.
pub ingest_document-IsEvidence :
    (s : Screening) (p : Payload) (max_documents : ℕ) (u : Upload) (wall now max_messages : ℕ)
    (r : CaseRecord (with_evidence p))
    → IsEvidence max_documents r.documents
    → IsEvidence max_documents
        (ingest_document s p max_documents u wall now max_messages r).0.documents
unfolding ingest_document unless_duplicate
ingest_document-IsEvidence s p n u wall now mm r v =
    elim (Option-cases (find_duplicate u.source_sha256 r.documents)) [
      | inl new ↦ elim (Bool-cases (leb n (length r.documents))) [
        | inl full ↦ rw new (rw full v)
        | inr room ↦ rw new (
            rw room
              (add_parsed-IsEvidence s p u.document n u wall now mm r new (ground (arith, room)) v))
      ]
      | inr (e, found) ↦ rw found v
    ]

-- The stored evidence has this file.
abbrev pub IsFile : String → StoredEvidence → Type 0
IsFile hash e = e.public.source_sha256 ≡ hash

find_duplicate-none :
    (hash : String) (es : List StoredEvidence)
    → find_duplicate hash es ≡ none
    → All (λ e. ¬ (IsFile hash e)) es
unfolding find_duplicate
find_duplicate-none hash [] h = tt
find_duplicate-none hash (e ∷ es) h = elim (Bool-cases (str_eq e.public.source_sha256 hash)) [
  | inl same ↦ let found = rw same at h in cc
  | inr other ↦ (
    λ k. let same = (eq_iff e.public.source_sha256 hash).1 k in cc,
    find_duplicate-none hash es (rw other at h),
  )
]

find_duplicate-some :
    (hash : String) (es : List StoredEvidence) (found : ConsumerEvidence)
    → find_duplicate hash es ≡ some found
    → Any (λ e. IsFile hash e × (e.public ≡ found)) es
unfolding find_duplicate
find_duplicate-some hash [] found h = cc
find_duplicate-some hash (e ∷ es) found h = elim (Bool-cases (str_eq e.public.source_sha256 hash)) [
  | inl same ↦
      let here = rw same at h in
      let equal : e.public ≡ found = cc in inl ((eq_iff e.public.source_sha256 hash).0 same, equal)
  | inr other ↦ inr (find_duplicate-some hash es found (rw other at h))
]

-- What an ingestion may answer, with its condition and what it does to the record.
abbrev pub IsIngested :
    (p : Payload)
    → ℕ
    → Upload
    → CaseRecord (with_evidence p)
    → CaseRecord (with_evidence p) × IngestResult
    → Type 0
IsIngested p n u r (r', added e) =
    All (λ x. ¬ (IsFile u.source_sha256 x)) r.documents
    × (suc (length r.documents) ≤ n)
    × (is_present u.document ≡ true)
    × (r'.notice ≡ none)
    × (r'.facts_confirmed ≡ false)
    × ((x : StoredEvidence) × (r'.documents ≡ r.documents ++ x ∷ [])
        × (x.public ≡ e)
        × IsFile u.source_sha256 x
        × (u.scan ≡ none → x.safe_document ≡ none))
IsIngested p n u r (r', duplicate e) =
    Any (λ x. IsFile u.source_sha256 x × (x.public ≡ e)) r.documents × (r' ≡ r)
IsIngested p n u r (r', over_limit) =
    All (λ x. ¬ (IsFile u.source_sha256 x)) r.documents × (n ≤ length r.documents) × (r' ≡ r)
IsIngested p n u r (r', not_readable) =
    All (λ x. ¬ (IsFile u.source_sha256 x)) r.documents
    × (suc (length r.documents) ≤ n)
    × (u.document ≡ none)
    × (r' ≡ r)

-- An upload is added exactly when its file is not in the case yet, the case has room and the file
-- is readable: it is appended under its own hash, takes the notice and the confirmation of the
-- facts away, and gives the retrieval nothing if the scan broke. A file that the case has is
-- answered with its stored evidence, a new one above the limit or unreadable is refused, and
-- these leave the record as it was.
pub ingest_document_lem :
    (s : Screening) (p : Payload) (max_documents : ℕ) (u : Upload) (wall now max_messages : ℕ)
    (r : CaseRecord (with_evidence p))
    → IsIngested p max_documents u r (ingest_document s p max_documents u wall now max_messages r)
unfolding ingest_document unless_duplicate add_parsed append_evidence touch append_message
    stored_evidence
ingest_document_lem s p n u wall now mm r =
    elim (Option-cases (find_duplicate u.source_sha256 r.documents)) [
      | inl new ↦
          let fresh = find_duplicate-none u.source_sha256 r.documents new in
          elim (Bool-cases (leb n (length r.documents))) [
            | inl full ↦ rw new (rw full (fresh, leb→le n (length r.documents) full, refl))
            | inr room ↦
                let fits : suc (length r.documents) ≤ n = ground (arith, room) in
                elim (Option-cases u.document) [
                  | inl unread ↦ rw new (rw room (rw unread (fresh, fits, refl, refl)))
                  | inr (d, read) ↦ rw new (
                      rw room (
                        rw read (
                          fresh,
                          fits,
                          refl,
                          refl,
                          refl,
                          (
                            stored_evidence s u d (assessment_of s u.scan u.error),
                            refl,
                            refl,
                            refl,
                            failed_scan s u d,
                          ),
                        )))
                ]
          ]
      | inr (e, found) ↦ rw found (find_duplicate-some u.source_sha256 r.documents e found, refl)
    ]
