-- ===== src/Evidence/Index/Cleanup.antt =====
-- Runs of the evidence index: which steps keep every stored document accounted for, and the
-- start-up purge of app/consumer/service.py.
use give_exit.Prelude.{
  ℕ, ◌≡◌, refl, sym, ap, ◌∙◌, inl, inr, String, Bool, true, false, not, ◌||◌, ◌&&◌, Option, none,
  some, List, [], ◌∷◌, filter, str_eq, arith, Bool-cases, eq_iff,
}
use give_exit.Prelude.Dict.{Dict, lookup, insert, lookup-insert}
use give_exit.Prelude.DictLaws
use give_exit.Store.Defs.{
  Payload, CaseRecord, get_authorized, authorize, delete_authorized, drop_found, owned_documents,
  indexed_document_ids, token_digest,
}
use give_exit.Store.Bounds.{IsValid}
use give_exit.Evidence.Index.{
  Library, member, orphans, purge_orphaned_documents, delete_case, drop_documents,
  delete_indexed_documents,
}
use give_exit.Evidence.Index.Sets.{member-append, member-discard_all}
use give_exit.Evidence.Index.Accounted.{IsAccounted, IsOwned-without, IsOwned-insert, IsOwned-self}

member-filter :
    (d : String) (keep : String → Bool) (ds : List String)
    → member d (filter keep ds) ≡ (keep d && member d ds)
member-filter d keep [] = ground arith
member-filter d keep (x ∷ xs) = elim (Bool-cases (str_eq x d)) [
  | inl t ↦
      let same : keep x ≡ keep d = ap keep ((eq_iff x d).0 t) in
      ground (arith, same, t, member-filter d keep xs)
  | inr t ↦ ground (arith, t, member-filter d keep xs)
]

module _ {p : Payload} where
  pub owner_of :
      (d : String) (cs : Dict (CaseRecord p))
      → DictLaws.Distinct cs
      → member d (owned_documents cs) ≡ true
      → (k : String) × (r : CaseRecord p) × (lookup k cs ≡ some r)
        × (member d r.indexed_document_ids ≡ true)
  unfolding owned_documents
  owner_of d [] u m = cc
  owner_of d ((k, r) ∷ cs) u m = elim (Bool-cases (member d r.indexed_document_ids)) [
    | inl own ↦ (k, r, DictLaws.lookup-head k r cs, own)
    | inr not_own ↦
        let (j, o, at, own) = owner_of d cs u.1 (
          ground
            (arith, m, not_own, member-append d r.indexed_document_ids (owned_documents cs))) in
        (j, o, DictLaws.lookup-tail j k r o cs u.0 at, own)
  ]

  -- The start-up purge keeps a document exactly when it is the legal corpus or a live case owns
  -- it, whatever the store held; switched off it keeps everything.
  pub purge_orphaned_documents_lem :
      (corpus_id d : String) (l : Library p)
      → (member d (purge_orphaned_documents true corpus_id l).0.vectors
          ≡ ((str_eq d corpus_id || member d (indexed_document_ids l.cases)) && member d l.vectors))
        × ((purge_orphaned_documents false corpus_id l).0 ≡ l)
  unfolding purge_orphaned_documents orphans
  purge_orphaned_documents_lem corpus_id d l =
      let keep : String → Bool =
        λ e. not (str_eq e corpus_id || member e (indexed_document_ids l.cases)) in
      (
        ground (
          arith,
          member-discard_all d (filter keep l.vectors) l.vectors,
          member-filter d keep l.vectors,
        ),
        refl,
      )

module _ (h : String → String) {p : Payload} where
  dropped-IsAccounted :
      (corpus_id k token : String) (now : ℕ) (l : Library p) (o : Option (CaseRecord p))
      → lookup k l.cases.cases ≡ o
      → IsAccounted corpus_id l
      → IsAccounted corpus_id
          (drop_documents (drop_found k (authorize h o k token now l.cases)) l.vectors).0
  unfolding authorize drop_found drop_documents delete_indexed_documents
  dropped-IsAccounted corpus_id k token now l none e a = a
  dropped-IsAccounted corpus_id k token now l (some r) e a =
      elim (Bool-cases (str_eq r.token_digest (token_digest h k token))) [
        | inl t ↦ rw t (λ d m.
            let left = member-discard_all d r.indexed_document_ids l.vectors in
            elim (a d (ground (arith, m, left))) [
              | inl c ↦ inl c
              | inr o ↦ inr (
                  IsOwned-without d k r (record r { last_seen_monotonic = now }) l.cases e
                    (ground (arith, m, left)) o)
            ])
        | inr t ↦ rw t a
      ]

  pub delete_case-IsAccounted :
      (corpus_id k token : String) (now : ℕ) (l : Library p)
      → IsAccounted corpus_id l
      → IsAccounted corpus_id (delete_case h k token now l).0
  unfolding delete_case delete_authorized get_authorized
  delete_case-IsAccounted corpus_id k token now l a =
      dropped-IsAccounted corpus_id k token now l (lookup k l.cases.cases) refl a

  -- After the purge, whatever the store held.
  pub purged-IsAccounted :
      (corpus_id : String) (l : Library p)
      → IsValid l.cases
      → IsAccounted corpus_id (purge_orphaned_documents true corpus_id l).0
  unfolding purge_orphaned_documents indexed_document_ids
  purged-IsAccounted corpus_id l v d m =
      let kept = (purge_orphaned_documents_lem corpus_id d l).0 in
      elim (Bool-cases (str_eq d corpus_id)) [
        | inl c ↦ inl c
        | inr c ↦ inr (owner_of d l.cases.cases v.distinct (ground (arith, m, kept, c)))
      ]

  pub purge_orphaned-IsAccounted :
      (corpus_id : String) (on : Bool) (l : Library p)
      → IsValid l.cases
      → IsAccounted corpus_id l
      → IsAccounted corpus_id (purge_orphaned_documents on corpus_id l).0
  unfolding purge_orphaned_documents
  purge_orphaned-IsAccounted corpus_id false l v a d m = a d m
  purge_orphaned-IsAccounted corpus_id true l v a d m = purged-IsAccounted corpus_id l v d m

  -- Every other write of the service leaves the indexed ids alone.
  pub rewrite-IsAccounted :
      (corpus_id k : String) (r q : CaseRecord p) (l : Library p)
      → lookup k l.cases.cases ≡ some r
      → q.indexed_document_ids ≡ r.indexed_document_ids
      → IsAccounted corpus_id l
      → IsAccounted corpus_id
          (record l { cases = record l.cases { cases = insert k q l.cases.cases } })
  rewrite-IsAccounted corpus_id k r q l e same a d m =
      elim (Bool-cases (member d r.indexed_document_ids)) [
        | inl own ↦ inr (IsOwned-self d k q l.cases (rw same own))
        | inr free ↦ elim (a d m) [
          | inl c ↦ inl c
          | inr o ↦ inr (IsOwned-insert d k r q l.cases e free o)
        ]
      ]

  -- A new case under a new id, when no case is idle.
  pub open_case-IsAccounted :
      (corpus_id k : String) (q : CaseRecord p) (l : Library p)
      → lookup k l.cases.cases ≡ none
      → IsAccounted corpus_id l
      → IsAccounted corpus_id
          (record l { cases = record l.cases { cases = insert k q l.cases.cases } })
  open_case-IsAccounted corpus_id k q l new a d m = elim (a d m) [
    | inl c ↦ inl c
    | inr (j, o, at, own) ↦ elim (Bool-cases (str_eq k j)) [
      | inl t ↦ let gone : none ≡ some o = sym new ∙ (rw ((eq_iff k j).0 t) at) in cc
      | inr t ↦ inr (j, o, rw (lookup-insert k j q l.cases.cases) (rw t at), own)
    ]
  ]
