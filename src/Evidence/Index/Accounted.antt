-- ===== src/Evidence/Index/Accounted.antt =====
-- Every document of the vector store is the legal corpus or belongs to a live case, and what
-- keeps it so: the clean-up of app/consumer/service.py.
use give_exit.Prelude.{
  ℕ, ◌≡◌, ◌⊎◌, refl, sym, ◌∙◌, inl, inr, String, Bool, true, false, ◌&&◌, Option, none, some, List,
  [], ◌∷◌, filter, any, str_eq, arith, Bool-cases, eq_iff, eq_refl,
}
use give_exit.Prelude.Dict.{Dict, lookup, insert, without, lookup-insert, lookup-without}
use give_exit.Store.Defs.{Payload, CaseRecord, CaseStore, is_idle, records, expire_idle_cases}
use give_exit.Store.Bounds.{IsValid}
use give_exit.Store.Expiry.{expire_idle_cases_lem}
use give_exit.Evidence.Index.{
  Library, member, add, IndexOutcome, failed, no_chunks, stored, is_active, activate, index_new,
  ensure_evidence_indexed, index_evidence, purge_expired_cases,
}
use give_exit.Evidence.Index.Sets.{member-discard, member-add, member-delete_of_all}

module _ {p : Payload} where
  -- A live case has the document among its indexed ones.
  abbrev pub IsOwned : String → CaseStore p → Type 0
  IsOwned d s =
      (k : String) × (r : CaseRecord p) × (lookup k s.cases ≡ some r)
      × (member d r.indexed_document_ids ≡ true)

  abbrev pub IsAccounted : String → Library p → Type 0
  IsAccounted corpus_id l =
      (d : String) → member d l.vectors ≡ true → (str_eq d corpus_id ≡ true) ⊎ IsOwned d l.cases

  -- What indexing leaves in the vector store is of the record, or was there and is of another.
  activate_lem :
      (d cid : String) (o : Option String) (r : CaseRecord p) (ds : List String)
      → member d (activate cid o r (add cid ds)).1 ≡ true
      → (member d (activate cid o r (add cid ds)).0.indexed_document_ids ≡ true)
        ⊎ ((member d ds ≡ true) × (member d r.indexed_document_ids ≡ false))
  unfolding activate
  activate_lem d cid none r ds h =
      ground (arith, h, member-add d cid ds, member-add d cid r.indexed_document_ids)
  activate_lem d cid (some prev) r ds h = ground (
    arith,
    h,
    member-add d cid ds,
    member-add d cid r.indexed_document_ids,
    member-discard d prev (add cid ds),
    member-discard d prev (add cid r.indexed_document_ids),
    eq_iff prev cid,
    eq_iff prev d,
  )

  kept :
      (d : String) (r : CaseRecord p) (ds : List String)
      → member d ds ≡ true
      → (member d r.indexed_document_ids ≡ true)
        ⊎ ((member d ds ≡ true) × (member d r.indexed_document_ids ≡ false))
  kept d r ds h = ground (arith, h)

  index_new_lem :
      (oc : IndexOutcome) (d cid : String) (r : CaseRecord p) (ds : List String)
      → member d (index_new oc cid r ds).0.1 ≡ true
      → (member d (index_new oc cid r ds).0.0.indexed_document_ids ≡ true)
        ⊎ ((member d ds ≡ true) × (member d r.indexed_document_ids ≡ false))
  unfolding index_new
  index_new_lem failed d cid r ds h = kept d r ds h
  index_new_lem no_chunks d cid r ds h = ground (arith, h, member-discard d cid ds)
  index_new_lem stored d cid r ds h = activate_lem d cid r.active_evidence_document_id r ds h

  ensure_lem :
      (oc : IndexOutcome) (d cid : String) (r : CaseRecord p) (ds : List String)
      → member d (ensure_evidence_indexed oc cid r ds).0.1 ≡ true
      → (member d (ensure_evidence_indexed oc cid r ds).0.0.indexed_document_ids ≡ true)
        ⊎ ((member d ds ≡ true) × (member d r.indexed_document_ids ≡ false))
  unfolding ensure_evidence_indexed index_new
  ensure_lem oc d cid r ds h =
      elim (Bool-cases
        (is_active cid r.active_evidence_document_id && member cid r.indexed_document_ids)) [
          | inl t ↦ let h' = rw t at h in rw t (kept d r ds h')
          | inr t ↦ let h' = rw t at h in rw t (index_new_lem oc d cid r ds h')
        ]

  pub found_is :
      (k : String) (d : Dict (CaseRecord p)) (r q : CaseRecord p)
      → lookup k d ≡ some r
      → lookup k d ≡ some q
      → r ≡ q
  found_is k d r q a b = ground (arith, a, b)

  -- Another record under the id of `r` keeps the owners of what `r` did not own.
  pub IsOwned-insert :
      (d k : String) (r q : CaseRecord p) (s : CaseStore p)
      → lookup k s.cases ≡ some r
      → member d r.indexed_document_ids ≡ false
      → IsOwned d s
      → IsOwned d (record s { cases = insert k q s.cases })
  IsOwned-insert d k r q s found free (j, o, at, own) = elim (Bool-cases (str_eq k j)) [
    | inl t ↦
        let is_r : lookup k s.cases ≡ some o = rw ((eq_iff k j).0 t) at in
        let same = found_is k s.cases r o found is_r in
        let no : true ≡ false = sym own ∙ (rw (← same) free) in cc
    | inr t ↦ (j, o, rw (lookup-insert k j q s.cases) (rw t at), own)
  ]

  pub IsOwned-self :
      (d k : String) (q : CaseRecord p) (s : CaseStore p)
      → member d q.indexed_document_ids ≡ true
      → IsOwned d (record s { cases = insert k q s.cases })
  IsOwned-self d k q s own = (k, q, rw (lookup-insert k k q s.cases) (rw (eq_refl k) refl), own)

  pub index_evidence-IsAccounted :
      (corpus_id : String) (oc : IndexOutcome) (cid k : String) (r : CaseRecord p) (l : Library p)
      → lookup k l.cases.cases ≡ some r
      → IsAccounted corpus_id l
      → IsAccounted corpus_id (index_evidence oc cid k r l).0
  unfolding index_evidence
  index_evidence-IsAccounted corpus_id oc cid k r l found h d m =
      let q = (ensure_evidence_indexed oc cid r l.vectors).0.0 in
      elim (ensure_lem oc d cid r l.vectors m) [
        | inl own ↦ inr (IsOwned-self d k q l.cases own)
        | inr (was, free) ↦ elim (h d was) [
          | inl c ↦ inl c
          | inr o ↦ inr (IsOwned-insert d k r q l.cases found free o)
        ]
      ]

  pub IsOwned-without :
      (d k : String) (r q : CaseRecord p) (s : CaseStore p)
      → lookup k s.cases ≡ some r
      → member d r.indexed_document_ids ≡ false
      → IsOwned d s
      → IsOwned d (record s { cases = without k (insert k q s.cases) })
  IsOwned-without d k r q s found free (j, o, at, own) = elim (Bool-cases (str_eq k j)) [
    | inl t ↦
        let is_r : lookup k s.cases ≡ some o = rw ((eq_iff k j).0 t) at in
        let same = found_is k s.cases r o found is_r in
        let no : true ≡ false = sym own ∙ (rw (← same) free) in cc
    | inr t ↦ (
      j,
      o,
      rw (lookup-without k j (insert k q s.cases))
          (rw t (rw (lookup-insert k j q s.cases) (rw t at))),
      own,
    )
  ]

  idle_owner :
      (idle : CaseRecord p → Bool) (d j : String) (o : CaseRecord p) (cs : Dict (CaseRecord p))
      → lookup j cs ≡ some o
      → idle o ≡ true
      → member d o.indexed_document_ids ≡ true
      → any (λ r. member d r.indexed_document_ids) (filter idle (records cs)) ≡ true
  unfolding lookup
  idle_owner idle d j o [] at i own = cc
  idle_owner idle d j o ((k, r) ∷ cs) at i own = elim (Bool-cases (str_eq k j)) [
    | inl t ↦ let same : r ≡ o = ground (arith, at, t) in ground (arith, same, i, own)
    | inr t ↦ ground (arith, idle_owner idle d j o cs (ground (arith, at, t)) i own)
  ]

  pub purge_expired-IsAccounted :
      (corpus_id : String) (now : ℕ) (l : Library p)
      → IsValid l.cases
      → IsAccounted corpus_id l
      → IsAccounted corpus_id (purge_expired_cases now l).0
  unfolding purge_expired_cases expire_idle_cases
  purge_expired-IsAccounted corpus_id now l v h d m =
      let expired = filter (is_idle l.cases now) (records l.cases.cases) in
      let left = member-delete_of_all d expired l.vectors in
      let was : member d l.vectors ≡ true = ground (arith, m, left) in
      let free : any (λ r. member d r.indexed_document_ids) expired ≡ false =
        ground (arith, m, left) in
      elim (h d was) [
        | inl c ↦ inl c
        | inr (j, o, at, own) ↦ elim (Bool-cases (is_idle l.cases now o)) [
          | inl i ↦
              let no : true ≡ false =
                sym (idle_owner (is_idle l.cases now) d j o l.cases.cases at i own) ∙ free in
              cc
          | inr i ↦ inr (j, o, (expire_idle_cases_lem now l.cases v).0 j ∙ rw at (rw i refl), own)
        ]
      ]
