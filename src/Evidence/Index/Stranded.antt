-- ===== src/Evidence/Index/Stranded.antt =====
-- What creating a case does to the documents of idle ones: app/consumer/store.py drops the
-- records, app/consumer/service.py does not see them.
use give_exit.Prelude.{
  ℕ, ◌≡◌, refl, sym, ◌∙◌, String, Bool, true, false, Option, none, some, [], ◌∷◌, leb, length, any,
  if◌then◌else◌, filter, Bool-cases, inl, inr, arith, str_eq,
}
use give_exit.Prelude.Dict.{Dict, lookup, insert, lookup-insert}
use give_exit.Store.Defs.{
  Payload, CaseRecord, CaseStore, Fresh, create, new_record, is_idle, records, expire_idle_cases,
  owned_documents, assistant, touch, append_message,
}
use give_exit.Store.Bounds.{IsValid}
use give_exit.Store.Expiry.{unless_idle, expire_idle_cases_lem}
use give_exit.Evidence.Index.{Library, member, create_case, greet, purge_expired_cases}
use give_exit.Evidence.Index.Sets.{member-append, member-delete_of_all}
use give_exit.Evidence.Index.Accounted.{IsOwned}
use give_exit.Evidence.Index.Cleanup.{owner_of}
use give_exit.Evidence.Index.Runs.{create_case-IsValid}

module _ {p : Payload} where
  any_owner :
      (idle : CaseRecord p → Bool) (d : String) (cs : Dict (CaseRecord p))
      → any (λ r. member d r.indexed_document_ids) (filter idle (records cs)) ≡ true
      → member d (owned_documents cs) ≡ true
  unfolding owned_documents
  any_owner idle d [] h = h
  any_owner idle d ((k, r) ∷ cs) h =
      ground
        (arith, h, any_owner idle d cs, member-append d r.indexed_document_ids (owned_documents cs))

  -- A document without an owner outlives every expiry purge.
  purge_keeps_unowned :
      (d : String) (now : ℕ) (l : Library p)
      → IsValid l.cases
      → ¬ (IsOwned d l.cases)
      → member d l.vectors ≡ true
      → member d (purge_expired_cases now l).0.vectors ≡ true
  unfolding purge_expired_cases expire_idle_cases
  purge_keeps_unowned d now l v unowned m =
      let expired = filter (is_idle l.cases now) (records l.cases.cases) in
      elim (Bool-cases (any (λ r. member d r.indexed_document_ids) expired)) [
        | inl t ↦
            let none_owns = unowned (
              owner_of d l.cases.cases v.distinct
                (any_owner (is_idle l.cases now) d l.cases.cases t)) in
            elim none_owns [ ]
        | inr t ↦ ground (arith, t, m, member-delete_of_all d expired l.vectors)
      ]

  unless_idle-some :
      (idle : CaseRecord p → Bool) (x : Option (CaseRecord p)) (o : CaseRecord p)
      → unless_idle idle x ≡ some o
      → (x ≡ some o) × (idle o ≡ false)
  unless_idle-some idle none o e = cc
  unless_idle-some idle (some r) o e = elim (Bool-cases (idle r)) [
    | inl t ↦ let gone = rw t at e in cc
    | inr t ↦ let same = rw t at e in (same, ground (arith, same, t))
  ]

  twice :
      (id j : String) (r q : CaseRecord p) (cs : Dict (CaseRecord p))
      → lookup j (insert id q (insert id r cs)) ≡ (if str_eq id j then some q else lookup j cs)
  twice id j r q cs = ground (arith, lookup-insert id j q (insert id r cs), lookup-insert id j r cs)

  not-IsOwned_after :
      (idle : CaseRecord p → Bool) (d k id : String) (r q : CaseRecord p) (s t u : CaseStore p)
      → lookup k s.cases ≡ some r
      → idle r ≡ true
      → ((j : String) (o : CaseRecord p)
          → lookup j s.cases ≡ some o
          → member d o.indexed_document_ids ≡ true
          → k ≡ j)
      → ((j : String) → lookup j t.cases ≡ unless_idle idle (lookup j s.cases))
      → (¬ (IsOwned d t))
        × (((j : String) → lookup j u.cases ≡ (if str_eq id j then some q else lookup j t.cases))
            → q.indexed_document_ids ≡ []
            → ¬ (IsOwned d u))
  not-IsOwned_after idle d k id r q s t u found i sole kept =
      let expired : ¬ (IsOwned d t) = λ (j, o, at, own).
        let (was, live) = unless_idle-some idle (lookup j s.cases) o (sym (kept j) ∙ at) in
        let here = sole j o was own in
        let same : r ≡ o = ground (arith, found, was, here) in ground (arith, same, i, live) in
      (
        expired,
        λ at_id empty (j, o, at, own). elim (Bool-cases (str_eq id j)) [
          | inl e ↦
              let new : q ≡ o = ground (arith, at_id j, at, e) in ground (arith, new, empty, own)
          | inr e ↦ expired (j, o, ground (arith, at_id j, at, e), own)
        ],
      )

module _ (h : String → String) {p : Payload} where
  unowned_after :
      (greeting d k : String) (wall now : ℕ) (f : Fresh) (r : CaseRecord p) (l : Library p)
      → IsValid l.cases
      → lookup k l.cases.cases ≡ some r
      → is_idle l.cases f.now r ≡ true
      → ((j : String) (o : CaseRecord p)
          → lookup j l.cases.cases ≡ some o
          → member d o.indexed_document_ids ≡ true
          → k ≡ j)
      → ¬ (IsOwned d (create_case h greeting wall now f l).0.cases)
  unfolding create_case create greet new_record touch append_message
  unowned_after greeting d k wall now f r l v found i sole =
      let s' = (expire_idle_cases f.now l.cases).0 in
      let left = (expire_idle_cases_lem f.now l.cases v).0 in
      let new : CaseRecord p = new_record h f in
      let greeted = touch wall now (
        append_message (record { role = assistant; content = greeting }) s'.max_messages_per_case
          new) in
      elim (Bool-cases (leb s'.max_active_cases (length s'.cases))) [
        | inl full ↦
            rw full
              (not-IsOwned_after (is_idle l.cases f.now) d k f.case_id r r l.cases s' s' found i
                sole left).0
        | inr room ↦ rw room (
            (not-IsOwned_after (is_idle l.cases f.now) d k f.case_id r greeted l.cases s'
                (record s' { cases = insert f.case_id greeted (insert f.case_id new s'.cases) })
                found i sole left).1
              (λ j. twice f.case_id j new greeted s'.cases) refl)
      ]

  vectors-create_case :
      (greeting : String) (wall now : ℕ) (f : Fresh) (l : Library p)
      → (create_case h greeting wall now f l).0.vectors ≡ l.vectors
  unfolding create_case
  vectors-create_case greeting wall now f l = refl

-- When a case is created (or refused for capacity) while the only case that indexed a document is
-- idle, the document stays in the vector store with no live case that owns it, and no later
-- expiry purge removes it: the records that the creation expired are never handed to the
-- clean-up.
pub create_case-strands :
    (h : String → String) (p : Payload) (greeting d k : String) (wall now : ℕ) (f : Fresh)
    (r : CaseRecord p) (l : Library p)
    → IsValid l.cases
    → lookup k l.cases.cases ≡ some r
    → is_idle l.cases f.now r ≡ true
    → ((j : String) (o : CaseRecord p)
        → lookup j l.cases.cases ≡ some o
        → member d o.indexed_document_ids ≡ true
        → k ≡ j)
    → member d l.vectors ≡ true
    → (¬ (IsOwned d (create_case h greeting wall now f l).0.cases))
      × ((later : ℕ)
          → member d (purge_expired_cases later (create_case h greeting wall now f l).0).0.vectors
            ≡ true)
create_case-strands h p greeting d k wall now f r l v found i sole m =
    let unowned = unowned_after h greeting d k wall now f r l v found i sole in
    (
      unowned,
      λ later.
          purge_keeps_unowned d later (create_case h greeting wall now f l).0
            (create_case-IsValid h d greeting wall now f l v) unowned
            (rw (vectors-create_case h greeting wall now f l) m),
    )
