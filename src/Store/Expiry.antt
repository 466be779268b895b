-- ===== src/Store/Expiry.antt =====
-- `expire_idle_cases` of app/consumer/store.py against its specification, and what a new case
-- means for the cases of others.
use give_exit.Prelude.{
  ℕ, ◌+◌, ◌≤◌, ◌≡◌, ◌≢◌, ◌↔◌, refl, ◌∙◌, Option, none, some, String, Bool, true, false, List, [],
  ◌∷◌, length, All, All-map, filter, filter-All, any, arith, if◌then◌else◌, Bool-cases, inl, inr,
  str_eq, eq_iff,
}
use give_exit.Prelude.Dict.{Dict, lookup, has, without, lookup-insert, lookup-without}
use give_exit.Prelude.DictLaws.{Distinct}
use give_exit.Store.Defs.{
  Payload, CaseRecord, CaseStore, err, is_idle, pop_all, records, expire_idle_cases, Fresh, create,
  new_record, at_capacity,
}
use give_exit.Store.Bounds.{IsValid}

module _ {p : Payload} where
  abbrev named : String → CaseRecord p → Bool
  named k r = str_eq r.case_id k

  lookup-pop_all :
      (k : String) (rs : List (CaseRecord p)) (d : Dict (CaseRecord p))
      → lookup k (pop_all rs d) ≡ (if any (named k) rs then none else lookup k d)
  unfolding pop_all
  lookup-pop_all k [] d = refl
  lookup-pop_all k (r ∷ rs) d =
      ground (arith, lookup-pop_all k rs (without r.case_id d), lookup-without r.case_id k d)

  -- What a lookup returns once the records that `idle` names are gone.
  abbrev pub unless_idle : (CaseRecord p → Bool) → Option (CaseRecord p) → Option (CaseRecord p)
  unless_idle idle none = none
  unless_idle idle (some r) = if idle r then none else some r

  abbrev IsKeyed : Dict (CaseRecord p) → Type 0
  IsKeyed d = All (λ kv. str_eq kv.0 kv.1.case_id ≡ true) d

  any-absent :
      (idle : CaseRecord p → Bool) (k : String) (d : Dict (CaseRecord p))
      → IsKeyed d
      → has k d ≡ false
      → any (named k) (filter idle (records d)) ≡ false
  unfolding has
  any-absent idle k [] h a = refl
  any-absent idle k ((j, r) ∷ d) h a =
      ground
        (arith, h.0, any-absent idle k d h.1, eq_iff j r.case_id, eq_iff j k, eq_iff r.case_id k)

  lookup-drop_idle :
      (idle : CaseRecord p → Bool) (k : String) (d : Dict (CaseRecord p))
      → IsKeyed d
      → Distinct d
      → (if any (named k) (filter idle (records d)) then none else lookup k d)
        ≡ unless_idle idle (lookup k d)
  unfolding lookup has
  lookup-drop_idle idle k [] h u = refl
  lookup-drop_idle idle k ((j, r) ∷ d) h u = elim (Bool-cases (str_eq j k)) [
    | inl here ↦
        let same : j ≡ k = (eq_iff j k).0 here in
        ground (
          arith,
          h.0,
          here,
          eq_iff j r.case_id,
          eq_iff r.case_id k,
          eq_iff j k,
          any-absent idle k d h.1 (rw (← same) u.0),
        )
    | inr off ↦ ground (
      arith,
      h.0,
      off,
      eq_iff j r.case_id,
      eq_iff r.case_id k,
      eq_iff j k,
      lookup-drop_idle idle k d h.1 u.1,
    )
  ]

  -- Expiry removes exactly the cases untouched for the time to live: for every id, a lookup
  -- afterwards finds the record that it found before, unless that record was idle. Every record
  -- handed back for cleanup was idle.
  pub expire_idle_cases_lem :
      (now : ℕ) (s : CaseStore p)
      → IsValid s
      → ((k : String)
          → lookup k (expire_idle_cases now s).0.cases
            ≡ unless_idle (is_idle s now) (lookup k s.cases))
        × All (λ r. r.last_seen_monotonic + s.idle_ttl_seconds ≤ now) (expire_idle_cases now s).1
  unfolding expire_idle_cases is_idle
  expire_idle_cases_lem now s v = (
    λ k.
        lookup-pop_all k _ s.cases
        ∙ lookup-drop_idle (is_idle s now) k s.cases (All-map _ _ s.cases (λ kv b. b.0) v.bounded)
            v.distinct,
    All-map _ _ _ (λ r h. ground arith) (filter-All (is_idle s now) (records s.cases)),
  )

capacity-expire :
    {p : Payload} (now : ℕ) (s : CaseStore p)
    → (expire_idle_cases now s).0.max_active_cases ≡ s.max_active_cases
unfolding expire_idle_cases
capacity-expire now s = refl

-- A new case never costs another consumer a live one: for every other id, a lookup after `create`
-- finds what it found before, unless that case was idle; this holds when the case is opened and
-- when the store is full and refuses it. It is refused exactly when the cases that are left
-- fill the store.
pub create_keeps_live :
    (sha256_hex : String → String) (p : Payload) (f : Fresh) (s : CaseStore p)
    → IsValid s
    → ((k : String)
        → f.case_id ≢ k
        → lookup k (create sha256_hex f s).0.cases
          ≡ unless_idle (is_idle s f.now) (lookup k s.cases))
      × (((create sha256_hex f s).1 ≡ err at_capacity)
          ↔ (s.max_active_cases ≤ length (expire_idle_cases f.now s).0.cases))
unfolding create
create_keeps_live h p f s v = (
  λ k fresh. ground (
    arith,
    (expire_idle_cases_lem f.now s v).0 k,
    eq_iff f.case_id k,
    lookup-insert f.case_id k (new_record h f) (expire_idle_cases f.now s).0.cases,
  ),
  ground (arith, capacity-expire f.now s),
)
