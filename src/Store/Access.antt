-- ===== src/Store/Access.antt =====
-- Possession tokens: who reaches a case of app/consumer/store.py, and what a refusal tells.
use give_exit.Prelude.{ℕ, ◌≡◌, ◌≢◌, refl, Option, none, some, String, arith, eq_iff, ap, sym, ◌∙◌}
use give_exit.Prelude.Dict.{
  lookup, insert, lookup-insert, lookup-insert_self, lookup-without, lookup-without_self,
}
use give_exit.Store.Defs.{
  Payload, CaseRecord, CaseStore, Result, ok, err, expire_idle_cases, Fresh, create, new_record,
  not_found, token_digest, authorize, get_authorized, delete_authorized, drop_found,
}

module _ (h : String → String) {p : Payload} where
  abbrev pub Holds : String → String → Option (CaseRecord p) → Type 0
  Holds k token none = ⊥
  Holds k token (some r) = r.token_digest ≡ token_digest h k token

  abbrev pub refreshed : ℕ → CaseRecord p → CaseRecord p
  refreshed now r = record r { last_seen_monotonic = now }

  authorize_refused :
      (o : Option (CaseRecord p)) (k token : String) (now : ℕ) (s : CaseStore p)
      → ¬ (Holds k token o)
      → authorize h o k token now s ≡ (s, err not_found)
  unfolding authorize
  authorize_refused none k token now s no_token = refl
  authorize_refused (some r) k token now s no_token =
      ground (arith, eq_iff r.token_digest (token_digest h k token))

  authorize_granted :
      (r : CaseRecord p) (k token : String) (now : ℕ) (s : CaseStore p)
      → Holds k token (some r)
      → authorize h (some r) k token now s
        ≡ (record s { cases = insert k (refreshed now r) s.cases }, ok (refreshed now r))
  unfolding authorize
  authorize_granted r k token now s same =
      ground (arith, eq_iff r.token_digest (token_digest h k token))

-- A caller reaches a case exactly by a token whose digest the case stores: then the case comes
-- back with its idle clock reset, and so it stands in the store. An unknown id and a wrong token
-- get one and the same answer, and leave the store as it was.
pub get_authorized_lem :
    (h : String → String) (p : Payload) (k token : String) (now : ℕ) (s : CaseStore p)
    → ((r : CaseRecord p)
        → lookup k s.cases ≡ some r
        → r.token_digest ≡ token_digest h k token
        → get_authorized h k token now s
          ≡ (record s { cases = insert k (refreshed h now r) s.cases }, ok (refreshed h now r)))
      × (¬ (Holds h k token (lookup k s.cases))
          → get_authorized h k token now s ≡ (s, err not_found))
unfolding get_authorized
get_authorized_lem h p k token now s = (
  λ r found same. rw found (authorize_granted h r k token now s same),
  authorize_refused h (lookup k s.cases) k token now s,
)

create_ok :
    (h : String → String) (p : Payload) (f : Fresh) (s t : CaseStore p) (r : CaseRecord p)
    (token : String)
    → create h f s ≡ (t, ok (r, token))
    → (t.cases ≡ insert f.case_id (new_record h f) (expire_idle_cases f.now s).0.cases)
      × (r ≡ new_record h f)
      × (token ≡ f.token)
unfolding create
create_ok h p f s t r token e = (
  ground (
    arith,
    ap (λ (out : CaseStore p × Result (CaseRecord p × String)). out.0.cases) e,
    ap (λ (out : CaseStore p × Result (CaseRecord p × String)). out.1) e,
  ),
  ground (arith, ap (λ (out : CaseStore p × Result (CaseRecord p × String)). out.1) e),
  ground (arith, ap (λ (out : CaseStore p × Result (CaseRecord p × String)). out.1) e),
)

-- The token that `create` returns opens the case that it made, as a fresh record; a token with
-- another digest does not.
pub create-get_authorized :
    (h : String → String) (p : Payload) (f : Fresh) (s t : CaseStore p) (r : CaseRecord p)
    (token : String) (now : ℕ)
    → create h f s ≡ (t, ok (r, token))
    → ((get_authorized h r.case_id token now t).1 ≡ ok (refreshed h now r))
      × ((other : String)
          → token_digest h r.case_id other ≢ token_digest h r.case_id token
          → get_authorized h r.case_id other now t ≡ (t, err not_found))
unfolding new_record
create-get_authorized h p f s t r token now e =
    let (stored, made, given) = create_ok h p f s t r token e in
    let id : r.case_id ≡ f.case_id = ap (λ (x : CaseRecord p). x.case_id) made in
    let found : lookup r.case_id t.cases ≡ some r =
      rw (id, stored, made) (lookup-insert_self _ _ _) in
    let digest : r.token_digest ≡ token_digest h r.case_id token = rw (id, made, given) refl in
    (
      ap (λ (out : CaseStore p × Result (CaseRecord p)). out.1)
          ((get_authorized_lem h p r.case_id token now t).0 r found digest),
      λ other ne.
          (get_authorized_lem h p r.case_id other now t).1
            (rw found (λ same. ne (sym same ∙ digest))),
    )

-- Deletion needs the token too. After it the id is unknown to every caller, and every other case
-- is as it was; a refused deletion changes nothing.
pub delete_authorized_lem :
    (h : String → String) (p : Payload) (k token : String) (now : ℕ) (s : CaseStore p)
    → ((r : CaseRecord p)
        → lookup k s.cases ≡ some r
        → r.token_digest ≡ token_digest h k token
        → ((other : String) (later : ℕ)
            → (get_authorized h k other later (delete_authorized h k token now s).0).1
              ≡ err not_found)
          × ((j : String)
              → k ≢ j
              → lookup j (delete_authorized h k token now s).0.cases ≡ lookup j s.cases))
      × (¬ (Holds h k token (lookup k s.cases))
          → delete_authorized h k token now s ≡ (s, err not_found))
unfolding delete_authorized drop_found
delete_authorized_lem h p k token now s = (
  λ r found same. rw ((get_authorized_lem h p k token now s).0 r found same) (
    λ other later.
        ap (λ (out : CaseStore p × Result (CaseRecord p)). out.1)
          ((get_authorized_lem h p k other later _).1 (rw lookup-without_self (λ x. x))),
    λ j ne. ground (
      arith,
      eq_iff k j,
      lookup-without k j (insert k (refreshed h now r) s.cases),
      lookup-insert k j (refreshed h now r) s.cases,
    ),
  ),
  λ no_token. rw ((get_authorized_lem h p k token now s).1 no_token),
)
