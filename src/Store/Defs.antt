-- ===== src/Store/Defs.antt =====
-- app/consumer/store.py: `ConsumerCaseRecord` and `ConsumerCaseStore`. Clocks are whole ticks of
-- `time.monotonic`; random ids and tokens, and the SHA-256 of a text, come from outside.
use Prim.Native.String.{◌++◌ as str_append}
use give_exit.Prelude.{
  ℕ, ◌+◌, ◌-◌, String, Bool, false, not, Option, none, some, List, [], ◌∷◌, ◌++◌, map, ltb, leb,
  str_eq, length, drop, filter, if◌then◌else◌,
}
use give_exit.Prelude.Dict.{Dict, lookup, insert, without}

pub data Role : Type 0 where
  user assistant : Role

pub record Message : Type 0 where
  pub role : Role
  pub content : String

-- What the record holds for other parts: their types are parameters.
pub record Payload : Type 1 where
  pub Facts : Type 0
  pub no_facts : Facts
  pub Evidence : Type 0
  pub Notice : Type 0
  pub Verification : Type 0

module _ (p : Payload) where
  open p use {Facts, no_facts, Evidence, Notice, Verification}

  -- The two locks of a record are not state of the data and are not modelled here.
  pub record CaseRecord : Type 0 where
    pub case_id : String
    pub token_digest : String
    pub facts : Facts
    pub messages : List Message
    pub documents : List Evidence
    pub facts_confirmed : Bool
    pub notice : Option Notice
    pub scope_verification : Option Verification
    pub indexed_document_ids : List String
    pub active_evidence_document_id : Option String
    pub idempotent_messages : Dict String
    pub created_at : ℕ
    pub updated_at : ℕ
    pub last_seen_monotonic : ℕ

  pub record CaseStore : Type 0 where
    pub cases : Dict CaseRecord
    pub max_active_cases : ℕ
    pub idle_ttl_seconds : ℕ
    pub max_messages_per_case : ℕ
    pub max_idempotency_keys_per_case : ℕ

pub data StoreError : Type 0 where
  max_active_cases_not_positive idle_ttl_not_positive at_capacity not_found : StoreError

pub data Result {ℓ} (A : Type ℓ) : Type ℓ where
  ok : A → Result A
  err : StoreError → Result A

-- `popitem` from the front while the map is over its limit: one round for each entry at most.
unfoldable pub evict_front {ℓ} : {V : Type ℓ} → ℕ → Dict V → Dict V
evict_front max_keys [] = []
evict_front max_keys (kv ∷ d) =
    let rest = evict_front max_keys d in if ltb max_keys (length (kv ∷ d)) then rest else kv ∷ d

-- messages.append, then del messages[: len(messages) - max_messages] when there are too many.
unfoldable pub append_bounded : ℕ → Message → List Message → List Message
append_bounded max_messages m ms =
    let grown = ms ++ m ∷ [] in
    if ltb max_messages (length grown) then drop (length grown - max_messages) grown else grown

module _ {p : Payload} where
  unfoldable pub touch : ℕ → ℕ → CaseRecord p → CaseRecord p
  touch wall now r = record r { updated_at = wall; last_seen_monotonic = now }

  unfoldable pub remember_assistant_reply : String → String → ℕ → CaseRecord p → CaseRecord p
  unfolding evict_front
  remember_assistant_reply client_message_id reply max_keys r = record r {
    idempotent_messages =
        evict_front max_keys (insert client_message_id reply r.idempotent_messages);
  }

  unfoldable pub append_message : Message → ℕ → CaseRecord p → CaseRecord p
  unfolding append_bounded
  append_message m max_messages r = record r { messages = append_bounded max_messages m r.messages }

-- `del self._cases[case_id]`, unless `get_authorized` raised.
unfoldable pub drop_found :
    {p : Payload}
    → String
    → CaseStore p × Result (CaseRecord p)
    → CaseStore p × Result (CaseRecord p)
unfolding without
drop_found case_id (s, err e) = (s, err e)
drop_found case_id (s, ok r) = (record s { cases = without case_id s.cases }, ok r)

-- `ConsumerCaseStore.__init__`
unfoldable pub init : (p : Payload) → ℕ → ℕ → ℕ → ℕ → Result (CaseStore p)
init p max_active_cases idle_ttl_seconds max_messages max_keys =
    if ltb max_active_cases 1
    then err max_active_cases_not_positive
    else if leb idle_ttl_seconds 0
    then err idle_ttl_not_positive
    else ok (record {
      cases = [];
      max_active_cases = max_active_cases;
      idle_ttl_seconds = idle_ttl_seconds;
      max_messages_per_case = max_messages;
      max_idempotency_keys_per_case = max_keys;
    })

module _ {p : Payload} where
  -- now - record.last_seen_monotonic >= self._idle_ttl_seconds
  unfoldable pub is_idle : CaseStore p → ℕ → CaseRecord p → Bool
  is_idle s now r = leb (r.last_seen_monotonic + s.idle_ttl_seconds) now

  abbrev pub records : Dict (CaseRecord p) → List (CaseRecord p)
  records d = map (λ kv. kv.1) d

  -- `for record in expired: self._cases.pop(record.case_id, None)`
  unfoldable pub pop_all : List (CaseRecord p) → Dict (CaseRecord p) → Dict (CaseRecord p)
  unfolding without
  pop_all [] d = d
  pop_all (r ∷ rs) d = pop_all rs (without r.case_id d)

  unfoldable pub expire_idle_cases : ℕ → CaseStore p → CaseStore p × List (CaseRecord p)
  unfolding is_idle pop_all
  expire_idle_cases now s =
      let expired = filter (is_idle s now) (records s.cases) in
      (record s { cases = pop_all expired s.cases }, expired)

  -- The ids that each case owns, case by case; the source makes them one set.
  unfoldable pub owned_documents : Dict (CaseRecord p) → List String
  owned_documents [] = []
  owned_documents ((k, r) ∷ d) = r.indexed_document_ids ++ owned_documents d

  unfoldable pub indexed_document_ids : CaseStore p → List String
  unfolding owned_documents
  indexed_document_ids s = owned_documents s.cases

-- What one request sees: the clock at expiry and at creation, the wall clock at the record's two
-- time stamps, the new id and the new token.
pub record Fresh : Type 0 where
  pub now : ℕ
  pub seen : ℕ
  pub created : ℕ
  pub updated : ℕ
  pub case_id : String
  pub token : String

module _ (sha256_hex : String → String) where
  -- f"{case_id}:{token}"
  unfoldable pub token_digest : String → String → String
  token_digest case_id token = sha256_hex (str_append case_id (str_append ":" token))

  module _ {p : Payload} where
    unfoldable pub new_record : Fresh → CaseRecord p
    unfolding token_digest
    new_record f = record {
      case_id = f.case_id;
      token_digest = token_digest f.case_id f.token;
      facts = p.no_facts;
      messages = [];
      documents = [];
      facts_confirmed = false;
      notice = none;
      scope_verification = none;
      indexed_document_ids = [];
      active_evidence_document_id = none;
      idempotent_messages = [];
      created_at = f.created;
      updated_at = f.updated;
      last_seen_monotonic = f.seen;
    }

    -- The idle cases are gone also when the new case is refused.
    unfoldable pub create : Fresh → CaseStore p → CaseStore p × Result (CaseRecord p × String)
    create f s =
        let s' = (expire_idle_cases f.now s).0 in
        if leb s'.max_active_cases (length s'.cases) then (s', err at_capacity) else (
          record s' { cases = insert f.case_id (new_record f) s'.cases },
          ok (new_record f, f.token),
        )

    -- The test of `get_authorized`, on what `self._cases.get` returned.
    unfoldable pub authorize :
        Option (CaseRecord p)
        → String
        → String
        → ℕ
        → CaseStore p
        → CaseStore p × Result (CaseRecord p)
    unfolding token_digest insert
    authorize none case_id token now s = (s, err not_found)
    authorize (some r) case_id token now s =
        let seen = record r { last_seen_monotonic = now } in
        if not (str_eq r.token_digest (token_digest case_id token))
        then (s, err not_found)
        else (record s { cases = insert case_id seen s.cases }, ok seen)

    unfoldable pub get_authorized :
        String → String → ℕ → CaseStore p → CaseStore p × Result (CaseRecord p)
    unfolding authorize lookup
    get_authorized case_id token now s = authorize (lookup case_id s.cases) case_id token now s

    unfoldable pub delete_authorized :
        String → String → ℕ → CaseStore p → CaseStore p × Result (CaseRecord p)
    unfolding get_authorized without
    delete_authorized case_id token now s = drop_found case_id (get_authorized case_id token now s)
