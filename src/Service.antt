-- ===== src/Service.antt =====
-- The conversation of a case: `add_message`, `_snapshot` and `_readiness_missing` of
-- `ConsumerCaseService`, app/consumer/service.py. What the intake reads out of a text
-- (app/consumer/intake.py), the scope rules (app/consumer/scope.py) and `str.strip` are an
-- interface. A record is the object that the store holds: a change of it is a change of the store.
pub mod Kept
pub mod Conversation
pub mod Readiness
use give_exit.Prelude.{
  leb, length, codes, ℕ, String, Bool, true, false, not, ◌||◌, ◌&&◌, Option, none, some, List, [],
  ◌∷◌, ◌++◌, any, str_eq, if◌then◌else◌,
}
use give_exit.Prelude.Dict.{Dict, lookup, insert}
use give_exit.Store.Defs.{
  Payload, Role, user, assistant, Message, CaseRecord, CaseStore, StoreError, Result, ok, err,
  touch, append_message, remember_assistant_reply, get_authorized,
}

pub record Intake (p : Payload) : Type 0 where
  pub strip : String → String
  -- merge_explicit_facts(facts, extract_explicit_facts(text, facts))
  pub merge_facts : String → p.Facts → p.Facts
  -- next_assistant_message(facts, has_evidence=...)
  pub next_message : p.Facts → Bool → String
  -- item.safe_document is not None
  pub is_accepted : p.Evidence → Bool
  pub missing_fields : p.Facts → List String
  pub is_in_scope : p.Facts → Bool
  -- removed, and of this very complaint
  pub is_removed : p.Facts → p.Verification → Bool

pub data ConsumerCaseStatus : Type 0 where
  collecting_facts collecting_evidence ready_for_notice notice_generated : ConsumerCaseStatus

abbrev pub is_nothing {ℓ} : {A : Type ℓ} → List A → Bool
is_nothing [] = true
is_nothing (x ∷ xs) = false

abbrev pub is_given {ℓ} : {A : Type ℓ} → Option A → Bool
is_given none = false
is_given (some a) = true

-- The bounds of `ConsumerMessage.content`
unfoldable pub is_content : String → Bool
is_content t = leb 1 (length (codes t)) && leb (length (codes t)) 20000

-- What `add_message` returns, or the error that it raises.
pub data Turn (p : Payload) : Type 0 where
  said : CaseRecord p → String → Turn p
  unauthorized : StoreError → Turn p
  invalid_message : Turn p

module _ {p : Payload} (intake : Intake p) where
  unfoldable pub has_accepted_evidence : CaseRecord p → Bool
  has_accepted_evidence r = any intake.is_accepted r.documents

  -- verification is not None and removed and of this complaint
  abbrev pub is_verified_out : p.Facts → Option p.Verification → Bool
  is_verified_out facts none = false
  is_verified_out facts (some v) = intake.is_removed facts v

  unfoldable pub is_out_of_scope : CaseRecord p → Bool
  is_out_of_scope r =
      not (intake.is_in_scope r.facts) || is_verified_out r.facts r.scope_verification

  unfoldable pub readiness_missing : CaseRecord p → List String
  readiness_missing r =
      intake.missing_fields r.facts
      ++ (if is_out_of_scope r then "consumer_relationship" ∷ [] else [])
      ++ (if has_accepted_evidence r then [] else "accepted_evidence" ∷ [])
      ++ (if r.facts_confirmed then [] else "facts_confirmation" ∷ [])

  -- `missing` of `_snapshot`
  unfoldable pub snapshot_missing : CaseRecord p → List String
  snapshot_missing r =
      intake.missing_fields r.facts
      ++ (if any (λ m. str_eq m "consumer_relationship") (readiness_missing r)
          then "consumer_relationship" ∷ []
          else [])

  unfoldable pub status_of : CaseRecord p → ConsumerCaseStatus
  status_of r =
      if is_given r.notice
      then notice_generated
      else if is_nothing (readiness_missing r)
      then ready_for_notice
      else if is_nothing (snapshot_missing r)
      then collecting_evidence
      else collecting_facts

  -- What `add_message` makes of the record, up to the assistant's message.
  unfoldable pub hear : String → ℕ → CaseRecord p → CaseRecord p
  hear text max_messages r =
      let heard =
        append_message (record { role = user; content = intake.strip text }) max_messages r in
      record heard {
        facts = intake.merge_facts (intake.strip text) r.facts;
        facts_confirmed = false;
        notice = none;
      }

  unfoldable pub answer : CaseRecord p → String
  answer r = intake.next_message r.facts (has_accepted_evidence r)

  -- The reply is remembered under a message id that is there and not empty.
  unfoldable pub remember : Option String → String → ℕ → CaseRecord p → CaseRecord p
  remember none reply max_keys r = r
  remember (some m) reply max_keys r =
      if str_eq m "" then r else remember_assistant_reply m reply max_keys r

  unfoldable pub reply_to :
      String → Option String → ℕ → ℕ → CaseStore p → CaseRecord p → CaseRecord p
  reply_to text id wall now s r =
      let heard = hear text s.max_messages_per_case r in
      let said =
        append_message (record { role = assistant; content = answer heard }) s.max_messages_per_case
          heard in
      touch wall now (remember id (answer heard) s.max_idempotency_keys_per_case said)

  -- The reply stored for the message id.
  unfoldable pub stored_reply : Option String → CaseRecord p → Option String
  stored_reply none r = none
  stored_reply (some m) r = if str_eq m "" then none else lookup m r.idempotent_messages

  -- `add_message` on the authorized record and the stored reply. A message that is not valid
  -- raises: the user's before the record changes, the assistant's after it was heard.
  unfoldable pub say :
      String
      → String
      → Option String
      → ℕ
      → ℕ
      → CaseStore p
      → CaseRecord p
      → Option String
      → CaseStore p × Turn p
  unfolding is_content insert
  say case_id text id wall now s r (some reply) = (s, said r reply)
  say case_id text id wall now s r none =
      let heard = hear text s.max_messages_per_case r in
      let r' = reply_to text id wall now s r in
      if not (is_content (intake.strip text))
      then (s, invalid_message)
      else if not (is_content (answer heard))
      then (record s { cases = insert case_id heard s.cases }, invalid_message)
      else (record s { cases = insert case_id r' s.cases }, said r' (answer heard))

  unfoldable pub authorized_say :
      String
      → String
      → Option String
      → ℕ
      → ℕ
      → CaseStore p × Result (CaseRecord p)
      → CaseStore p × Turn p
  unfolding say stored_reply
  authorized_say case_id text id wall now (s, err e) = (s, unauthorized e)
  authorized_say case_id text id wall now (s, ok r) =
      say case_id text id wall now s r (stored_reply id r)

  -- `add_message`, with the clock at the access and both clocks at the end
  unfoldable pub add_message :
      (String → String)
      → String
      → String
      → String
      → Option String
      → (seen wall now : ℕ) → CaseStore p
      → CaseStore p × Turn p
  unfolding authorized_say get_authorized
  add_message sha256_hex case_id token text id seen wall now s =
      authorized_say case_id text id wall now (get_authorized sha256_hex case_id token seen s)
