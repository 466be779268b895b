-- ===== src/Tests/Store.antt =====
-- Runs of the case store, app/consumer/store.py.
use give_exit.Prelude.{◌≡◌, refl, true, false, String, none, [], ◌∷◌, arith, ◌≢◌, str_eq, eq_iff}
use give_exit.Prelude.Dict.{lookup, insert, without, has}
use give_exit.Store.Defs.{
  Payload, user, Message, CaseRecord, CaseStore, not_found, ok, err, Fresh, init, create,
  get_authorized, delete_authorized, token_digest, append_bounded, remember_assistant_reply,
  expire_idle_cases, is_idle, authorize, new_record, pop_all, evict_front,
}
use give_exit.Store.Bounds.{IsValid}
use give_exit.Store.Reachable.{here, next, created, store_bounds}
use give_exit.Store.Access.{refreshed, create-get_authorized, delete_authorized_lem}
use give_exit.Store.Expiry.{unless_idle, create_keeps_live}

abbrev pub plain : Payload
plain = record { Facts = Unit; no_facts = tt; Evidence = Unit; Notice = Unit; Verification = Unit }

-- In place of SHA-256: the text itself.
abbrev pub same : String → String
same s = s

abbrev empty : CaseStore plain
empty = record {
  cases = [];
  max_active_cases = 2;
  idle_ttl_seconds = 60;
  max_messages_per_case = 2;
  max_idempotency_keys_per_case = 1;
}

abbrev fresh_one : Fresh
fresh_one = record { now = 10; seen = 10; created = 1; updated = 1; case_id = "c1"; token = "t1" }

abbrev fresh_two : Fresh
fresh_two = record { now = 65; seen = 65; created = 2; updated = 2; case_id = "c2"; token = "t2" }

abbrev pub case_one : CaseRecord plain
case_one = record {
  case_id = "c1";
  token_digest = "c1:t1";
  facts = tt;
  messages = [];
  documents = [];
  facts_confirmed = false;
  notice = none;
  scope_verification = none;
  indexed_document_ids = [];
  active_evidence_document_id = none;
  idempotent_messages = [];
  created_at = 1;
  updated_at = 1;
  last_seen_monotonic = 10;
}

abbrev pub one_case : CaseStore plain
one_case = record empty { cases = ("c1", case_one) ∷ [] }

program : Unit {0}
unfolding init create get_authorized delete_authorized token_digest lookup insert without has
    expire_idle_cases is_idle authorize new_record pop_all evict_front remember_assistant_reply
    append_bounded
program = tt

one_case-IsValid : IsValid one_case
unfolding has
one_case-IsValid = record {
  capacity = omega arith;
  distinct = (refl, tt);
  bounded = ((refl, omega arith, omega arith), tt);
}

created_one : create same fresh_one empty ≡ (one_case, ok (case_one, "t1"))
unfolding program
created_one = refl

store_bounds_example : IsValid (create same fresh_two (create same fresh_one empty).0).0
unfolding program
store_bounds_example =
    store_bounds same plain 2 60 2 1 empty _ refl
      (next (next here (created fresh_one)) (created fresh_two))

other_id : ◌≢◌ {A = String} "c2" "c1"
other_id e = let t : str_eq "c2" "c1" ≡ true = (eq_iff "c2" "c1").1 e in cc

create_keeps_live_example :
    lookup "c1" (create same fresh_two one_case).0.cases
    ≡ unless_idle (is_idle one_case 65) (lookup "c1" one_case.cases)
create_keeps_live_example =
    (create_keeps_live same plain fresh_two one_case one_case-IsValid).0 "c1" other_id

create-get_authorized_example :
    (get_authorized same "c1" "t1" 20 one_case).1 ≡ ok (refreshed same 20 case_one)
create-get_authorized_example =
    (create-get_authorized same plain fresh_one empty one_case case_one "t1" 20 created_one).0

delete_authorized_example :
    (get_authorized same "c1" "t1" 40 (delete_authorized same "c1" "t1" 30 one_case).0).1
    ≡ err not_found
unfolding program
delete_authorized_example =
    ((delete_authorized_lem same plain "c1" "t1" 30 one_case).0 case_one refl refl).0 "t1" 40

abbrev hello : Message
hello = record { role = user; content = "oi" }

abbrev replied : CaseRecord plain
replied = record case_one { idempotent_messages = ("m1", "old") ∷ [] }
