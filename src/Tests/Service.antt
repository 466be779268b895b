-- ===== src/Tests/Service.antt =====
-- Runs of the conversation of a case, app/consumer/service.py.
use give_exit.Prelude.{arith, ◌≡◌, refl, String, true, false, not, ◌&&◌, some, [], ◌∷◌}
use give_exit.Prelude.Dict.{lookup}
use give_exit.Store.Defs.{CaseRecord, token_digest}
use give_exit.Service.{
  Intake, said, is_content, add_message, readiness_missing, is_nothing, is_out_of_scope,
  has_accepted_evidence,
}
use give_exit.Service.Readiness.{status_of_lem}
use give_exit.Service.Kept.{Sending, send_all}
use give_exit.Service.Conversation.{IsReplayed, add_message_lem}
use give_exit.Store.Defs.{CaseStore}
use give_exit.Tests.Store.{plain, same, one_case, case_one}

program : Unit {0}
unfolding lookup token_digest
program = tt

abbrev plain_intake : Intake plain
plain_intake = record {
  strip = λ s. s;
  merge_facts = λ s f. f;
  next_message = λ f e. "Quando foi?";
  is_accepted = λ e. true;
  missing_fields = λ f. [];
  is_in_scope = λ f. true;
  is_removed = λ f v. false;
}

abbrev confirmed : CaseRecord plain
confirmed = record case_one { documents = tt ∷ []; facts_confirmed = true }

status_of_example : is_nothing (readiness_missing plain_intake confirmed) ≡ (
    is_nothing (plain_intake.missing_fields tt)
    && (not (is_out_of_scope plain_intake confirmed)
        && (has_accepted_evidence plain_intake confirmed && true)))
status_of_example = (status_of_lem plain_intake confirmed).0

valid_text : is_content "oi" ≡ true
unfolding is_content
valid_text = refl

valid_reply : is_content "Quando foi?" ≡ true
unfolding is_content
valid_reply = refl

abbrev roomy : CaseStore plain
roomy = record one_case { max_idempotency_keys_per_case = 2 }

-- A message with another id, in between.
abbrev other : Sending
other = record {
  case_id = "c1";
  token = "t1";
  text = "foi ontem";
  client_message_id = some "m2";
  seen = 25;
  wall = 4;
  now = 26;
}

add_message_example :
    (r1 : CaseRecord plain) × (reply : String) × ((add_message plain_intake same "c1" "t1" "oi"
        (some "m1")
        20
        3
        21
        roomy).1
      ≡ said r1 reply)
    × IsReplayed plain_intake same "c1" reply 30
        (send_all plain_intake same
          (other ∷ [])
          (add_message plain_intake same "c1" "t1" "oi" (some "m1") 20 3 21 roomy).0)
        (add_message plain_intake same "c1" "t1" "de novo" (some "m1") 30 5 31 (
          send_all plain_intake same
            (other ∷ [])
            (add_message plain_intake same "c1" "t1" "oi" (some "m1") 20 3 21 roomy).0))
unfolding program
add_message_example =
    add_message_lem plain_intake same "c1" "t1" "oi" "de novo" "m1" 20 3 21 30 5 31 roomy case_one
      (other ∷ []) refl refl refl refl valid_text (λ f b. valid_reply) (omega arith)
