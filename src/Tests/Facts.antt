-- ===== src/Tests/Facts.antt =====
-- Runs of the update of the facts, app/consumer/service.py.
use give_exit.Prelude.{String, Bool, true, false, ◌&&◌, Option, none, some, [], ◌∷◌}
use give_exit.Prelude.Dict.{Dict, lookup, insert, has}
use give_exit.Store.Defs.{Payload, CaseRecord, CaseStore, token_digest, authorize, get_authorized}
use give_exit.Settlement.{Decimal}
use give_exit.Evidence.Defs.{accepted, native_text, proceed, StoredEvidence, with_evidence}
use give_exit.Evidence.Facts.{
  FactModel, amount, loss_key, reference_key, read_reference, read_amount,
}

-- A reference and an amount.
abbrev Pair : Type 0
Pair = Option String × Option Decimal

abbrev Field : Type 0
Field = Option (String × Decimal)

abbrev zero_decimal : Decimal
zero_decimal = record { coefficient = 0; places = 0 }

abbrev is_null : Field → Bool
is_null none = true
is_null (some v) = false

abbrev text_in : Field → String
text_in none = ""
text_in (some v) = v.0

abbrev amount_in : Field → Decimal
amount_in none = zero_decimal
amount_in (some v) = v.1

abbrev text_field : Option String → Field
text_field none = none
text_field (some t) = some (t, zero_decimal)

abbrev amount_field : Option Decimal → Field
amount_field none = none
amount_field (some d) = some ("", d)

abbrev as_text : Option Field → Option String
as_text none = none
as_text (some none) = none
as_text (some (some v)) = some v.0

abbrev as_amount : Option Field → Option Decimal
as_amount none = none
as_amount (some none) = none
as_amount (some (some v)) = some v.1

abbrev is_empty : Pair → Bool
is_empty (none, none) = true
is_empty (none, some d) = false
is_empty (some t, d) = false

abbrev pairs : FactModel Pair
pairs = record {
  Value = Field;
  none_value = none;
  is_none = is_null;
  text_of = text_in;
  amount_of = λ v. amount (amount_in v);
  model_fields = reference_key ∷ loss_key ∷ [];
  model_dump = λ f. (reference_key, text_field f.0) ∷ (loss_key, amount_field f.1) ∷ [];
  model_validate = λ d. some (as_text (lookup reference_key d), as_amount (lookup loss_key d));
  is_equal = λ f g. is_empty f && is_empty g;
  direct_loss_amount = λ f. f.1;
  direct_loss_reference_id = λ f. f.0;
  improper_payment_amount = λ f. none;
  unsuccessful_scenario_cost_amount = λ f. none;
  article_42_double_repayment_requested = λ f. false;
  complaint_summary = λ f. none;
}

program : Unit {0}
unfolding lookup insert has token_digest authorize get_authorized read_reference read_amount
program = tt

abbrev claims : Payload
claims = record {
  Facts = Pair;
  no_facts = (none, none);
  Evidence = Unit;
  Notice = Unit;
  Verification = Unit;
}

abbrev receipt : StoredEvidence
receipt = record {
  public = record {
    evidence_id = "e1";
    filename = "recibo.pdf";
    page_count = 1;
    status = accepted;
    media_type = "application/pdf";
    extraction_method = native_text;
    ocr_applied = false;
    source_sha256 = "s1";
    content_sha256 = "s2";
    monetary_references =
        record {
          reference_id = "r1";
          amount = 1000;
          page = 1;
          quote = "R$ 10,00";
          quote_sha256 = "q1";
        }
        ∷ [];
    security_assessment = record {
      detected = false;
      recommended_action = proceed;
      findings = [];
      scan_complete = true;
      scan_mode = "rules";
      warnings = [];
    };
    warnings = [];
  };
  safe_document = some (record {
    filename = "recibo.pdf";
    pages = [];
    language = "pt";
    extraction_method = native_text;
    ocr_applied = false;
    warnings = [];
  });
}

abbrev claim_one : CaseRecord (with_evidence claims)
claim_one = record {
  case_id = "c1";
  token_digest = "c1:t1";
  facts = (none, none);
  messages = [];
  documents = receipt ∷ [];
  facts_confirmed = false;
  notice = none;
  scope_verification = none;
  indexed_document_ids = [];
  active_evidence_document_id = none;
  idempotent_messages = [];
  created_at = 1;
  updated_at = 1;
  last_seen_monotonic = 10;
}

abbrev claim_store : CaseStore (with_evidence claims)
claim_store = record {
  cases = ("c1", claim_one) ∷ [];
  max_active_cases = 2;
  idle_ttl_seconds = 60;
  max_messages_per_case = 2;
  max_idempotency_keys_per_case = 1;
}

abbrev seen_one : CaseRecord (with_evidence claims)
seen_one = record claim_one { last_seen_monotonic = 20 }

-- Ten reais, from the receipt.
abbrev ten_reais : Dict Field
ten_reais =
    (loss_key, some ("10", record { coefficient = 10; places = 0 }))
    ∷ (reference_key, some ("r1", zero_decimal))
    ∷ []
