-- ===== src/Tests/Support.antt =====
-- Runs of the evidence support, app/consumer/evidence_support.py.
use give_exit.Prelude.{
  ◌≤◌, ◌≡◌, ◌⊎◌, refl, String, true, false, none, some, List, [], ◌∷◌, length, codes, text_eq_refl,
  All, Any,
}
use give_exit.Evidence.Support.{
  Reading, ConfirmedFacts, is_in, case_identifiers, compact_of, evidence_supports_confirmed_facts,
}
use give_exit.Evidence.Support.Identifiers.{IsSpelled}
use give_exit.Evidence.Support.Accepts.{
  IsTopical, NoRepeat, complaint, evidence_supports_confirmed_facts_lem,
}

-- A text is one word.
abbrev one_word : Reading
one_word = record {
  words = λ t. t ∷ [];
  is_digits = λ t. false;
  amounts = λ t. [];
  dates = λ t. [];
  embedded_identifiers = λ t. [];
  labeled_identifiers = λ t. [];
  joined = λ ts. "";
}

abbrev with_protocol : ConfirmedFacts
with_protocol = record {
  bank_name = some "banco";
  complaint_summary = none;
  incident_date_or_period = none;
  desired_resolution = none;
  prior_protocols = "ab123" ∷ [];
  direct_loss_amount = none;
  improper_payment_amount = none;
  unsuccessful_scenario_cost_amount = none;
}

program : Unit {0}
unfolding case_identifiers evidence_supports_confirmed_facts
program = tt

supported : evidence_supports_confirmed_facts one_word "ab123" with_protocol ≡ true
unfolding program
supported = rw (text_eq_refl (codes "ab123")) refl

evidence_supports_confirmed_facts_example :
    Any
      (λ i.
        (4 ≤ length (compact_of (one_word.words i)))
        × IsSpelled (compact_of (one_word.words i)) (one_word.words "ab123"))
      (case_identifiers one_word with_protocol)
    ⊎ ((shared : List String) × (2 ≤ length shared)
        × NoRepeat shared
        × All (IsTopical one_word (one_word.words "banco")) shared
        × All (λ t. is_in t (one_word.words (complaint one_word with_protocol)) ≡ true) shared
        × All (λ t. is_in t (one_word.words "ab123") ≡ true) shared)
evidence_supports_confirmed_facts_example =
    evidence_supports_confirmed_facts_lem one_word "ab123" with_protocol supported
