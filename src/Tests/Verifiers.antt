-- ===== src/Tests/Verifiers.antt =====
-- Runs of the verifiers, app/consumer/ground_verifier.py and app/consumer/scope_verifier.py.
use give_exit.Prelude.{refl, String, none, some, List, [], ◌∷◌, str_eq, if◌then◌else◌}
use give_exit.Verifiers.Quote.{Texts, verified_quote, first_match, or_next}
use give_exit.Verifiers.Ground.{applies, does_not_apply, ModelVerdict, CheckedGround, Facts}
use give_exit.Verifiers.Scope.{ModelScope, not_consumer, answer, quote_of, settle, verify}
use give_exit.Verifiers.Scope.Removal.{Removes, verify-Removes}
use give_exit.Tests.Store.{same}

program : Unit {0}
unfolding verify quote_of settle verified_quote first_match or_next
program = tt

-- Texts of thirteen characters, of which only equal ones match.
abbrev plain_texts : Texts
plain_texts = record {
  compact = λ t. t;
  chars = λ t. 13;
  search = λ pattern text. if str_eq pattern text then some text else none;
}

abbrev ground_of : String → CheckedGround
ground_of law = record {
  authority = record {
    law_id = law;
    official_excerpt = some "texto oficial";
    official_text = none;
  };
  application_to_facts = "Aplica-se.";
  verification = none;
}

abbrev told : Facts
told = record { complaint_summary = some "fui cobrado 2x"; desired_resolution = none }

abbrev refused_cdc : List ModelVerdict
refused_cdc =
    record {
      ground_index = some 0;
      verdict = does_not_apply;
      fact_quote = "";
      provision_quote = "";
    }
    ∷ record {
      ground_index = some 1;
      verdict = applies;
      fact_quote = "fui cobrado 2x";
      provision_quote = "texto oficial";
    }
    ∷ []

abbrev two_grounds : List CheckedGround
two_grounds = ground_of "cdc" ∷ ground_of "cc" ∷ []

abbrev tenancy : ModelScope
tenancy = record { verdict = not_consumer; relationship = "tenancy"; quote = "meu inquilino" }

verify-Removes_example : Removes plain_texts "meu inquilino" (answer tenancy)
unfolding program
verify-Removes_example = (verify-Removes same plain_texts "meu inquilino" (answer tenancy)).0 refl
