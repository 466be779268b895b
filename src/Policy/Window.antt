-- ===== src/Policy/Window.antt =====
-- `precedence_window` and `enforce_cdc_anchor` of app/consumer/legal_policy.py.
pub mod Laws
use give_exit.Prelude.{
  ℕ, zero, suc, ◌+◌, ◌≤◌, Bool, true, false, not, ◌||◌, List, [], ◌∷◌, leb, ◌==◌, length, filter,
  any, if◌then◌else◌,
}
use give_exit.Policy.{
  LegalProvision, LegalSource, federal_constitution, consumer_defense_code, data_protection_law,
  civil_code, max_complementary_grounds,
}

-- COMPLEMENTARY_SOURCES
abbrev pub is_complementary : LegalSource → Bool
is_complementary data_protection_law = true
is_complementary civil_code = true
is_complementary _ = false

-- CDC_ANCHORED_SOURCES
abbrev pub is_cdc_anchored : LegalSource → Bool
is_cdc_anchored civil_code = true
is_cdc_anchored _ = false

abbrev pub is_cdc : LegalSource → Bool
is_cdc consumer_defense_code = true
is_cdc _ = false

module _ {ℓ} {Candidate : Type ℓ} where
  abbrev pub source_of : LegalProvision × Candidate → LegalSource
  source_of c = c.0.source

  module _ (window : ℕ) (lexical_only : Bool) where
    -- The loop, with `admitted` slots filled and `complementary` of them by complementary sources.
    unfoldable pub admit :
        (admitted complementary : ℕ)
        → List (LegalProvision × Candidate)
        → List (LegalProvision × Candidate)
    admit admitted complementary [] = []
    admit admitted complementary (c ∷ cs) =
        let skip = is_complementary (source_of c) in
        let full = lexical_only || leb max_complementary_grounds complementary in
        let skipped = admit admitted complementary cs in
        let more = admit (admitted + 1) (if skip then complementary + 1 else complementary) cs in
        if (if skip then full else false)
        then skipped
        else c ∷ (if admitted + 1 == window then [] else more)

    unfoldable pub precedence_window :
        List (LegalProvision × Candidate) → List (LegalProvision × Candidate)
    unfolding admit
    precedence_window candidates = admit 0 0 candidates

  unfoldable pub enforce_cdc_anchor :
      List (LegalProvision × Candidate) → List (LegalProvision × Candidate)
  enforce_cdc_anchor selected =
      if any (λ c. is_cdc (source_of c)) selected
      then selected
      else filter (λ c. not (is_cdc_anchored (source_of c))) selected
