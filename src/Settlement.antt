-- ===== src/Settlement.antt =====
-- `SettlementCalculator` of app/consumer/settlement.py. A `Decimal` input is a coefficient over a
-- power of ten; after `_money` every amount is a whole number of cents. The fixed explanatory
-- texts of the scenario are not modelled, and the audit hash is an argument.
pub mod Rounding
pub mod Proposal
use give_exit.Prelude.{
  ℕ, ◌+◌, ◌-◌, ◌*◌, ◌/◌, ◌^◌, ◌≤◌, String, Bool, true, false, Option, none, some, List, [], ◌∷◌,
  ◌++◌, ltb, leb, if◌then◌else◌,
}

pub data ℤ : Type 0 where
  pos : ℕ → ℤ
  negsuc : ℕ → ℤ

-- Minus a natural number.
unfoldable pub negated : ℕ → ℤ
negated n = if ltb 0 n then negsuc (n - 1) else pos 0

-- `coefficient * 10 ** -places`, at least 0.
pub record Decimal : Type 0 where
  pub coefficient : ℕ
  pub places : ℕ

-- value.quantize(Decimal("0.01"), rounding=ROUND_HALF_UP), in cents.
unfoldable pub money : Decimal → ℕ
money d = (2 * (d.coefficient * 100) + 10 ^ d.places) / (2 * 10 ^ d.places)

pub data ComponentKind : Type 0 where
  direct_loss conditional_article_42 downside_cost : ComponentKind

module _ (Source : Type 0) where
  pub record SettlementInputs : Type 0 where
    pub direct_loss_amount : Decimal
    pub improper_payment_amount : Decimal
    pub downside_cost_amount : Decimal
    pub article_42_double_repayment_supported : Bool
    pub direct_loss_sources : List Source
    pub improper_payment_sources : List Source
    pub downside_cost_sources : List Source

  pub record SettlementComponent : Type 0 where
    pub kind : ComponentKind
    pub amount : ℕ
    pub included_in_public_proposal : Bool
    pub sources : List Source

  pub record SettlementScenario : Type 0 where
    pub calibrated : Bool
    pub is_legal_outcome_prediction : Bool
    pub direct_loss_amount : ℕ
    pub improper_payment_amount : ℕ
    pub downside_cost_amount : ℕ
    pub unsuccessful_outcome_value : ℤ
    pub conditional_article_42_increment_amount : ℕ
    pub low_outcome_value : ℕ
    pub high_outcome_value : ℕ
    pub public_proposal_amount : Option ℕ
    pub private_reservation_amount : Option ℕ
    pub components : List SettlementComponent
    pub calculation_sha256 : String

  -- What the audit hash is taken of.
  pub record CalculationPayload : Type 0 where
    pub components : List SettlementComponent
    pub public_proposal : Option ℕ
    pub private_reservation : Option ℕ

  module _ (canonical_json_sha256 : CalculationPayload → String) where
    -- A component is listed when its amount is positive.
    unfoldable pub listed :
        ComponentKind → ℕ → Bool → List Source → List SettlementComponent → List SettlementComponent
    listed kind amount included sources rest =
        let component : SettlementComponent = record {
          kind = kind;
          amount = amount;
          included_in_public_proposal = included;
          sources = sources;
        } in
        if ltb 0 amount then component ∷ rest else rest

    -- A `Decimal` of whole cents quantizes to itself, so the second `_money` is left out.
    unfoldable pub calculate : SettlementInputs → SettlementScenario
    unfolding listed
    calculate inputs =
        let direct_loss_cents = money inputs.direct_loss_amount in
        let improper_paid = money inputs.improper_payment_amount in
        let downside_cents = money inputs.downside_cost_amount in
        let article_42_increment : ℕ =
          if inputs.article_42_double_repayment_supported then improper_paid else 0 in
        let high_outcome = direct_loss_cents + article_42_increment in
        let public_proposal : Option ℕ = if ltb 0 high_outcome then some high_outcome else none in
        let private_reservation : Option ℕ =
          if ltb 0 high_outcome then some direct_loss_cents else none in
        let components : List SettlementComponent =
          listed direct_loss direct_loss_cents true inputs.direct_loss_sources (
            listed conditional_article_42 article_42_increment true inputs.improper_payment_sources
              (listed downside_cost downside_cents false inputs.downside_cost_sources [])) in
        record {
          calibrated = false;
          is_legal_outcome_prediction = false;
          direct_loss_amount = direct_loss_cents;
          improper_payment_amount = improper_paid;
          downside_cost_amount = downside_cents;
          unsuccessful_outcome_value = negated downside_cents;
          conditional_article_42_increment_amount = article_42_increment;
          low_outcome_value = direct_loss_cents;
          high_outcome_value = high_outcome;
          public_proposal_amount = public_proposal;
          private_reservation_amount = private_reservation;
          components = components;
          calculation_sha256 = canonical_json_sha256 (record {
            components = components;
            public_proposal = public_proposal;
            private_reservation = private_reservation;
          });
        }
