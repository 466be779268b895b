-- ===== src/Settlement/Proposal.antt =====
-- What the negotiation amounts of app/consumer/settlement.py promise.
use give_exit.Prelude.{
  ℕ, ◌+◌, ◌*◌, ◌≤◌, ◌≡◌, ◌↔◌, String, Bool, Option, none, some, List, [], ◌∷◌, if◌then◌else◌, arith,
}
use give_exit.Settlement.{
  money, SettlementInputs, SettlementComponent, CalculationPayload, calculate,
}
use give_exit.Settlement.Rounding.{IsAtMost, money_mono}

module _ (Source : Type 0) where
  -- The sum of the listed amounts that a test selects.
  abbrev pub sum_of : (SettlementComponent Source → Bool) → List (SettlementComponent Source) → ℕ
  sum_of p [] = 0
  sum_of p (c ∷ cs) = (if p c then c.amount else 0) + sum_of p cs

  abbrev pub amount_or_zero : Option ℕ → ℕ
  amount_or_zero none = 0
  amount_or_zero (some n) = n

-- For inputs that the schema accepts (the improper payment is part of the direct loss), the public
-- proposal is the sum of the components that are listed as public, and is absent exactly when
-- that is nothing; it lies between the confirmed loss and twice that. The private reservation
-- is the confirmed loss, and the cost without an agreement enters neither.
pub calculate_lem :
    (Source : Type 0) (hash : CalculationPayload Source → String) (i : SettlementInputs Source)
    → IsAtMost i.improper_payment_amount i.direct_loss_amount
    → (amount_or_zero Source (calculate Source hash i).public_proposal_amount
        ≡ sum_of Source (λ c. c.included_in_public_proposal) (calculate Source hash i).components)
      × (((calculate Source hash i).public_proposal_amount ≡ none)
          ↔ (money i.direct_loss_amount ≡ 0))
      × (money i.direct_loss_amount
          ≤ amount_or_zero Source (calculate Source hash i).public_proposal_amount)
      × (amount_or_zero Source (calculate Source hash i).public_proposal_amount
          ≤ 2 * money i.direct_loss_amount)
      × (amount_or_zero Source (calculate Source hash i).private_reservation_amount
          ≡ money i.direct_loss_amount)
unfolding calculate
calculate_lem Source hash i h =
    let part = money_mono i.improper_payment_amount i.direct_loss_amount h in
    (ground arith, ground arith, ground arith, ground arith, ground arith)
