-- ===== src/Evidence/Facts.antt =====
-- The consumer's facts: `update_facts` and `_find_monetary_reference` of app/consumer/service.py.
-- The validation of the facts by pydantic is an interface.
pub mod Sources
pub mod Backed
pub mod Updates
use Prim.Native.String.{◌++◌ as str_append}
use give_exit.Prelude.{
  ℕ, ◌+◌, ◌*◌, ◌^◌, String, Bool, true, false, not, ◌&&◌, Option, none, some, List, [], ◌∷◌, map,
  ltb, ◌==◌, any, filter, str_eq, str_leb, if◌then◌else◌,
}
use give_exit.Prelude.Sorting.{sort}
use give_exit.Prelude.Dict.{Dict, lookup, has, insert}
use give_exit.Store.Defs.{
  Payload, CaseRecord, CaseStore, StoreError, Result, ok, err, touch, get_authorized,
}
use give_exit.Settlement.{Decimal, SettlementInputs}
use give_exit.Evidence.Defs.{
  ExtractionMethod, EvidenceMonetaryReference, ConsumerEvidence, StoredEvidence, with_evidence,
}

-- Decimal(str(value)) of a field; it raises where the text is no number.
pub data ReadAmount : Type 0 where
  amount : Decimal → ReadAmount
  below_zero unreadable : ReadAmount

-- The fields of `ConsumerCaseFacts` that the service reads, and pydantic's dump and validation.
pub record FactModel (Facts : Type 0) : Type 1 where
  pub Value : Type 0
  pub none_value : Value
  pub is_none : Value → Bool
  pub text_of : Value → String
  pub amount_of : Value → ReadAmount
  pub model_fields : List String
  pub model_dump : Facts → Dict Value
  pub model_validate : Dict Value → Option Facts
  pub is_equal : Facts → Facts → Bool
  pub direct_loss_amount : Facts → Option Decimal
  pub direct_loss_reference_id : Facts → Option String
  pub improper_payment_amount : Facts → Option Decimal
  pub unsuccessful_scenario_cost_amount : Facts → Option Decimal
  pub article_42_double_repayment_requested : Facts → Bool
  pub complaint_summary : Facts → Option String

pub data Update (A : Type 0) : Type 0 where
  updated : A → Update A
  unauthorized : StoreError → Update A
  unsupported_fields : List String → Update A
  unmatched_reference unreadable_amount invalid_facts : Update A

-- The decimal is this number of cents.
unfoldable pub is_cents : Decimal → ℕ → Bool
is_cents d cents = d.coefficient * 100 == cents * 10 ^ d.places

abbrev pub is_given {ℓ} : {A : Type ℓ} → Option A → Bool
is_given none = false
is_given (some a) = true

abbrev pub is_nothing {ℓ} : {A : Type ℓ} → List A → Bool
is_nothing [] = true
is_nothing (x ∷ xs) = false

unfoldable pub find_in :
    String
    → StoredEvidence
    → List EvidenceMonetaryReference
    → Option (StoredEvidence × EvidenceMonetaryReference)
    → Option (StoredEvidence × EvidenceMonetaryReference)
find_in id e [] later = later
find_in id e (reference ∷ references) later =
    let rest = find_in id e references later in
    if str_eq reference.reference_id id then some (e, reference) else rest

unfoldable pub find_monetary_reference :
    String → List StoredEvidence → Option (StoredEvidence × EvidenceMonetaryReference)
unfolding find_in
find_monetary_reference id [] = none
find_monetary_reference id (e ∷ es) =
    let later = find_monetary_reference id es in
    if is_given e.safe_document then find_in id e e.public.monetary_references later else later

-- payload.update(updates); the payload has every field already, so no order shows.
unfoldable pub update_all : {V : Type 0} → Dict V → Dict V → Dict V
unfolding insert
update_all d [] = d
update_all d ((k, v) ∷ u) = insert k v (update_all d u)

abbrev pub loss_key : String
loss_key = "direct_loss_amount"

abbrev pub reference_key : String
reference_key = "direct_loss_reference_id"

abbrev pub keys : {V : Type 0} → Dict V → List String
keys = map (λ kv. kv.0)

-- What keeps the amount from being the found reference's.
unfoldable pub mismatch :
    {A : Type 0}
    → Option (StoredEvidence × EvidenceMonetaryReference)
    → Option ReadAmount
    → Option (Update A)
unfolding is_cents
mismatch none a = some unmatched_reference
mismatch (some source) none = some unmatched_reference
mismatch (some source) (some unreadable) = some unreadable_amount
mismatch (some source) (some below_zero) = some unmatched_reference
mismatch (some source) (some (amount d)) =
    if is_cents d source.1.amount then none else some unmatched_reference

unfoldable pub reference_error :
    {A : Type 0} → List StoredEvidence → Option String → Option ReadAmount → Option (Update A)
unfolding find_monetary_reference mismatch
reference_error documents none a = none
reference_error documents (some id) a = mismatch (find_monetary_reference id documents) a

unfoldable pub unless_error : {A : Type 0} → Option (Update A) → Update A → Update A
unless_error none u = u
unless_error (some e) u = e

unfoldable pub confirm : {p : Payload} → Option Bool → CaseRecord p → CaseRecord p
confirm none r = r
confirm (some c) r = record r { facts_confirmed = c }

module _ {Facts : Type 0} (m : FactModel Facts) where
  -- An amount of the loss without its source drops the source.
  unfoldable pub with_cleared : Dict m.Value → Dict m.Value
  unfolding has insert
  with_cleared updates =
      if has loss_key updates && not (has reference_key updates)
      then insert reference_key m.none_value updates
      else updates

  unfoldable pub read_reference : Option m.Value → Option String → Option String
  read_reference none old = old
  read_reference (some v) old = if m.is_none v then none else some (m.text_of v)

  unfoldable pub read_amount : Option m.Value → Option Decimal → Option ReadAmount
  read_amount none none = none
  read_amount none (some d) = some (amount d)
  read_amount (some v) old = if m.is_none v then none else some (m.amount_of v)

  unfoldable pub unknown_fields : Dict m.Value → List String
  unknown_fields updates =
      sort str_leb (filter (λ k. not (any (λ f. str_eq f k) m.model_fields)) (keys updates))

module _ (p : Payload) (m : FactModel p.Facts) where
  unfoldable pub set_facts : p.Facts → CaseRecord (with_evidence p) → CaseRecord (with_evidence p)
  set_facts f r =
      if m.is_equal f r.facts
      then r
      else record r { facts = f; notice = none; facts_confirmed = false }

  unfoldable pub store_facts :
      Option p.Facts
      → Option Bool
      → ℕ
      → ℕ
      → CaseRecord (with_evidence p)
      → Update (CaseRecord (with_evidence p))
  unfolding set_facts confirm touch
  store_facts none confirmed wall now r = invalid_facts
  store_facts (some f) confirmed wall now r =
      updated (touch wall now (confirm confirmed (set_facts f r)))

  -- `update_facts` on the authorized record
  unfoldable pub update_record :
      Dict m.Value
      → Option Bool
      → ℕ
      → ℕ
      → CaseRecord (with_evidence p)
      → Update (CaseRecord (with_evidence p))
  unfolding unknown_fields with_cleared read_reference read_amount reference_error unless_error
      update_all store_facts lookup
  update_record updates confirmed wall now r =
      let u = with_cleared m updates in
      if is_nothing (unknown_fields m updates)
      then unless_error
          (reference_error r.documents
            (read_reference m (lookup reference_key u) (m.direct_loss_reference_id r.facts))
            (read_amount m (lookup loss_key u) (m.direct_loss_amount r.facts)))
          (store_facts (m.model_validate (update_all (m.model_dump r.facts) u)) confirmed wall now
            r)
      else unsupported_fields (unknown_fields m updates)

  unfoldable pub put_updated :
      String
      → CaseStore (with_evidence p)
      → Update (CaseRecord (with_evidence p))
      → CaseStore (with_evidence p) × Update (CaseRecord (with_evidence p))
  unfolding insert
  put_updated case_id s (updated r) = (record s { cases = insert case_id r s.cases }, updated r)
  put_updated case_id s u = (s, u)

  unfoldable pub authorized_update :
      String
      → Dict m.Value
      → Option Bool
      → ℕ
      → ℕ
      → CaseStore (with_evidence p) × Result (CaseRecord (with_evidence p))
      → CaseStore (with_evidence p) × Update (CaseRecord (with_evidence p))
  unfolding update_record put_updated
  authorized_update case_id updates confirmed wall now (s, err e) = (s, unauthorized e)
  authorized_update case_id updates confirmed wall now (s, ok r) =
      put_updated case_id s (update_record updates confirmed wall now r)

  -- With the clock at the access and both clocks at the end.
  unfoldable pub update_facts :
      (String → String)
      → String
      → String
      → Dict m.Value
      → Option Bool
      → (seen wall now : ℕ) → CaseStore (with_evidence p)
      → CaseStore (with_evidence p) × Update (CaseRecord (with_evidence p))
  unfolding authorized_update get_authorized
  update_facts sha256_hex case_id token updates confirmed seen wall now s =
      authorized_update case_id updates confirmed wall now
        (get_authorized sha256_hex case_id token seen s)
