-- ===== src/Evidence/Facts/Backed.antt =====
-- The amount of the loss stays the amount of its evidence: `update_facts` and `_settlement_inputs`
-- of app/consumer/service.py.
use give_exit.Prelude.{
  ◌⊎◌, ◌&&◌, ltb, length, codes, ℕ, ◌≡◌, refl, ap, ◌∙◌, inl, inr, String, Bool, true, false, Option,
  none, some, List, [], ◌∷◌, str_eq, if◌then◌else◌, Bool-cases, subst,
}
use give_exit.Prelude.Dict.{Dict, lookup, lookup-insert}
use give_exit.Store.Defs.{Payload, CaseRecord}
use give_exit.Settlement.{Decimal, SettlementInputs}
use give_exit.Evidence.Defs.{EvidenceMonetaryReference, StoredEvidence, with_evidence}
use give_exit.Evidence.Facts.{
  FactModel, is_given, ReadAmount, amount, below_zero, unreadable, is_cents,
  find_monetary_reference, update_all, loss_key, reference_key, mismatch, reference_error,
  read_reference, read_amount,
}
use give_exit.Evidence.Facts.Sources.{
  Reading, read, reference_gone, quote_too_long, improper_above_loss, ◌>>=◌, at_most, validated,
  inputs_from, Printing, SettlementComponentSource, source_excerpt, confirmed_fact_sources,
  cited_or_confirmed, cited, direct_loss_sources, improper_payment_sources, downside_cost_sources,
  settlement_inputs, or_zero, same_decimal,
}

abbrev pub is_amount : Option ReadAmount → ℕ → Bool
is_amount none cents = false
is_amount (some unreadable) cents = false
is_amount (some below_zero) cents = false
is_amount (some (amount d)) cents = is_cents d cents

-- What pydantic does with the two fields: a dump holds their values, a validated payload's values
-- are read as the service reads them, and equal facts have the same values.
pub record Validates {Facts : Type 0} (m : FactModel Facts) : Type 0 where
  pub dumped_reference :
      (f : Facts)
      → read_reference m (lookup reference_key (m.model_dump f)) none ≡ m.direct_loss_reference_id f
  pub dumped_loss :
      (f : Facts)
      → read_amount m (lookup loss_key (m.model_dump f)) none
        ≡ read_amount m none (m.direct_loss_amount f)
  pub validated_reference :
      (d : Dict m.Value) (f : Facts)
      → m.model_validate d ≡ some f
      → m.direct_loss_reference_id f ≡ read_reference m (lookup reference_key d) none
  pub validated_loss :
      (d : Dict m.Value) (f : Facts)
      → m.model_validate d ≡ some f
      → read_amount m none (m.direct_loss_amount f) ≡ read_amount m (lookup loss_key d) none
  pub equal_reference :
      (f g : Facts)
      → m.is_equal f g ≡ true
      → m.direct_loss_reference_id f ≡ m.direct_loss_reference_id g
  pub equal_loss :
      (f g : Facts) (cents : ℕ)
      → m.is_equal f g ≡ true
      → is_amount (read_amount m none (m.direct_loss_amount f)) cents
        ≡ is_amount (read_amount m none (m.direct_loss_amount g)) cents

or_else : {A : Type 0} → Option A → Option A → Option A
or_else none b = b
or_else (some a) b = some a

or_else-if :
    {A : Type 0} (b : Bool) (v : A) (x y : Option A)
    → (if b then some v else or_else x y) ≡ or_else (if b then some v else x) y
unfolding or_else
or_else-if true v x y = refl
or_else-if false v x y = refl

lookup-update_all :
    {V : Type 0} (j : String) (d u : Dict V)
    → lookup j (update_all d u) ≡ or_else (lookup j u) (lookup j d)
unfolding update_all lookup or_else
lookup-update_all j d [] = refl
lookup-update_all j d ((k, v) ∷ u) =
    lookup-insert k j v (update_all d u)
    ∙ ap (λ x. if str_eq k j then some v else x) (lookup-update_all j d u)
    ∙ or_else-if (str_eq k j) v (lookup j u) (lookup j d)

mismatch_lem :
    {A : Type 0} (s : Option (StoredEvidence × EvidenceMonetaryReference)) (a : Option ReadAmount)
    → mismatch {A = A} s a ≡ none
    → (source : StoredEvidence × EvidenceMonetaryReference) × (s ≡ some source)
      × (is_amount a source.1.amount ≡ true)
unfolding mismatch
mismatch_lem none a h = cc
mismatch_lem (some source) none h = cc
mismatch_lem (some source) (some unreadable) h = cc
mismatch_lem (some source) (some below_zero) h = cc
mismatch_lem (some source) (some (amount d)) h = elim (Bool-cases (is_cents d source.1.amount)) [
  | inl same ↦ (source, refl, same)
  | inr other ↦ let no_match = rw other at h in cc
]

-- The reference stands in the evidence, with this amount.
abbrev pub IsFound : List StoredEvidence → Option String → Option ReadAmount → Type 0
IsFound documents o a =
    (id : String)
    → o ≡ some id
    → (source : StoredEvidence × EvidenceMonetaryReference) × (find_monetary_reference id documents
        ≡ some source)
      × (is_amount a source.1.amount ≡ true)

pub reference_error_lem :
    {A : Type 0} (documents : List StoredEvidence) (o : Option String) (a : Option ReadAmount)
    → reference_error {A = A} documents o a ≡ none
    → IsFound documents o a
unfolding reference_error
reference_error_lem documents none a h = λ id e. cc
reference_error_lem {A = A} documents (some i) a h = λ id e.
    let same : i ≡ id = cc in
    subst
      (λ (j : String).
        (source : StoredEvidence × EvidenceMonetaryReference) × (find_monetary_reference j documents
          ≡ some source)
        × (is_amount a source.1.amount ≡ true))
      same (mismatch_lem {A = A} (find_monetary_reference i documents) a h)

-- The excerpt of a confirmed amount is above the limit of a quote.
abbrev pub IsLong : Printing → Option String → Option Decimal → Type 0
IsLong pr summary o =
    (label : String) × (d : Decimal) × (o ≡ some d)
    × (ltb 1000 (length (codes (source_excerpt pr label d summary))) ≡ true)

module _ {B : Type 0} (Q : Reading B → Type 0) (pr : Printing)
    (k : List SettlementComponentSource → Reading B) where
  confirmed-Reading :
      (label : String) (o : Option Decimal) (summary : Option String)
      → (IsLong pr summary o → Q quote_too_long)
      → ((sources : List SettlementComponentSource) → Q (k sources))
      → Q (confirmed_fact_sources pr label o summary >>= k)
  unfolding confirmed_fact_sources
  confirmed-Reading label none summary long fine = fine []
  confirmed-Reading label (some d) summary long fine = elim (Bool-cases (ltb 0 d.coefficient)) [
    | inr nothing ↦ rw nothing (fine [])
    | inl some_loss ↦
        elim (Bool-cases (ltb 1000 (length (codes (source_excerpt pr label d summary))))) [
          | inl above ↦ rw some_loss (rw above (long (label, d, refl, above)))
          | inr fits ↦ rw some_loss (rw fits (fine _))
        ]
  ]

  cited-Reading :
      (documents : List StoredEvidence) (o : Option String) (a : Option ReadAmount)
      (d : Option Decimal) (summary : Option String)
      → IsFound documents o a
      → (IsLong pr summary d → Q quote_too_long)
      → ((sources : List SettlementComponentSource) → Q (k sources))
      → Q (cited_or_confirmed pr documents o d summary >>= k)
  unfolding cited_or_confirmed cited
  cited-Reading documents none a d summary h long fine =
      confirmed-Reading "prejuízo direto" d summary long fine
  cited-Reading documents (some id) a d summary h long fine =
      let ((e, reference), found, same) = h id refl in rw found (fine _)

module _ {Facts : Type 0} (m : FactModel Facts) where
  read_reference-or_else :
      (x y : Option m.Value)
      → read_reference m (or_else x y) none ≡ read_reference m x (read_reference m y none)
  unfolding or_else read_reference
  read_reference-or_else none y = refl
  read_reference-or_else (some v) y = refl

  read_amount-or_else :
      (x y : Option m.Value) (old : Option Decimal)
      → read_amount m y none ≡ read_amount m none old
      → read_amount m (or_else x y) none ≡ read_amount m x old
  unfolding or_else read_amount
  read_amount-or_else none y old h = h
  read_amount-or_else (some v) y old h = refl

module _ (p : Payload) (m : FactModel p.Facts) (laws : Validates m) where
  -- A reference that the facts name stands in the evidence, with the amount of the loss.
  abbrev pub IsBacked : CaseRecord (with_evidence p) → Type 0
  IsBacked r =
      IsFound r.documents (m.direct_loss_reference_id r.facts)
        (read_amount m none (m.direct_loss_amount r.facts))

  -- The validated facts have the reference and the amount that the service checked.
  pub validated_lem :
      (u : Dict m.Value) (f g : p.Facts)
      → m.model_validate (update_all (m.model_dump f) u) ≡ some g
      → (m.direct_loss_reference_id g
          ≡ read_reference m (lookup reference_key u) (m.direct_loss_reference_id f))
        × (read_amount m none (m.direct_loss_amount g)
            ≡ read_amount m (lookup loss_key u) (m.direct_loss_amount f))
  validated_lem u f g h =
      let d = m.model_dump f in
      (
        laws.validated_reference (update_all d u) g h
            ∙ ap (λ x. read_reference m x none) (lookup-update_all reference_key d u)
            ∙ read_reference-or_else m (lookup reference_key u) (lookup reference_key d)
            ∙ ap (λ x. read_reference m (lookup reference_key u) x) (laws.dumped_reference f),
        laws.validated_loss (update_all d u) g h
            ∙ ap (λ x. read_amount m x none) (lookup-update_all loss_key d u)
            ∙ read_amount-or_else m (lookup loss_key u) (lookup loss_key d) (m.direct_loss_amount f)
                (laws.dumped_loss f),
      )

  -- What the settlement reads: its inputs exactly as the facts have them, or an error that the
  -- facts explain. The reference is never gone.
  abbrev pub IsSettled :
      Printing
      → CaseRecord (with_evidence p)
      → Reading (SettlementInputs SettlementComponentSource)
      → Type 0
  IsSettled pr r (read inputs) =
      (inputs.direct_loss_amount ≡ or_zero (m.direct_loss_amount r.facts))
      × (inputs.improper_payment_amount ≡ or_zero (m.improper_payment_amount r.facts))
      × (inputs.downside_cost_amount ≡ or_zero (m.unsuccessful_scenario_cost_amount r.facts))
      × (at_most inputs.improper_payment_amount inputs.direct_loss_amount ≡ true)
  IsSettled pr r reference_gone = ⊥
  IsSettled pr r quote_too_long =
      IsLong pr (m.complaint_summary r.facts) (m.direct_loss_amount r.facts)
      ⊎ (IsLong pr (m.complaint_summary r.facts) (m.improper_payment_amount r.facts)
          ⊎ IsLong pr (m.complaint_summary r.facts) (m.unsuccessful_scenario_cost_amount r.facts))
  IsSettled pr r improper_above_loss =
      at_most (or_zero (m.improper_payment_amount r.facts)) (or_zero (m.direct_loss_amount r.facts))
      ≡ false

  validated-IsSettled :
      (pr : Printing) (r : CaseRecord (with_evidence p))
      (loss improper downside : List SettlementComponentSource)
      → IsSettled pr r (validated (inputs_from p m r loss improper downside))
  unfolding validated inputs_from
  validated-IsSettled pr r loss improper downside =
      elim (Bool-cases (
        at_most (or_zero (m.improper_payment_amount r.facts))
          (or_zero (m.direct_loss_amount r.facts)))) [
            | inl fits ↦ rw fits (refl, refl, refl, fits)
            | inr above ↦ rw above above
          ]

  improper-IsSettled :
      (pr : Printing) (r : CaseRecord (with_evidence p)) (loss : List SettlementComponentSource)
      (k : List SettlementComponentSource → Reading (SettlementInputs SettlementComponentSource))
      → ((sources : List SettlementComponentSource) → IsSettled pr r (k sources))
      → IsSettled pr r (improper_payment_sources p m pr r loss >>= k)
  unfolding improper_payment_sources
  improper-IsSettled pr r loss k fine =
      elim (Bool-cases (
        is_given (m.direct_loss_reference_id r.facts)
        && same_decimal (m.improper_payment_amount r.facts) (m.direct_loss_amount r.facts))) [
          | inl same ↦ rw same (fine loss)
          | inr other ↦ rw other (
              confirmed-Reading (IsSettled pr r) pr k "valor indevidamente pago"
                (m.improper_payment_amount r.facts) (m.complaint_summary r.facts)
                (λ long. inr (inl long)) fine)
        ]

  pub settlement_inputs-IsSettled :
      (pr : Printing) (r : CaseRecord (with_evidence p))
      → IsBacked r
      → IsSettled pr r (settlement_inputs p m pr r)
  unfolding settlement_inputs direct_loss_sources downside_cost_sources
  settlement_inputs-IsSettled pr r h =
      cited-Reading (IsSettled pr r) pr _ r.documents (m.direct_loss_reference_id r.facts)
        (read_amount m none (m.direct_loss_amount r.facts)) (m.direct_loss_amount r.facts)
        (m.complaint_summary r.facts) h (λ long. inl long)
        (λ loss. improper-IsSettled pr r loss _ (λ improper.
          confirmed-Reading (IsSettled pr r) pr _ "custo do cenário sem acordo"
            (m.unsuccessful_scenario_cost_amount r.facts) (m.complaint_summary r.facts)
            (λ long. inr (inr long)) (λ downside. validated-IsSettled pr r loss improper downside)))
