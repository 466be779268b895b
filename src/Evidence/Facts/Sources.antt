-- ===== src/Evidence/Facts/Sources.antt =====
-- The amounts that the settlement reads, with their sources: `_settlement_inputs` of
-- app/consumer/service.py. The printing of a number and the hash are an interface.
use Prim.Native.String.{◌++◌ as str_append}
use give_exit.Prelude.{
  not, leb, length, codes, ℕ, ◌*◌, ◌^◌, String, Bool, true, false, ◌&&◌, Option, none, some, List,
  [], ◌∷◌, ltb, ◌==◌, str_eq, if◌then◌else◌,
}
use give_exit.Store.Defs.{Payload, CaseRecord}
use give_exit.Settlement.{Decimal, SettlementInputs}
use give_exit.Evidence.Defs.{
  ExtractionMethod, EvidenceMonetaryReference, StoredEvidence, with_evidence,
}
use give_exit.Evidence.Facts.{FactModel, is_given, find_monetary_reference}

pub data MonetarySourceType : Type 0 where
  evidence consumer_confirmed : MonetarySourceType

pub record SettlementComponentSource : Type 0 where
  pub source_type : MonetarySourceType
  pub evidence_id : Option String
  pub filename : Option String
  pub page : Option ℕ
  pub quote : String
  pub quote_sha256 : String
  pub source_sha256 : Option String
  pub content_sha256 : Option String
  pub extraction_method : Option ExtractionMethod
  pub ocr_applied : Bool

unfoldable pub or_zero : Option Decimal → Decimal
or_zero none = record { coefficient = 0; places = 0 }
or_zero (some d) = d

unfoldable pub same_decimal : Option Decimal → Option Decimal → Bool
same_decimal none none = true
same_decimal none (some e) = false
same_decimal (some d) none = false
same_decimal (some d) (some e) = d.coefficient * 10 ^ e.places == e.coefficient * 10 ^ d.places

-- str(amount), the summary with its white space made single and cut to 500 characters, and the hash
pub record Printing : Type 0 where
  pub show_decimal : Decimal → String
  pub summary_of : String → String
  pub sha256_hex : String → String

unfoldable pub is_positive : Option Decimal → Bool
is_positive none = false
is_positive (some d) = ltb 0 d.coefficient

unfoldable pub summary_text : Printing → Option String → String
summary_text pr none = "não informado"
summary_text pr (some t) = if str_eq (pr.summary_of t) "" then "não informado" else pr.summary_of t

-- What reading the amounts comes to: a value, or the error that it raises.
pub data Reading (A : Type 0) : Type 0 where
  read : A → Reading A
  reference_gone quote_too_long improper_above_loss : Reading A

infixl 5 ◌>>=◌
abbrev pub ◌>>=◌ : {A B : Type 0} → Reading A → (A → Reading B) → Reading B
read a >>= f = f a
reference_gone >>= f = reference_gone
quote_too_long >>= f = quote_too_long
improper_above_loss >>= f = improper_above_loss

unfoldable pub source_excerpt : Printing → String → Decimal → Option String → String
unfolding summary_text
source_excerpt pr label d summary = str_append label (
    str_append ": R$ " (
      str_append (pr.show_decimal d)
        (str_append "; relato confirmado: " (summary_text pr summary))))

-- A source quotes 1000 characters at most; an excerpt is never empty.
unfoldable pub confirmed_fact_sources :
    Printing → String → Option Decimal → Option String → Reading (List SettlementComponentSource)
unfolding source_excerpt
confirmed_fact_sources pr label none summary = read []
confirmed_fact_sources pr label (some d) summary =
    let excerpt = source_excerpt pr label d summary in
    if not (ltb 0 d.coefficient)
    then read []
    else if ltb 1000 (length (codes excerpt))
    then quote_too_long
    else read (
        record {
          source_type = consumer_confirmed;
          evidence_id = none;
          filename = none;
          page = none;
          quote = excerpt;
          quote_sha256 = pr.sha256_hex excerpt;
          source_sha256 = none;
          content_sha256 = none;
          extraction_method = none;
          ocr_applied = false;
        }
        ∷ [])

-- The bounds on the page, the quote and the hashes are those of the reference itself.
unfoldable pub cited :
    Option (StoredEvidence × EvidenceMonetaryReference) → Reading (List SettlementComponentSource)
cited none = reference_gone
cited (some (e, reference)) = read (
    record {
      source_type = evidence;
      evidence_id = some e.public.evidence_id;
      filename = some e.public.filename;
      page = some reference.page;
      quote = reference.quote;
      quote_sha256 = reference.quote_sha256;
      source_sha256 = some e.public.source_sha256;
      content_sha256 = some e.public.content_sha256;
      extraction_method = some e.public.extraction_method;
      ocr_applied = e.public.ocr_applied;
    }
    ∷ [])

unfoldable pub cited_or_confirmed :
    Printing
    → List StoredEvidence
    → Option String
    → Option Decimal
    → Option String
    → Reading (List SettlementComponentSource)
unfolding cited find_monetary_reference confirmed_fact_sources
cited_or_confirmed pr documents none d summary =
    confirmed_fact_sources pr "prejuízo direto" d summary
cited_or_confirmed pr documents (some id) d summary = cited (find_monetary_reference id documents)

-- The first amount is not above the second.
unfoldable pub at_most : Decimal → Decimal → Bool
at_most d e = leb (d.coefficient * 10 ^ e.places) (e.coefficient * 10 ^ d.places)

-- `SettlementInputs._validate_inputs`
unfoldable pub validated :
    SettlementInputs SettlementComponentSource
    → Reading (SettlementInputs SettlementComponentSource)
unfolding at_most
validated inputs =
    if at_most inputs.improper_payment_amount inputs.direct_loss_amount
    then read inputs
    else improper_above_loss

module _ (p : Payload) (m : FactModel p.Facts) where
  unfoldable pub direct_loss_sources :
      Printing → CaseRecord (with_evidence p) → Reading (List SettlementComponentSource)
  unfolding cited_or_confirmed
  direct_loss_sources pr r =
      cited_or_confirmed pr r.documents (m.direct_loss_reference_id r.facts)
        (m.direct_loss_amount r.facts) (m.complaint_summary r.facts)

  unfoldable pub improper_payment_sources :
      Printing
      → CaseRecord (with_evidence p)
      → List SettlementComponentSource
      → Reading (List SettlementComponentSource)
  unfolding confirmed_fact_sources same_decimal
  improper_payment_sources pr r sources =
      if is_given (m.direct_loss_reference_id r.facts)
        && same_decimal (m.improper_payment_amount r.facts) (m.direct_loss_amount r.facts)
      then read sources
      else confirmed_fact_sources pr "valor indevidamente pago" (m.improper_payment_amount r.facts)
          (m.complaint_summary r.facts)

  unfoldable pub downside_cost_sources :
      Printing → CaseRecord (with_evidence p) → Reading (List SettlementComponentSource)
  unfolding confirmed_fact_sources
  downside_cost_sources pr r =
      confirmed_fact_sources pr "custo do cenário sem acordo"
        (m.unsuccessful_scenario_cost_amount r.facts) (m.complaint_summary r.facts)

  unfoldable pub inputs_from :
      CaseRecord (with_evidence p)
      → (loss improper downside : List SettlementComponentSource)
      → SettlementInputs SettlementComponentSource
  unfolding or_zero is_positive
  inputs_from r loss improper downside = record {
    direct_loss_amount = or_zero (m.direct_loss_amount r.facts);
    improper_payment_amount = or_zero (m.improper_payment_amount r.facts);
    downside_cost_amount = or_zero (m.unsuccessful_scenario_cost_amount r.facts);
    article_42_double_repayment_supported =
        m.article_42_double_repayment_requested r.facts
        && is_positive (m.improper_payment_amount r.facts);
    direct_loss_sources = loss;
    improper_payment_sources = improper;
    downside_cost_sources = downside;
  }

  unfoldable pub settlement_inputs :
      Printing → CaseRecord (with_evidence p) → Reading (SettlementInputs SettlementComponentSource)
  unfolding direct_loss_sources improper_payment_sources downside_cost_sources inputs_from validated
  settlement_inputs pr r = do
    loss ← direct_loss_sources pr r
    improper ← improper_payment_sources pr r loss
    downside ← downside_cost_sources pr r
    validated (inputs_from r loss improper downside)
