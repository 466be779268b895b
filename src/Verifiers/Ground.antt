-- ===== src/Verifiers/Ground.antt =====
-- `LLMGroundVerifier` and `apply_verdicts` of app/consumer/ground_verifier.py. The model's answer
-- is an input: what the client returned, or the name of the exception that it raised.
pub mod DropOnly
use Prim.Native.String.{◌++◌ as str_append}
use give_exit.Prelude.{
  ℕ, ◌+◌, ◌-◌, String, Bool, true, false, not, ◌&&◌, Option, none, some, List, [], ◌∷◌, any, filter,
  length, ◌==◌, str_eq, if◌then◌else◌,
}
use give_exit.Verifiers.Quote.{Texts, verified_quote}

pub data Verdict : Type 0 where
  applies does_not_apply uncertain : Verdict

-- A negative index, which no ground has, is none.
pub record ModelVerdict : Type 0 where
  pub ground_index : Option ℕ
  pub verdict : Verdict
  pub fact_quote : String
  pub provision_quote : String

pub record GroundVerification : Type 0 where
  pub verdict : Verdict
  pub verified : Bool
  pub fact_quote : Option String
  pub provision_quote : Option String

pub record LegalAuthority : Type 0 where
  pub law_id : String
  pub official_excerpt : Option String
  pub official_text : Option String

-- `LegalGround`, with what the verifier writes on it
pub record CheckedGround : Type 0 where
  pub authority : LegalAuthority
  pub application_to_facts : String
  pub verification : Option GroundVerification

pub record Facts : Type 0 where
  pub complaint_summary : Option String
  pub desired_resolution : Option String

pub data GroundVerifierMode : Type 0 where
  mode_none mode_llm : GroundVerifierMode

pub record GroundVerificationSummary : Type 0 where
  pub mode : GroundVerifierMode
  pub removed : ℕ
  pub error : Option String

pub record GroundVerificationResult : Type 0 where
  pub grounds : List CheckedGround
  pub summary : GroundVerificationSummary
  pub warnings : List String

-- `text or other`
unfoldable pub or_text : Option String → String → String
or_text none other = other
or_text (some t) other = if str_eq t "" then other else t

abbrev pub is_index : ℕ → Option ℕ → Bool
is_index i none = false
is_index i (some j) = i == j

abbrev or_earlier : Option ModelVerdict → Option ModelVerdict → Option ModelVerdict
or_earlier none earlier = earlier
or_earlier (some v) earlier = some v

-- `by_index.get(index)`: of several verdicts on one index the last counts.
unfoldable pub verdict_at : ℕ → List ModelVerdict → Option ModelVerdict
verdict_at i [] = none
verdict_at i (v ∷ vs) =
    or_earlier (verdict_at i vs) (if is_index i v.ground_index then some v else none)

abbrev pub is_truthy : Option String → Bool
is_truthy none = false
is_truthy (some t) = not (str_eq t "")

abbrev pub is_applies : Verdict → Bool
is_applies applies = true
is_applies does_not_apply = false
is_applies uncertain = false

abbrev pub is_refused : Verdict → Bool
is_refused applies = false
is_refused does_not_apply = true
is_refused uncertain = false

abbrev pub unverified : Verdict → GroundVerification
unverified v = record { verdict = v; verified = false; fact_quote = none; provision_quote = none }

-- What `parse` returned, or the type name of what it raised.
pub data Reply : Type 0 where
  verdicts_of : List ModelVerdict → Reply
  raised : String → Reply

unfoldable pub fact_sources_of : Facts → List String
unfolding or_text
fact_sources_of facts =
    or_text facts.complaint_summary "" ∷ or_text facts.desired_resolution "" ∷ []

module _ (t : Texts) where
  -- On the two quotes that code found.
  unfoldable pub checked_quotes : Verdict → Option String → Option String → GroundVerification
  checked_quotes verdict fact provision =
      if is_applies verdict && (is_truthy fact && is_truthy provision)
      then record {
        verdict = applies;
        verified = true;
        fact_quote = fact;
        provision_quote = provision;
      }
      else unverified uncertain

  unfoldable pub checked_record : Option ModelVerdict → List String → String → GroundVerification
  unfolding checked_quotes verified_quote
  checked_record none fact_sources official = unverified uncertain
  checked_record (some v) fact_sources official =
      if is_refused v.verdict
      then unverified does_not_apply
      else checked_quotes v.verdict (verified_quote t v.fact_quote fact_sources)
          (verified_quote t v.provision_quote (official ∷ []))

  abbrev pub text_of : Option String → String
  text_of none = "None"
  text_of (some q) = q

  -- A ground that is not verified keeps its sentence.
  unfoldable pub application_of : Bool → CheckedGround → GroundVerification → String
  application_of false g r = g.application_to_facts
  application_of true g r = str_append "O(a) consumidor(a) relata que \"" (
      str_append (text_of r.fact_quote) (
        str_append "\", e o dispositivo estabelece que \"" (
          str_append (text_of r.provision_quote)
            "\". A aplicação deste fundamento ao caso ainda deve ser confirmada por profissional habilitado.")))

  unfoldable pub with_record : CheckedGround → GroundVerification → CheckedGround
  unfolding application_of
  with_record g r = record g {
    verification = some r;
    application_to_facts = application_of r.verified g r;
  }

  unfoldable pub official_of : CheckedGround → String
  unfolding or_text
  official_of g = or_text g.authority.official_excerpt (or_text g.authority.official_text "")

  -- The loop over the grounds, from index `i` on.
  unfoldable pub keep_grounds :
      List String → List ModelVerdict → ℕ → List CheckedGround → List CheckedGround
  unfolding checked_record official_of with_record verdict_at
  keep_grounds fact_sources verdicts i [] = []
  keep_grounds fact_sources verdicts i (g ∷ gs) =
      let r = checked_record (verdict_at i verdicts) fact_sources (official_of g) in
      let rest = keep_grounds fact_sources verdicts (i + 1) gs in
      if is_refused r.verdict then rest else with_record g r ∷ rest

  module _ (cdc_law_id civil_code_law_id : String) where
    unfoldable pub anchored : List CheckedGround → List CheckedGround
    anchored kept =
        if any (λ g. str_eq g.authority.law_id cdc_law_id) kept
        then kept
        else filter (λ g. not (str_eq g.authority.law_id civil_code_law_id)) kept

    unfoldable pub apply_verdicts :
        Facts → List CheckedGround → List ModelVerdict → List CheckedGround
    unfolding anchored keep_grounds fact_sources_of
    apply_verdicts facts grounds verdicts =
        anchored (keep_grounds (fact_sources_of facts) verdicts 0 grounds)

    unfoldable pub verify_reply : Facts → List CheckedGround → Reply → GroundVerificationResult
    unfolding apply_verdicts
    verify_reply facts grounds (raised error) = record {
      grounds = grounds;
      summary = record { mode = mode_llm; removed = 0; error = some error };
      warnings =
          "A verificação automática dos fundamentos não esteve disponível; os fundamentos selecionados foram mantidos sem essa verificação."
          ∷ [];
    }
    verify_reply facts grounds (verdicts_of vs) =
        let verified = apply_verdicts facts grounds vs in
        record {
          grounds = verified;
          summary = record {
            mode = mode_llm;
            removed = length grounds - length verified;
            error = none;
          };
          warnings = [];
        }

    -- `LLMGroundVerifier.verify`: without grounds the model is not asked.
    unfoldable pub verify : Facts → List CheckedGround → Reply → GroundVerificationResult
    unfolding verify_reply
    verify facts [] reply = record {
      grounds = [];
      summary = record { mode = mode_llm; removed = 0; error = none };
      warnings = [];
    }
    verify facts (g ∷ gs) reply = verify_reply facts (g ∷ gs) reply
