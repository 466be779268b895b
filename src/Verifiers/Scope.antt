-- ===== src/Verifiers/Scope.antt =====
-- `LLMScopeVerifier` of app/consumer/scope_verifier.py.
pub mod Removal
use give_exit.Prelude.{String, Bool, true, false, Option, none, some, List, [], ◌∷◌, if◌then◌else◌}
use give_exit.Verifiers.Quote.{Texts, verified_quote}

pub data Scope : Type 0 where
  consumer not_consumer uncertain : Scope

pub data ScopeVerifierMode : Type 0 where
  mode_none mode_llm : ScopeVerifierMode

pub record ModelScope : Type 0 where
  pub verdict : Scope
  pub relationship : String
  pub quote : String

pub record ScopeVerification : Type 0 where
  pub mode : ScopeVerifierMode
  pub complaint_sha256 : String
  pub verdict : Scope
  pub relationship : Option String
  pub quote : Option String
  pub removed : Bool
  pub error : Option String

-- What `parse` returned, or the type name of what it raised.
pub data Reply : Type 0 where
  answer : ModelScope → Reply
  raised : String → Reply

abbrev pub is_not_consumer : Scope → Bool
is_not_consumer consumer = false
is_not_consumer not_consumer = true
is_not_consumer uncertain = false

-- The verdict of an answer that does not remove the case.
abbrev pub softened : Scope → Scope
softened consumer = consumer
softened not_consumer = uncertain
softened uncertain = uncertain

module _ (sha256_hex : String → String) where
  -- `NoScopeVerifier.verify`
  unfoldable pub verify_nothing : String → ScopeVerification
  verify_nothing complaint = record {
    mode = mode_none;
    complaint_sha256 = sha256_hex complaint;
    verdict = consumer;
    relationship = none;
    quote = none;
    removed = false;
    error = none;
  }

  unfoldable pub settle : String → ModelScope → Option String → ScopeVerification
  settle complaint a none = record {
    mode = mode_llm;
    complaint_sha256 = sha256_hex complaint;
    verdict = softened a.verdict;
    relationship = none;
    quote = none;
    removed = false;
    error = none;
  }
  settle complaint a (some q) = record {
    mode = mode_llm;
    complaint_sha256 = sha256_hex complaint;
    verdict = not_consumer;
    relationship = some a.relationship;
    quote = some q;
    removed = true;
    error = none;
  }

  module _ (t : Texts) where
    unfoldable pub quote_of : String → ModelScope → Option String
    unfolding verified_quote
    quote_of complaint a =
        if is_not_consumer a.verdict then verified_quote t a.quote (complaint ∷ []) else none

    -- `LLMScopeVerifier.verify`
    unfoldable pub verify : String → Reply → ScopeVerification
    unfolding settle quote_of
    verify complaint (raised error) = record {
      mode = mode_llm;
      complaint_sha256 = sha256_hex complaint;
      verdict = uncertain;
      relationship = none;
      quote = none;
      removed = false;
      error = some error;
    }
    verify complaint (answer a) = settle complaint a (quote_of complaint a)
