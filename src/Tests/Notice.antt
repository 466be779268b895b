-- ===== src/Tests/Notice.antt =====
-- Runs of the notice generation, app/consumer/service.py.
use give_exit.Prelude.{ℕ, String, true, false, none, some, List, [], ◌∷◌, Text}
use give_exit.Prelude.Score.{nat_score}
use give_exit.Rag.{RetrievedChunk}
use give_exit.Policy.{RetrievalTrace}
use give_exit.Store.Defs.{CaseRecord}
use give_exit.Evidence.Index.{stored}
use give_exit.Verifiers.Scope.{consumer, mode_none}
use give_exit.Notice.Citations.{Quoting, prompt_mode}
use give_exit.Notice.Generate.{Drafting, case_payload, generate_notice}
use give_exit.Notice.Generate.Grounded.{IsSound, generate_notice_lem}
use give_exit.Tests.Store.{same}
use give_exit.Tests.Rag.{hit}

abbrev quoting : Quoting String
quoting = record {
  supporting_quote = λ text facts. facts;
  supports_facts = λ text facts. true;
  sha256_hex = same;
}

abbrev hits : List (List (RetrievedChunk Unit ℕ))
hits = (hit "a" 9 ∷ []) ∷ []

abbrev fold_nothing : Text → Text
fold_nothing t = t

abbrev no_traces : List (RetrievalTrace ℕ)
no_traces = []

-- One ground for every case; a ground is its label.
abbrev drafting : Drafting String String ℕ String Unit ℕ
drafting = record {
  complaint_summary = λ f. some f;
  missing_fields = λ f. [];
  is_consumer_scope = λ t. true;
  verify_scope = λ t. record {
    mode = mode_none;
    complaint_sha256 = t;
    verdict = consumer;
    relationship = none;
    quote = none;
    removed = false;
    error = none;
  };
  first = λ n t. t;
  quoting = quoting;
  casefold = fold_nothing;
  retrieve = λ f d. some (record {
    legal_results = hits;
    legal_traces = [];
    evidence_results = [];
    evidence_traces = [];
  });
  grounds = λ f s. "CDC, art. 42" ∷ [];
  settle = λ f es. some 5;
  compose = λ f cs gs x. none;
  compose_deterministically = λ f cs gs x. "Prezados";
  render = λ f cs gs x prose. prose;
}

abbrev told : CaseRecord (case_payload "" drafting)
told = record {
  case_id = "c1";
  token_digest = "c1:t1";
  facts = "cobrança em dobro";
  messages = [];
  documents = [];
  facts_confirmed = false;
  notice = none;
  scope_verification = none;
  indexed_document_ids = [];
  active_evidence_document_id = none;
  idempotent_messages = [];
  created_at = 1;
  updated_at = 1;
  last_seen_monotonic = 10;
}

generate_notice_example :
    IsSound "" drafting ⦃s = nat_score⦄ prompt_mode "n1" 5 6 told
      (generate_notice "" drafting prompt_mode "n1" 5 6 ⦃s = nat_score⦄ true stored told [])
generate_notice_example =
    (generate_notice_lem "" drafting ⦃s = nat_score⦄ prompt_mode "n1" 5 6 true stored told []).0
