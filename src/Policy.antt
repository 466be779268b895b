-- ===== src/Policy.antt =====
-- The deterministic citation policy, app/consumer/legal_policy.py, and what it reads: retrieval
-- traces (app/schemas/trace.py) and provisions (app/consumer/schemas.py), with the fields that
-- the policy and the ground selection use.
pub mod Aliases
pub mod Support
pub mod Window
pub mod Eligibility
use give_exit.Prelude.{ℕ, String, Option, List, ◌∷◌, []}
use give_exit.Prelude.Dict.{Dict}

-- `RetrievedItemTrace`
pub record ItemTrace (N : Type 0) : Type 0 where
  pub rank : ℕ
  pub chunk_id : String
  pub score : N
  pub channel_ranks : Dict ℕ

-- `RetrievalTrace`
pub record RetrievalTrace (N : Type 0) : Type 0 where
  pub batch_id : String
  pub query_index : ℕ
  pub query : String
  pub retrieval_mode : String
  pub score_type : String
  pub degraded_mode : Option String
  pub error : Option String
  pub results : List (ItemTrace N)

pub data LegalSource : Type 0 where
  federal_constitution consumer_defense_code data_protection_law civil_code : LegalSource

pub data ProvisionStatus : Type 0 where
  active vetoed revoked : ProvisionStatus

pub data IndexScope : Type 0 where
  indexed audit_only : IndexScope

-- `LegalProvision`
pub record LegalProvision : Type 0 where
  pub provision_id : String
  pub source : LegalSource
  pub status : ProvisionStatus
  pub citation_label : String
  pub index_scope : IndexScope
  pub part : Option String
  pub book : Option String
  pub title : Option String
  pub chapter : Option String

abbrev pub agreement_max_rank : ℕ
agreement_max_rank = 10

abbrev pub alias_support_cap : ℕ
alias_support_cap = 3

abbrev pub corroboration_rank : ℕ
corroboration_rank = 3

abbrev pub max_complementary_grounds : ℕ
max_complementary_grounds = 3
