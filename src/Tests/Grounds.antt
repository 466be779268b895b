-- ===== src/Tests/Grounds.antt =====
-- A run of the ground selection, app/consumer/ground_selection.py.
use give_exit.Prelude.{ℕ, ◌≤◌, ◌/◌, true, false, String, none, some, [], ◌∷◌, length}
use give_exit.Prelude.Score.{nat_score}
use give_exit.Policy.{consumer_defense_code}
use give_exit.Grounds.{LegalCorpus, ConsumerCaseFacts}
use give_exit.Grounds.Select.{select_legal_grounds}
use give_exit.Grounds.Laws.{select_legal_grounds_lem}
use give_exit.Tests.Policy.{provision}
use give_exit.Tests.Rag.{hit}

abbrev corpus : LegalCorpus Unit ℕ String
corpus = record {
  provision_for_chunk = λ c. provision consumer_defense_code;
  unit_for_chunk = λ c. none;
  authority_for_chunk = λ r rank. r.chunk.chunk_id;
}

abbrev facts : ConsumerCaseFacts
facts = record {
  complaint_summary = some "cobranca";
  desired_resolution = none;
  article_42_double_repayment_requested = false;
  improper_payment_amount = none;
}

select_legal_grounds_example :
    length (
      select_legal_grounds ⦃s = nat_score⦄ corpus
        (λ label keyword. "i")
        (λ n. n / 2)
        (λ t. true)
        (λ t. t)
        (λ t. false)
        (λ t. false)
        (λ ts. "a" ∷ [])
        facts
        ((hit "a" 9 ∷ hit "b" 8 ∷ []) ∷ [])
        [])
    ≤ 8
select_legal_grounds_example =
    (select_legal_grounds_lem ⦃s = nat_score⦄ corpus (λ label keyword. "i") (λ n. n / 2) (λ t. true)
      (λ t. t) (λ t. false) (λ t. false) (λ ts. "a" ∷ []) facts ((hit "a" 9 ∷ hit "b" 8 ∷ []) ∷ [])
      []).1
