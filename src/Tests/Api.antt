-- ===== src/Tests/Api.antt =====
-- Runs of the HTTP edge, app/api, of the retry loop, app/llm/retry.py, and of the settlement.
use give_exit.Prelude.{
  ℕ, zero, suc, ◌+◌, ◌%◌, ◌≡◌, ◌≤◌, ◌<◌, refl, true, String, none, some, [], ◌∷◌, ◌++◌, length,
  arith,
}
use give_exit.Prelude.Dict.{lookup, without, has}
use give_exit.Api.RateLimit.{
  Limiter, allow, evict_expired, events_of, trim_all, delete_keys, stale_keys, is_empty,
  pop_expired,
}
use give_exit.Api.RateLimit.Window.{allow_lem}
use give_exit.Api.RateLimit.Quota.{IsValid, allow-IsValid}
use give_exit.Api.RateLimit.Throttled.{throttled_survive}
use give_exit.Api.Body.{
  request, response_start, response_body, App, done, send, receive, call, guarded_call_lem,
}
use give_exit.Api.Client.{
  client_identifier, forwarded_hops, split_commas, strip, client_identifier_unforgeable,
}
use give_exit.Api.Upload.{write_upload_in_chunks, expected, write_upload_in_chunks_lem}
use give_exit.Llm.Retry.{
  Reply, returned, raised, Client, retry_call_lem, IsRetried, IsBackoff, ends, call as call_again,
}
use give_exit.Settlement.{money, SettlementInputs, CalculationPayload, calculate}
use give_exit.Settlement.Proposal.{calculate_lem, amount_or_zero}

abbrev limiter : Limiter
limiter = record {
  limit = 2;
  window = 60;
  max_tracked_keys = 2;
  events = ("a", 10 ∷ 50 ∷ []) ∷ ("b", 55 ∷ []) ∷ [];
}

program : Unit {0}
unfolding has lookup trim_all delete_keys stale_keys is_empty pop_expired without forwarded_hops
    split_commas strip
program = tt

limiter-IsValid : IsValid limiter
limiter-IsValid = record {
  positive = omega arith;
  tracked = omega arith;
  within = (omega arith, (omega arith, tt));
}

-- At tick 80 the event of tick 10 no longer counts.
allow_example : (allow "a" 80 limiter).1 ≡ true
unfolding has events_of lookup
allow_example =
    (allow_lem "a" 80 limiter (omega arith) refl ((omega arith, tt), (tt, tt))
      (omega arith, (omega arith, tt)) (omega arith)).0

throttled_survive_example : lookup "a" (evict_expired 60 limiter).events ≡ some (10 ∷ 50 ∷ [])
unfolding program
throttled_survive_example =
    throttled_survive 60 limiter "a" (10 ∷ 50 ∷ []) refl (refl, (refl, tt)) refl (omega arith)
      (λ t. omega (arith, t.1.0))

allow-IsValid_example : IsValid (allow "c" 60 limiter).0
allow-IsValid_example = allow-IsValid "c" 60 limiter limiter-IsValid

-- An application that reads two messages and answers.
abbrev echo : App
echo = receive (λ m. receive (λ n. send (response_start 200) (send (response_body 2) done)))

guarded_call_example :
    (call 10 echo
      (record { is_http = true; declared = none })
      (request 6 ∷ request 6 ∷ [])).delivered
    ≤ 10
guarded_call_example =
    (guarded_call_lem 10 echo (record { is_http = true; declared = none })
      (request 6 ∷ request 6 ∷ []) refl).0

-- "9", behind a forged "1"; 44 is the comma.
client_identifier_unforgeable_example :
    client_identifier none ((49 ∷ []) ++ b',' ∷ 57 ∷ []) 1 ≡ 57 ∷ []
unfolding program
client_identifier_unforgeable_example =
    client_identifier_unforgeable none (49 ∷ []) (57 ∷ []) (57 ∷ []) [] refl

write_upload_in_chunks_example :
    write_upload_in_chunks 4 ((1 ∷ 2 ∷ []) ∷ (3 ∷ []) ∷ []) ≡ expected 4 (1 ∷ 2 ∷ 3 ∷ [])
write_upload_in_chunks_example = write_upload_in_chunks_lem 4 ((1 ∷ 2 ∷ []) ∷ (3 ∷ []) ∷ [])

abbrev patient : Client
patient = record {
  max_attempts = 3;
  base_delay = 1;
  max_delay = 4;
  random = λ i. i % 4;
  random_scale = 4;
}

abbrev flaky : ℕ → Reply ℕ
flaky zero = returned 0
flaky (suc zero) =
    raised (record { status_code = some 429; code = none; type_name = "RateLimitError" })
flaky (suc (suc n)) = returned n

retry_call_example :
    (n : ℕ) × ((call_again patient flaky).last ≡ some n)
    × (1 ≤ n)
    × (n ≤ 3)
    × (ends patient flaky n ≡ true)
    × ((i : ℕ) → 1 ≤ i → i < n → IsRetried patient flaky i)
    × (length (call_again patient flaky).slept + 1 ≡ n)
    × IsBackoff patient flaky 1 (call_again patient flaky).slept
retry_call_example = retry_call_lem patient flaky (omega arith) (λ i. omega arith)

abbrev claim : SettlementInputs Unit
claim = record {
  direct_loss_amount = record { coefficient = 1005; places = 1 };
  improper_payment_amount = record { coefficient = 50; places = 0 };
  downside_cost_amount = record { coefficient = 0; places = 0 };
  article_42_double_repayment_supported = true;
  direct_loss_sources = [];
  improper_payment_sources = [];
  downside_cost_sources = [];
}

abbrev no_hash : CalculationPayload Unit → String
no_hash x = ""

calculate_example :
    10050 ≤ amount_or_zero Unit (calculate Unit no_hash claim).public_proposal_amount
unfolding money
calculate_example = (calculate_lem Unit no_hash claim (omega arith)).2
