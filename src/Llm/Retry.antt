-- ===== src/Llm/Retry.antt =====
-- `RetryingLLMClient._call` and `is_transient_llm_error` of app/llm/retry.py. The provider's
-- answers are a function of the attempt's number; a delay is counted in units of a tick over twice
-- `random_scale`, where `random` over `random_scale` is what the generator draws.
use mathlib.Core.Path.{subst}
use native.Mathlib.Nat.{mul-le-mul_left}
use native.Mathlib.Decide.{ℕ_discrete}
use give_exit.Prelude.{
  ℕ, zero, suc, ◌+◌, ◌-◌, ◌*◌, ◌^◌, ◌≤◌, ◌<◌, ◌≡◌, refl, String, Bool, true, false, not, ◌||◌,
  Option, none, some, List, [], ◌∷◌, any, leb, ◌==◌, length, min, if◌then◌else◌, arith, Bool-cases,
  inl, inr, str_eq,
}

-- What the provider's exception shows: its integer `status_code` and `code` attributes, where it
-- has them, and the name of its type.
pub record LlmError : Type 0 where
  pub status_code : Option ℕ
  pub code : Option ℕ
  pub type_name : String

abbrev transient_error_names : List String
transient_error_names =
    "APIConnectionError" ∷ "APITimeoutError" ∷ "ConnectError" ∷ "ConnectTimeout" ∷ "ConnectionError"
    ∷ "InternalServerError" ∷ "OverloadedError" ∷ "PoolTimeout" ∷ "RateLimitError" ∷ "ReadTimeout"
    ∷ "ServerError" ∷ "ServiceUnavailableError" ∷ "TimeoutError" ∷ "TimeoutException"
    ∷ "WriteTimeout" ∷ []

abbrev transient_status_codes : List ℕ
transient_status_codes = 408 ∷ 429 ∷ 500 ∷ 502 ∷ 503 ∷ 504 ∷ 529 ∷ []

unfoldable pub is_transient_llm_error : LlmError → Bool
is_transient_llm_error e = elim e.status_code [
  | some n ↦ any (λ m. n == m) transient_status_codes
  | none ↦ elim e.code [
    | some n ↦ any (λ m. n == m) transient_status_codes
    | none ↦ any (λ t. str_eq t e.type_name) transient_error_names
  ]
]

pub data Reply {ℓ} (A : Type ℓ) : Type ℓ where
  returned : A → Reply A
  raised : LlmError → Reply A

pub record Client : Type 0 where
  pub max_attempts : ℕ
  pub base_delay : ℕ
  pub max_delay : ℕ
  -- self._rng.random() after each attempt, random attempt / random_scale
  pub random : ℕ → ℕ
  pub random_scale : ℕ

-- The delay after a failed `attempt`, with the jitter factor 0.5 + random / 2.
unfoldable pub delay_after : Client → ℕ → ℕ
delay_after c attempt =
    min c.max_delay (c.base_delay * 2 ^ (attempt - 1)) * (c.random_scale + c.random attempt)

-- What a call did: the delays that it slept, in order, and the attempt whose outcome it had;
-- `none` is the `AssertionError` behind the loop.
pub record Called : Type 0 where
  pub slept : List ℕ
  pub last : Option ℕ

module _ {ℓ} {A : Type ℓ} (c : Client) (operation : ℕ → Reply A) where
  -- Does this attempt's outcome end the call?
  unfoldable pub ends : ℕ → Bool
  ends attempt = elim (operation attempt) [
    | returned a ↦ true
    | raised e ↦ leb c.max_attempts attempt || not (is_transient_llm_error e)
  ]

  -- The rounds of `for attempt in range(1, max_attempts + 1)` that are left.
  unfoldable pub attempts : ℕ → ℕ → Called
  attempts zero attempt = record { slept = []; last = none }
  attempts (suc left) attempt =
      let rest = attempts left (attempt + 1) in
      if ends attempt
      then record { slept = []; last = some attempt }
      else record rest { slept = delay_after c attempt ∷ rest.slept }

  unfoldable pub call : Called
  call = attempts c.max_attempts 1

  -- The attempt raised an error that another attempt may cure, and one was left.
  abbrev pub IsRetried : ℕ → Type ℓ
  IsRetried k =
      (e : LlmError) × (operation k ≡ raised e)
      × (is_transient_llm_error e ≡ true)
      × (k < c.max_attempts)

  ends-IsRetried : (k : ℕ) → ends k ≡ false → IsRetried k
  unfolding ends
  ends-IsRetried k h = go (operation k) refl
    where
      go : (r : Reply A) → operation k ≡ r → IsRetried k
      go (returned a) e = ground (arith, e)
      go (raised x) e = (x, e, ground (arith, e), ground (arith, e))

  last-ends : (k : ℕ) → c.max_attempts ≤ k → ends k ≡ true
  unfolding ends
  last-ends k h = ground arith

  -- Where the loop stops: at the first attempt, from `k` on, that ends the call.
  record Stops (k left : ℕ) (out : Called) : Type ℓ where
    stop : ℕ
    from : k ≤ stop
    within : stop < k + left
    at_stop : out.last ≡ some stop
    ended : ends stop ≡ true
    slept_count : length out.slept + k ≡ stop
    before : (i : ℕ) → k ≤ i → i < stop → IsRetried i

  -- One attempt that failed in front of the loop's stop.
  Stops-retry :
      (k left : ℕ) (out : Called)
      → ends k ≡ false
      → Stops (k + 1) left out
      → Stops k (suc left) (record out { slept = delay_after c k ∷ out.slept })
  Stops-retry k left out more s = record {
    stop = s.stop;
    from = omega (arith, s.from);
    within = omega (arith, s.within);
    at_stop = s.at_stop;
    ended = s.ended;
    slept_count = omega (arith, s.slept_count);
    before = λ i h h'. elim (ℕ_discrete k i) [
      | yes e ↦ subst IsRetried e (ends-IsRetried k more)
      | no ne ↦ s.before i (grind arith) h'
    ];
  }

  Stops-now :
      (k left : ℕ) → ends k ≡ true → Stops k (suc left) (record { slept = []; last = some k })
  Stops-now k left done = record {
    stop = k;
    from = omega arith;
    within = omega arith;
    at_stop = refl;
    ended = done;
    slept_count = omega arith;
    before = λ i h h'. absurd (omega arith);
  }

  attempts-Stops :
      (left k : ℕ) → 1 ≤ left → k + left ≡ c.max_attempts + 1 → Stops k left (attempts left k)
  unfolding attempts
  attempts-Stops zero k pos total = elim pos [ ]
  attempts-Stops (suc zero) k pos total =
      let done : ends k ≡ true = last-ends k (omega arith) in rw done (Stops-now k zero done)
  attempts-Stops (suc (suc left)) k pos total = elim (Bool-cases (ends k)) [
    | inl done ↦ rw done (Stops-now k (suc left) done)
    | inr more ↦ rw more (
        Stops-retry k (suc left) (attempts (suc left) (k + 1)) more
          (attempts-Stops (suc left) (k + 1) (omega arith) (omega arith)))
  ]

  -- The delays after the attempts from `k` on: each between half of the doubled base delay, cut
  -- at the maximum, and the whole of it.
  abbrev pub IsBackoff : ℕ → List ℕ → Type 0
  IsBackoff k [] = Unit
  IsBackoff k (d ∷ ds) =
      (min c.max_delay (c.base_delay * 2 ^ (k - 1)) * c.random_scale ≤ d)
      × (d ≤ min c.max_delay (c.base_delay * 2 ^ (k - 1)) * (2 * c.random_scale))
      × IsBackoff (k + 1) ds

  attempts-IsBackoff :
      (left k : ℕ) → ((i : ℕ) → c.random i < c.random_scale) → IsBackoff k (attempts left k).slept
  unfolding attempts delay_after
  attempts-IsBackoff zero k h = tt
  attempts-IsBackoff (suc left) k h = elim (Bool-cases (ends k)) [
    | inl done ↦ rw done tt
    | inr more ↦
        let capped = min c.max_delay (c.base_delay * 2 ^ (k - 1)) in
        let draw = h k in
        rw more (
          mul-le-mul_left capped (omega (arith, draw)),
          mul-le-mul_left capped (omega (arith, draw)),
          attempts-IsBackoff left (k + 1) h,
        )
  ]

-- A retried call with at least one attempt always ends at an attempt, never behind its loop. The
-- attempt is one of the first `max_attempts`; it returned, or its error is not transient, or it
-- was the last. Every attempt before it raised a transient error and one delay was slept for each
-- of those, in order: with the jitter, between half and the whole of the base delay doubled once
-- for every further attempt and cut at the maximum, if the generator draws from [0, 1).
pub retry_call_lem :
    {A : Type 0} (c : Client) (operation : ℕ → Reply A)
    → 1 ≤ c.max_attempts
    → ((i : ℕ) → c.random i < c.random_scale)
    → (n : ℕ) × ((call c operation).last ≡ some n)
      × (1 ≤ n)
      × (n ≤ c.max_attempts)
      × (ends c operation n ≡ true)
      × ((i : ℕ) → 1 ≤ i → i < n → IsRetried c operation i)
      × (length (call c operation).slept + 1 ≡ n)
      × IsBackoff c operation 1 (call c operation).slept
unfolding call
retry_call_lem c operation pos draws =
    let s = attempts-Stops c operation c.max_attempts 1 pos (omega arith) in
    (
      s.stop,
      s.at_stop,
      s.from,
      omega (arith, s.within),
      s.ended,
      s.before,
      s.slept_count,
      attempts-IsBackoff c operation c.max_attempts 1 draws,
    )
