-- ===== src/Rag/Guard/Slots.antt =====
-- The slots and the circuit breaker of `QueryEmbeddingGuard`, over every interleaving of requests.
use give_exit.Prelude.{
  ℕ, ◌+◌, ◌≤◌, ◌<◌, ◌≡◌, refl, sym, ap, ◌∙◌, inl, inr, Bool-cases, Bool, Option, none, some, List,
  [], ◌∷◌, ◌++◌, length, ltb, ◌==◌, arith,
}
use give_exit.Rag.Guard.{
  Settings, Guard, Outcome, embedded, unavailable, circuit_open, initial_guard, record_failure,
  release, acquire, finish, fail, time_out, cancel, completed, validated,
  validate_embedding_vectors,
}

abbrev pub slots : Guard × ℕ → ℕ
slots (g, n) = g.free_slots + n + g.background_tasks

-- The slots that an answer of `acquire` leaves, one counted as held.
abbrev slots_after : Guard → Outcome Guard → ℕ
slots_after g (embedded h) = slots (h, 1)
slots_after g (unavailable e) = slots (g, 0)

acquire-slots : (now : ℕ) (g : Guard) → slots_after g (acquire now g) ≡ slots (g, 0)
unfolding acquire
acquire-slots now g = elim (Bool-cases (ltb now g.circuit_open_until)) [
  | inl o ↦ rw o refl
  | inr o ↦ elim (Bool-cases (g.free_slots == 0)) [
    | inl z ↦ rw o (rw z refl)
    | inr z ↦ rw o (rw z (ground (arith, z)))
  ]
]

module _ {Component : Type 0} (is_unit_vector : List Component → Bool) (c : Settings) where
  -- The guard beside the number of requests between `acquire` and their ending.
  pub data Step : Guard × ℕ → Guard × ℕ → Type 0 where
    acquired : (g h : Guard) (n now : ℕ) → acquire now g ≡ embedded h → Step (g, n) (h, n + 1)
    finished :
        (g : Guard) (n now count : ℕ) (vs : List (List Component))
        → Step (g, n + 1) ((finish is_unit_vector c now count vs g).1, n)
    raised : (g : Guard) (n now : ℕ) → Step (g, n + 1) (fail c now g, n)
    timed_out : (g : Guard) (n now : ℕ) → Step (g, n + 1) (time_out c now g, n)
    cancelled : (g : Guard) (n : ℕ) → Step (g, n + 1) (cancel g, n)
    background_done : (g : Guard) (n : ℕ) → 1 ≤ g.background_tasks → Step (g, n) (completed g, n)

  pub data Reach : Guard × ℕ → Type 0 where
    start : Reach (initial_guard c, 0)
    next : {s t : Guard × ℕ} → Reach s → Step s t → Reach t

  validated-slots :
      (now : ℕ) (vs : List (List Component)) (g : Guard) (n : ℕ) (d : Option ℕ)
      → slots ((validated is_unit_vector c now vs g d).1, n) ≡ slots (g, n + 1)
  unfolding record_failure release
  validated-slots now vs g n none = omega arith
  validated-slots now vs g n (some d) = omega arith

  Step-slots : {s t : Guard × ℕ} → Step s t → slots t ≡ slots s
  unfolding acquire finish fail time_out cancel completed
  Step-slots (acquired g h n now e) =
      let taken : slots (h, 1) ≡ slots (g, 0) = ap (slots_after g) (sym e) ∙ acquire-slots now g in
      omega (arith, taken)
  Step-slots (finished g n now count vs) =
      validated-slots now vs g n
        (validate_embedding_vectors is_unit_vector vs count g.expected_dimension)
  Step-slots (raised g n now) = omega arith
  Step-slots (timed_out g n now) = omega arith
  Step-slots (cancelled g n) = omega arith
  Step-slots (background_done g n h) = omega (arith, h)

  -- At every moment the free slots, the requests that hold one and the background embeddings
  -- that hold one make up `max_concurrency`.
  pub slots_conserved : (s : Guard × ℕ) → Reach s → slots s ≡ c.max_concurrency
  slots_conserved s start = omega arith
  slots_conserved s (next r st) = omega (arith, Step-slots st, slots_conserved _ r)

module _ (c : Settings) where
  -- The circuit as one failed request after another leaves it, at the times listed.
  abbrev pub failures : List ℕ → Guard → Guard
  failures [] g = g
  failures (now ∷ nows) g = failures nows (fail c now g)

  failures-count :
      (nows : List ℕ) (g : Guard)
      → (failures nows g).consecutive_failures ≡ g.consecutive_failures + length nows
  unfolding fail
  failures-count [] g = omega arith
  failures-count (now ∷ nows) g = omega (arith, failures-count nows (fail c now g))

  failures-append :
      (nows : List ℕ) (now : ℕ) (g : Guard)
      → failures (nows ++ now ∷ []) g ≡ fail c now (failures nows g)
  failures-append [] now g = refl
  failures-append (m ∷ nows) now g = failures-append nows now (fail c m g)

  -- After failures in a row, as many as the threshold, of which the last came at `now`, every
  -- request before the reset time has passed is refused and takes no slot.
  pub circuit_opens :
      (nows : List ℕ) (now later : ℕ) (g : Guard)
      → later < now + c.reset_seconds
      → c.failure_threshold ≤ g.consecutive_failures + length nows + 1
      → acquire later (failures (nows ++ now ∷ []) g) ≡ unavailable circuit_open
  unfolding acquire fail
  circuit_opens nows now later g h k =
      rw (failures-append nows now g) (ground (arith, failures-count nows g))
