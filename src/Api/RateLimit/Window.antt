-- ===== src/Api/RateLimit/Window.antt =====
-- The sliding window itself: what a deque holds and when a request is let through.
use mathlib.Core.List.{append-nil}
use give_exit.Prelude.{
  sym, ℕ, ◌+◌, ◌≤◌, ◌<◌, ◌≡◌, refl, String, Bool, true, false, List, [], ◌∷◌, ◌++◌, ltb, length,
  All, All-append, filter, length-filter_le, arith, if◌then◌else◌, Bool-cases, inl, inr,
  length-append,
}
use give_exit.Prelude.Dict.{has, insert, lookup-insert_self}
use give_exit.Api.RateLimit.{Limiter, pop_expired, events_of, allow}

-- Oldest first.
abbrev pub IsAscending : List ℕ → Type 0
IsAscending [] = Unit
IsAscending (e ∷ es) = All (λ f. e ≤ f) es × IsAscending es

-- The event still counts at `now`.
abbrev pub counts_at : ℕ → ℕ → ℕ → Bool
counts_at window now e = ltb now (e + window)

none_expired :
    (window now e : ℕ) (es : List ℕ)
    → now < e + window
    → All (λ f. e ≤ f) es
    → filter (counts_at window now) es ≡ es
none_expired window now e [] h a = refl
none_expired window now e (f ∷ es) h a = ground (arith, a.0, none_expired window now e es h a.1)

-- On a deque in order, popping from the front is filtering.
pub pop_expired-eq-filter :
    (window now : ℕ) (es : List ℕ)
    → IsAscending es
    → pop_expired window now es ≡ filter (counts_at window now) es
unfolding pop_expired
pop_expired-eq-filter window now [] a = refl
pop_expired-eq-filter window now (e ∷ es) a =
    ground (arith, pop_expired-eq-filter window now es a.1, none_expired window now e es)

pub length-pop_expired_le :
    (window now : ℕ) (es : List ℕ) → length (pop_expired window now es) ≤ length es
unfolding pop_expired
length-pop_expired_le window now [] = omega arith
length-pop_expired_le window now (e ∷ es) = ground (arith, length-pop_expired_le window now es)

All-filter : (P : ℕ → Type 0) (p : ℕ → Bool) (es : List ℕ) → All P es → All P (filter p es)
All-filter P p [] h = tt
All-filter P p (e ∷ es) h = elim (Bool-cases (p e)) [
  | inl t ↦ rw t (h.0, All-filter P p es h.1)
  | inr t ↦ rw t (All-filter P p es h.1)
]

IsAscending-filter : (p : ℕ → Bool) (es : List ℕ) → IsAscending es → IsAscending (filter p es)
IsAscending-filter p [] a = tt
IsAscending-filter p (e ∷ es) a = elim (Bool-cases (p e)) [
  | inl t ↦ rw t (All-filter (λ f. e ≤ f) p es a.0, IsAscending-filter p es a.1)
  | inr t ↦ rw t (IsAscending-filter p es a.1)
]

IsAscending-snoc :
    (now : ℕ) (es : List ℕ) → IsAscending es → All (λ e. e ≤ now) es → IsAscending (es ++ now ∷ [])
IsAscending-snoc now [] a b = (tt, tt)
IsAscending-snoc now (e ∷ es) a b =
    (All-append (λ f. e ≤ f) es (now ∷ []) a.0 (b.0, tt), IsAscending-snoc now es a.1 b.1)

events_of-insert :
    (key : String) (es : List ℕ) (l : Limiter) → events_of key (insert key es l.events) ≡ es
unfolding events_of
events_of-insert key es l = ground (arith, lookup-insert_self key es l.events)

-- What `allow` does once it has the events `es` that still count.
abbrev settle : String → ℕ → List ℕ → Limiter → Limiter × Bool
settle key now es l =
    if ltb (length es) l.limit
    then (record l { events = insert key (es ++ now ∷ []) l.events }, true)
    else (record l { events = insert key es l.events }, false)

allow-settle :
    (key : String) (now : ℕ) (l : Limiter)
    → 1 ≤ l.limit
    → has key l.events ≡ true
    → IsAscending (events_of key l.events)
    → allow key now l ≡ settle key now (filter (counts_at l.window now) (events_of key l.events)) l
unfolding allow
allow-settle key now l pos tracked a =
    ground (arith, pop_expired-eq-filter l.window now (events_of key l.events) a)

settle_lem :
    (key : String) (now : ℕ) (es : List ℕ) (l : Limiter)
    → IsAscending es
    → All (λ e. e ≤ now) es
    → length es ≤ l.limit
    → ((settle key now es l).1 ≡ ltb (length es) l.limit)
      × (events_of key (settle key now es l).0.events
          ≡ es ++ (if (settle key now es l).1 then now ∷ [] else []))
      × IsAscending (events_of key (settle key now es l).0.events)
      × (length (events_of key (settle key now es l).0.events) ≤ l.limit)
settle_lem key now es l a b c = elim (Bool-cases (ltb (length es) l.limit)) [
  | inl room ↦
      rw (room, events_of-insert key (es ++ now ∷ []) l)
        (refl, refl, IsAscending-snoc now es a b, ground (arith, length-append es (now ∷ []), room))
  | inr full ↦ rw (full, events_of-insert key es l) (refl, sym (append-nil es), a, c)
]

-- For a key that the limiter tracks, with its events in order and none later than `now`, a limit
-- of at least one lets a request through exactly when fewer than `limit` of the recorded ones lie
-- within the window. Afterwards the deque holds those, and `now` behind them if the request
-- was let through; it is again in order and within the limit.
pub allow_lem :
    (key : String) (now : ℕ) (l : Limiter)
    → 1 ≤ l.limit
    → has key l.events ≡ true
    → IsAscending (events_of key l.events)
    → All (λ e. e ≤ now) (events_of key l.events)
    → length (events_of key l.events) ≤ l.limit
    → ((allow key now l).1
        ≡ ltb (length (filter (counts_at l.window now) (events_of key l.events))) l.limit)
      × (events_of key (allow key now l).0.events
          ≡ filter (counts_at l.window now) (events_of key l.events)
            ++ (if (allow key now l).1 then now ∷ [] else []))
      × IsAscending (events_of key (allow key now l).0.events)
      × (length (events_of key (allow key now l).0.events) ≤ l.limit)
allow_lem key now l pos tracked a b c = rw (allow-settle key now l pos tracked a) (
    settle_lem key now (filter (counts_at l.window now) (events_of key l.events)) l
      (IsAscending-filter _ _ a) (All-filter _ _ _ b)
      (omega (arith, length-filter_le (counts_at l.window now) (events_of key l.events))))
