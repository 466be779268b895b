-- ===== src/Api/RateLimit.antt =====
-- `SlidingWindowRateLimiter` of app/api/security.py. The clock is an argument in whole ticks; an
-- event list is the deque of one key, oldest first.
pub mod Window
pub mod Quota
pub mod Throttled
use give_exit.Prelude.{
  ℕ, ◌+◌, ◌-◌, String, Bool, true, false, ◌&&◌, List, [], ◌∷◌, ◌++◌, map, ltb, leb, ◌==◌, length,
  take, if◌then◌else◌, Option, none, some,
}
use give_exit.Prelude.Dict.{Dict, lookup, has, insert, without}
use give_exit.Prelude.Sorting.{sort}

pub record Limiter : Type 0 where
  pub limit : ℕ
  pub window : ℕ
  pub max_tracked_keys : ℕ
  pub events : Dict (List ℕ)

-- while events and now - events[0] >= self._window: events.popleft()
unfoldable pub pop_expired : ℕ → ℕ → List ℕ → List ℕ
pop_expired window now [] = []
pop_expired window now (e ∷ es) =
    let rest = pop_expired window now es in if leb (e + window) now then rest else e ∷ es

-- The first loop of `_evict_expired`: every deque is trimmed, and the keys of empty ones noted.
unfoldable pub trim_all : ℕ → ℕ → Dict (List ℕ) → Dict (List ℕ)
unfolding pop_expired
trim_all window now [] = []
trim_all window now ((k, es) ∷ d) = (k, pop_expired window now es) ∷ trim_all window now d

unfoldable pub is_empty : List ℕ → Bool
is_empty [] = true
is_empty (e ∷ es) = false

unfoldable pub stale_keys : Dict (List ℕ) → List String
unfolding is_empty
stale_keys [] = []
stale_keys ((k, es) ∷ d) = let rest = stale_keys d in if is_empty es then k ∷ rest else rest

-- for key in ...: del self._events[key]
unfoldable pub delete_keys : List String → Dict (List ℕ) → Dict (List ℕ)
unfolding without
delete_keys [] d = d
delete_keys (k ∷ ks) d = delete_keys ks (without k d)

-- events[-1]
unfoldable pub last_event : List ℕ → ℕ
last_event [] = 0
last_event (e ∷ []) = e
last_event (e ∷ f ∷ es) = last_event (f ∷ es)

-- The order of the sort key (len(events) >= limit, events[-1]): False before True, then by time.
unfoldable pub eviction_leb : ℕ → String × List ℕ → String × List ℕ → Bool
unfolding last_event
eviction_leb limit (k, es) (j, fs) =
    if leb limit (length es)
    then (if leb limit (length fs) then leb (last_event es) (last_event fs) else false)
    else if leb limit (length fs)
    then true
    else leb (last_event es) (last_event fs)

unfoldable pub evict_expired : ℕ → Limiter → Limiter
evict_expired now l =
    let trimmed = trim_all l.window now l.events in
    let live = delete_keys (stale_keys trimmed) trimmed in
    let ordered = sort (eviction_leb l.limit) live in
    let victims = map (λ kv. kv.0) (take (length live - l.max_tracked_keys + 1) ordered) in
    if ltb (length l.events) l.max_tracked_keys
    then l
    else if ltb (length live) l.max_tracked_keys
    then record l { events = live }
    else record l { events = delete_keys victims live }

-- `self._events[key]` of a defaultdict: a missing key has an empty deque.
unfoldable pub events_of : String → Dict (List ℕ) → List ℕ
unfolding lookup
events_of key d = elim (lookup key d) [ none ↦ [] | some es ↦ es ]

unfoldable pub allow : String → ℕ → Limiter → Limiter × Bool
allow key now l =
    let l' = if has key l.events then l else evict_expired now l in
    let kept = pop_expired l'.window now (events_of key l'.events) in
    if ltb l.limit 1
    then (l, true)
    else if leb l'.limit (length kept)
    then (record l' { events = insert key kept l'.events }, false)
    else (record l' { events = insert key (kept ++ now ∷ []) l'.events }, true)
