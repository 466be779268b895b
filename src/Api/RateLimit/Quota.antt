-- ===== src/Api/RateLimit/Quota.antt =====
-- The cap on tracked clients: `_evict_expired` keeps the map bounded (app/api/security.py).
use give_exit.Prelude.{
  ℕ, suc, ◌+◌, ◌-◌, ◌≤◌, ◌<◌, ◌≡◌, ◌⊎◌, refl, ap, String, Bool, true, false, List, [], ◌∷◌, ◌++◌,
  map, ltb, leb, length, All, take, arith, if◌then◌else◌, Bool-cases, inl, inr, length-append,
}
use give_exit.Prelude.Dict.{Dict, lookup, has, insert, without, length-insert, length-without_le}
use give_exit.Prelude.DictLaws.{All-insert, All-without, All-has, length-without-has}
use give_exit.Prelude.Sorting.{sort, All-sort, length-sort}
use give_exit.Api.RateLimit.{
  Limiter, pop_expired, trim_all, stale_keys, delete_keys, eviction_leb, evict_expired, events_of,
  allow,
}
use give_exit.Api.RateLimit.Window.{length-pop_expired_le}

pub record IsValid (l : Limiter) : Type 0 where
  pub positive : 1 ≤ l.max_tracked_keys
  pub tracked : length l.events ≤ l.max_tracked_keys
  pub within : All (λ kv. length kv.1 ≤ l.limit) l.events

pub eviction_leb_total :
    (limit : ℕ) (a b : String × List ℕ)
    → (eviction_leb limit a b ≡ true) ⊎ (eviction_leb limit b a ≡ true)
unfolding eviction_leb
eviction_leb_total limit (k, es) (j, fs) = ground arith

pub eviction_leb_trans :
    (limit : ℕ) (a b c : String × List ℕ)
    → eviction_leb limit a b ≡ true
    → eviction_leb limit b c ≡ true
    → eviction_leb limit a c ≡ true
unfolding eviction_leb
eviction_leb_trans limit (k, es) (j, fs) (i, gs) h h' = ground arith

length-trim_all : (w now : ℕ) (d : Dict (List ℕ)) → length (trim_all w now d) ≡ length d
unfolding trim_all
length-trim_all w now [] = refl
length-trim_all w now ((k, es) ∷ d) = omega (arith, length-trim_all w now d)

trim_all-within :
    (w now n : ℕ) (d : Dict (List ℕ))
    → All (λ kv. length kv.1 ≤ n) d
    → All (λ kv. length kv.1 ≤ n) (trim_all w now d)
unfolding trim_all
trim_all-within w now n [] h = tt
trim_all-within w now n ((k, es) ∷ d) h =
    (omega (arith, length-pop_expired_le w now es, h.0), trim_all-within w now n d h.1)

length-delete_keys_le :
    (ks : List String) (d : Dict (List ℕ)) → length (delete_keys ks d) ≤ length d
unfolding delete_keys
length-delete_keys_le [] d = omega arith
length-delete_keys_le (k ∷ ks) d =
    omega (arith, length-delete_keys_le ks (without k d), length-without_le k d)

delete_keys-within :
    (n : ℕ) (ks : List String) (d : Dict (List ℕ))
    → All (λ kv. length kv.1 ≤ n) d
    → All (λ kv. length kv.1 ≤ n) (delete_keys ks d)
unfolding delete_keys
delete_keys-within n [] d h = h
delete_keys-within n (k ∷ ks) d h = delete_keys-within n ks (without k d) (All-without _ k d h)

-- Dropping the head of a full map's order leaves room for one key.
drop_head :
    (le : String × List ℕ → String × List ℕ → Bool) (d : Dict (List ℕ))
    → 1 ≤ length d
    → suc (length (delete_keys (map (λ kv. kv.0) (take 1 (sort le d))) d)) ≤ length d
unfolding delete_keys
drop_head le d pos = go (sort le d) refl
  where
    go :
        (o : Dict (List ℕ))
        → sort le d ≡ o
        → suc (length (delete_keys (map (λ kv. kv.0) (take 1 o)) d)) ≤ length d
    go [] e = absurd (omega (arith, length-sort le d, ap (length {A = String × List ℕ}) e))
    go ((k, es) ∷ o) e =
        let present : All (λ kv. has kv.0 d ≡ true) (sort le d) = All-sort le _ d (All-has d) in
        length-without-has k d (rw e at present).0

module _ (now : ℕ) (l : Limiter) where
  -- The buckets left once every deque is trimmed and the empty ones are gone.
  abbrev pub live : Dict (List ℕ)
  live = let trimmed = trim_all l.window now l.events in delete_keys (stale_keys trimmed) trimmed

  pub length-live_le : length live ≤ length l.events
  length-live_le = omega (
    arith,
    length-delete_keys_le (stale_keys (trim_all l.window now l.events))
        (trim_all l.window now l.events),
    length-trim_all l.window now l.events,
  )

  live-within : All (λ kv. length kv.1 ≤ l.limit) l.events → All (λ kv. length kv.1 ≤ l.limit) live
  live-within h = delete_keys-within l.limit _ _ (trim_all-within l.window now l.limit l.events h)

  -- With the map at its cap, `_evict_expired` drops the idle buckets, and one more if none was idle.
  pub evict_expired-full :
      length l.events ≡ l.max_tracked_keys
      → (evict_expired now l).events ≡ (
          if ltb (length live) l.max_tracked_keys
          then live
          else delete_keys (map (λ kv. kv.0) (take 1 (sort (eviction_leb l.limit) live))) live)
  unfolding evict_expired
  evict_expired-full full = elim (Bool-cases (ltb (length live) l.max_tracked_keys)) [
    | inl room ↦ ground (arith, full, room)
    | inr none_idle ↦
        let one : length live - l.max_tracked_keys + 1 ≡ 1 =
          ground (arith, none_idle, full, length-live_le) in
        let at_cap : ltb (length l.events) l.max_tracked_keys ≡ false = ground (arith, full) in
        rw (at_cap, none_idle, one)
  ]

  evict_expired-room : ltb (length l.events) l.max_tracked_keys ≡ true → evict_expired now l ≡ l
  unfolding evict_expired
  evict_expired-room room = rw room

  after_full :
      IsValid l
      → length l.events ≡ l.max_tracked_keys
      → (length (evict_expired now l).events < l.max_tracked_keys)
        × All (λ kv. length kv.1 ≤ l.limit) (evict_expired now l).events
  after_full v full = rw (evict_expired-full full) (
      elim (ltb (length live) l.max_tracked_keys)
          as (λ b.
            ltb (length live) l.max_tracked_keys ≡ b
            → (length (if b then live else dropped) < l.max_tracked_keys)
              × All (λ kv. length kv.1 ≤ l.limit) (if b then live else dropped)) [
                | true ↦ λ room. (ground (arith, room), live-within v.within)
                | false ↦ λ none_idle.
                    let at_cap : length live ≡ l.max_tracked_keys =
                      ground (arith, none_idle, full, length-live_le) in
                    (
                      omega (
                        arith,
                        v.positive,
                        drop_head (eviction_leb l.limit) live (omega (arith, v.positive)),
                      ),
                      delete_keys-within l.limit _ live (live-within v.within),
                    )
              ]
        refl)
    where
      dropped : Dict (List ℕ)
      dropped = delete_keys (map (λ kv. kv.0) (take 1 (sort (eviction_leb l.limit) live))) live

  -- With the map within its cap, `_evict_expired` leaves room for the new key.
  evict_expired_lem :
      IsValid l
      → (length (evict_expired now l).events < l.max_tracked_keys)
        × All (λ kv. length kv.1 ≤ l.limit) (evict_expired now l).events
  evict_expired_lem v = elim (Bool-cases (ltb (length l.events) l.max_tracked_keys)) [
    | inl room ↦ rw (evict_expired-room room) (ground (arith, room), v.within)
    | inr full ↦ after_full v (ground (arith, full, v.tracked))
  ]

evict_expired-settings :
    (now : ℕ) (l : Limiter)
    → ((evict_expired now l).limit ≡ l.limit)
      × ((evict_expired now l).window ≡ l.window)
      × ((evict_expired now l).max_tracked_keys ≡ l.max_tracked_keys)
unfolding evict_expired
evict_expired-settings now l = ground arith

events_of-within :
    (key : String) (n : ℕ) (d : Dict (List ℕ))
    → All (λ kv. length kv.1 ≤ n) d
    → length (events_of key d) ≤ n
unfolding events_of lookup
events_of-within key n [] h = omega arith
events_of-within key n ((j, es) ∷ d) h = ground (arith, h.0, events_of-within key n d h.1)

module _ (key : String) (now : ℕ) where
  -- The map that `allow` works on: after eviction, if the key is new.
  abbrev before_write : Limiter → Limiter
  before_write l = if has key l.events then l else evict_expired now l

  IsRoomy : Limiter → Type 0
  IsRoomy l =
      (if has key l.events then length l.events else suc (length l.events)) ≤ l.max_tracked_keys

  write-IsValid :
      (l : Limiter) (es : List ℕ)
      → 1 ≤ l.max_tracked_keys
      → IsRoomy l
      → All (λ kv. length kv.1 ≤ l.limit) l.events
      → length es ≤ l.limit
      → IsValid (record l { events = insert key es l.events })
  unfolding IsRoomy
  write-IsValid l es p room w fits = record {
    positive = p;
    tracked = ground (arith, length-insert key es l.events, room);
    within = All-insert _ key es l.events (λ j e. fits) w;
  }

  -- The part of `allow` behind the eviction.
  abbrev finish : Limiter → Limiter × Bool
  finish l =
      let kept = pop_expired l.window now (events_of key l.events) in
      if leb l.limit (length kept)
      then (record l { events = insert key kept l.events }, false)
      else (record l { events = insert key (kept ++ now ∷ []) l.events }, true)

  finish-IsValid :
      (l : Limiter)
      → 1 ≤ l.max_tracked_keys
      → IsRoomy l
      → All (λ kv. length kv.1 ≤ l.limit) l.events
      → IsValid (finish l).0
  finish-IsValid l p room w =
      let kept = pop_expired l.window now (events_of key l.events) in
      let short : length kept ≤ l.limit = omega (
        arith,
        length-pop_expired_le l.window now (events_of key l.events),
        events_of-within key l.limit l.events w,
      ) in
      elim (Bool-cases (leb l.limit (length kept))) [
        | inl full ↦ rw full (write-IsValid l kept p room w short)
        | inr open_slot ↦ rw open_slot (
            write-IsValid l (kept ++ now ∷ []) p room w
              (ground (arith, length-append kept (now ∷ []), open_slot)))
      ]

-- Whatever requests come, the limiter itself stays bounded: from a state with at most
-- `max_tracked_keys` buckets of at most `limit` events each, `allow` leads to such a state, also
-- when it has to evict a bucket for a new client.
pub allow-IsValid : (key : String) (now : ℕ) (l : Limiter) → IsValid l → IsValid (allow key now l).0
unfolding allow IsRoomy
allow-IsValid key now l v = elim (Bool-cases (ltb l.limit 1)) [
  | inl off ↦ rw off v
  | inr on ↦ rw on (elim (Bool-cases (has key l.events)) [
    | inl known ↦ rw known (finish-IsValid key now l v.positive (rw known v.tracked) v.within)
    | inr fresh ↦ rw fresh (
        finish-IsValid key now (evict_expired now l)
          (omega (arith, evict_expired-settings now l, v.positive))
          (ground (arith, evict_expired-settings now l, evict_expired_lem now l v))
          (rw ((evict_expired-settings now l).0) ((evict_expired_lem now l v).1)))
  ])
]
