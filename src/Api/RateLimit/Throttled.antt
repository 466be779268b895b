-- ===== src/Api/RateLimit/Throttled.antt =====
-- Whom `_evict_expired` of app/api/security.py drops when the map of clients is full.
use give_exit.Prelude.{
  ℕ, ◌≤◌, ◌≡◌, refl, String, some, List, [], ◌∷◌, map, ltb, length, All, All-map, take, arith,
  Bool-cases, inl, inr, str_eq, eq_iff,
}
use give_exit.Prelude.Dict.{Dict, lookup, lookup-without}
use give_exit.Prelude.DictLaws.{Distinct, All-entry}
use give_exit.Prelude.Sorting.{sort, IsSorted, sort-IsSorted, All-sort, All-unsort}
use give_exit.Api.RateLimit.{Limiter, delete_keys, eviction_leb, evict_expired}
use give_exit.Api.RateLimit.Quota.{evict_expired-full, eviction_leb_total, eviction_leb_trans, live}

module _ (now : ℕ) (l : Limiter) where
  abbrev pub IsThrottled : String × List ℕ → Type 0
  IsThrottled kv = l.limit ≤ length kv.1

  head-IsThrottled :
      (a : String × List ℕ) (xs : List (String × List ℕ))
      → IsSorted (eviction_leb l.limit) (a ∷ xs)
      → IsThrottled a
      → All IsThrottled (a ∷ xs)
  unfolding eviction_leb
  head-IsThrottled a xs s h = (h, All-map _ _ xs (λ b t. ground arith) s.0)

  lookup-drop_unthrottled :
      (k : String) (es : List ℕ) (d : Dict (List ℕ))
      → Distinct d
      → lookup k d ≡ some es
      → IsThrottled (k, es)
      → ¬ (All IsThrottled d)
      → lookup k (delete_keys (map (λ kv. kv.0) (take 1 (sort (eviction_leb l.limit) d))) d)
        ≡ some es
  unfolding delete_keys
  lookup-drop_unthrottled k es d u found h some_free = go (sort (eviction_leb l.limit) d) refl
    where
      go :
          (o : List (String × List ℕ))
          → sort (eviction_leb l.limit) d ≡ o
          → lookup k (delete_keys (map (λ kv. kv.0) (take 1 o)) d) ≡ some es
      go [] e = found
      go ((j, fs) ∷ o) e = elim (Bool-cases (str_eq j k)) [
        | inl same ↦
            let entry : lookup j d ≡ some fs =
              (rw e at (
                All-sort (eviction_leb l.limit) (λ kv. lookup kv.0 d ≡ some kv.1) d
                  (All-entry d u))).0 in
            let j_k : j ≡ k = (eq_iff j k).0 same in
            let fs_es : fs ≡ es = ground (arith, entry, j_k, found) in
            absurd (
              some_free (
                All-unsort (eviction_leb l.limit) IsThrottled d (
                  rw e (
                    head-IsThrottled (j, fs) o
                      (rw e at (
                        sort-IsSorted (eviction_leb l.limit) (eviction_leb_total l.limit)
                          (eviction_leb_trans l.limit) d))
                      (rw fs_es h)))))
        | inr other ↦ ground (arith, lookup-without j k d, other, found)
      ]

-- A flood of new clients cannot reset the quota of a client that is being throttled: with the map
-- at its cap, a bucket that is full once its expired events are gone survives the eviction, with
-- its events, as long as some bucket left is below the limit.
pub throttled_survive :
    (now : ℕ) (l : Limiter) (k : String) (es : List ℕ)
    → length l.events ≡ l.max_tracked_keys
    → Distinct (live now l)
    → lookup k (live now l) ≡ some es
    → l.limit ≤ length es
    → ¬ (All (IsThrottled now l) (live now l))
    → lookup k (evict_expired now l).events ≡ some es
throttled_survive now l k es full u found h some_free =
    rw (evict_expired-full now l full)
      (elim (Bool-cases (ltb (length (live now l)) l.max_tracked_keys)) [
        | inl room ↦ rw room found
        | inr none_idle ↦
            rw none_idle (lookup-drop_unthrottled now l k es (live now l) u found h some_free)
      ])
