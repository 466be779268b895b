-- ===== src/Store/Bounds.antt =====
-- Each bound of app/consumer/store.py is a denial-of-service control: what keeps it.
use give_exit.Prelude.{
  none, Option, ℕ, suc, ◌-◌, ◌≤◌, ◌≡◌, refl, true, some, List, [], ◌∷◌, ◌++◌, String, ltb, leb,
  length, drop, length-drop, All, arith, Bool-cases, inl, inr, str_eq, eq_iff, eq_refl,
}
use give_exit.Prelude.Dict.{
  Dict, lookup, insert, without, length-insert, length-without_le, lookup-insert_self,
}
use give_exit.Prelude.DictLaws.{
  Distinct, Distinct-insert, Distinct-without, All-insert, All-without, All-lookup, has-of_lookup,
}
use give_exit.Store.Defs.{
  Payload, Message, CaseRecord, CaseStore, Result, ok, err, evict_front, append_bounded,
  remember_assistant_reply, pop_all, expire_idle_cases, Fresh, create, get_authorized,
  delete_authorized, authorize, drop_found, new_record, token_digest,
}

-- The message log keeps at most its limit, and what it drops is its oldest part.
pub append_bounded_lem :
    (max_messages : ℕ) (m : Message) (ms : List Message)
    → (length (append_bounded max_messages m ms) ≤ max_messages)
      × ((k : ℕ) × (append_bounded max_messages m ms ≡ drop k (ms ++ m ∷ [])))
unfolding append_bounded
append_bounded_lem n m ms = elim (Bool-cases (ltb n (length (ms ++ m ∷ [])))) [
  | inl over ↦ rw over (
    ground (arith, length-drop (length (ms ++ m ∷ []) - n) (ms ++ m ∷ [])),
    (length (ms ++ m ∷ []) - n, refl),
  )
  | inr fits ↦ rw fits (ground arith, (0, refl))
]

module _ {ℓ} {V : Type ℓ} where
  pub length-evict_front_le : (n : ℕ) (d : Dict V) → length (evict_front n d) ≤ n
  unfolding evict_front
  length-evict_front_le n [] = omega arith
  length-evict_front_le n (kv ∷ d) = ground (arith, length-evict_front_le n d)

  -- A map within its limit loses nothing.
  pub evict_front-fits : (n : ℕ) (d : Dict V) → length d ≤ n → evict_front n d ≡ d
  unfolding evict_front
  evict_front-fits n [] h = refl
  evict_front-fits n (kv ∷ d) h = ground (arith, evict_front-fits n d)

  pub Distinct-evict_front : (n : ℕ) (d : Dict V) → Distinct d → Distinct (evict_front n d)
  unfolding evict_front
  Distinct-evict_front n [] u = tt
  Distinct-evict_front n (kv ∷ d) u = elim (Bool-cases (ltb n (suc (length d)))) [
    | inl over ↦ rw over (Distinct-evict_front n d u.1)
    | inr fits ↦ rw fits u
  ]

  -- One entry too many: the oldest goes, unless it is the key in question.
  lookup-evict_front-insert :
      (n : ℕ) (k : String) (v : V) (d : Dict V)
      → length d ≤ n
      → 1 ≤ n
      → lookup k (evict_front n (insert k v d)) ≡ some v
  unfolding evict_front insert lookup
  lookup-evict_front-insert n k v [] h p = ground (arith, eq_refl k)
  lookup-evict_front-insert n k v ((j, w) ∷ d) h p = elim (Bool-cases (str_eq j k)) [
    | inl same ↦ rw same (ground (arith, same))
    | inr other ↦ rw other (
        ground (
          arith,
          other,
          length-insert k v d,
          lookup-insert_self k v d,
          evict_front-fits n (insert k v d),
        ))
  ]

-- Within one request: the reply to a new message id is stored, and the map keeps its limit.
pub remember_assistant_reply_lem :
    {p : Payload} (r : CaseRecord p) (key reply : String) (max_keys : ℕ)
    → 1 ≤ max_keys
    → length r.idempotent_messages ≤ max_keys
    → (lookup key (remember_assistant_reply key reply max_keys r).idempotent_messages ≡ some reply)
      × (length (remember_assistant_reply key reply max_keys r).idempotent_messages ≤ max_keys)
unfolding remember_assistant_reply
remember_assistant_reply_lem r key reply n h k = (
  lookup-evict_front-insert n key reply r.idempotent_messages k h,
  length-evict_front_le n (insert key reply r.idempotent_messages),
)

module _ {p : Payload} where
  -- What a record keeps: it stands under its own id, and its two logs are within their limits.
  abbrev pub IsBounded : (max_messages max_keys : ℕ) → String × CaseRecord p → Type 0
  IsBounded max_messages max_keys (k, r) =
      (str_eq k r.case_id ≡ true)
      × (length r.messages ≤ max_messages)
      × (length r.idempotent_messages ≤ max_keys)

  pub record IsValid (s : CaseStore p) : Type 0 where
    pub capacity : length s.cases ≤ s.max_active_cases
    pub distinct : Distinct s.cases
    pub bounded : All (IsBounded s.max_messages_per_case s.max_idempotency_keys_per_case) s.cases

  pop_all_keeps :
      (b : ℕ × ℕ × ℕ) (rs : List (CaseRecord p)) (d : Dict (CaseRecord p))
      → length d ≤ b.0
      → Distinct d
      → All (IsBounded b.1 b.2) d
      → (length (pop_all rs d) ≤ b.0)
        × Distinct (pop_all rs d)
        × All (IsBounded b.1 b.2) (pop_all rs d)
  unfolding pop_all
  pop_all_keeps b [] d h u w = (h, u, w)
  pop_all_keeps b (r ∷ rs) d h u w =
      pop_all_keeps b rs (without r.case_id d) (omega (arith, length-without_le r.case_id d))
        (Distinct-without r.case_id d u) (All-without _ r.case_id d w)

  pub expire-IsValid : (now : ℕ) (s : CaseStore p) → IsValid s → IsValid (expire_idle_cases now s).0
  unfolding expire_idle_cases
  expire-IsValid now s v =
      let (c, d, b) =
        pop_all_keeps (s.max_active_cases, s.max_messages_per_case, s.max_idempotency_keys_per_case)
          (expire_idle_cases now s).1 s.cases v.capacity v.distinct v.bounded in
      record { capacity = c; distinct = d; bounded = b }

module _ {p : Payload} where
  pub stored_bounds :
      (k : String) (r : CaseRecord p) (s : CaseStore p)
      → IsValid s
      → lookup k s.cases ≡ some r
      → IsBounded s.max_messages_per_case s.max_idempotency_keys_per_case (k, r)
  stored_bounds k r s v found =
      let (j, e, b) = All-lookup _ k s.cases v.bounded found in
      (ground (arith, eq_iff j k, b.0), b.1, b.2)

  drop_found-IsValid :
      (k : String) (out : CaseStore p × Result (CaseRecord p))
      → IsValid out.0
      → IsValid (drop_found k out).0
  unfolding drop_found
  drop_found-IsValid k (s, err e) v = v
  drop_found-IsValid k (s, ok r) v = record {
    capacity = omega (arith, length-without_le k s.cases, v.capacity);
    distinct = Distinct-without k s.cases v.distinct;
    bounded = All-without _ k s.cases v.bounded;
  }

module _ (sha256_hex : String → String) {p : Payload} where
  pub create-IsValid : (f : Fresh) (s : CaseStore p) → IsValid s → IsValid (create sha256_hex f s).0
  unfolding create new_record
  create-IsValid f s v = elim (Bool-cases (leb s'.max_active_cases (length s'.cases))) [
    | inl full ↦ rw full v'
    | inr room ↦ rw room (record {
      capacity = ground (arith, length-insert f.case_id (new_record sha256_hex f) s'.cases);
      distinct = Distinct-insert f.case_id _ s'.cases v'.distinct;
      bounded = All-insert _ f.case_id _ s'.cases (λ j e. (e, omega arith, omega arith)) v'.bounded;
    })
  ]
    where
      s' : CaseStore p
      s' = (expire_idle_cases f.now s).0

      v' : IsValid s'
      v' = expire-IsValid f.now s v

  -- Putting back a record that keeps its bounds.
  pub write-IsValid :
      (k : String) (r r' : CaseRecord p) (s : CaseStore p)
      → IsValid s
      → lookup k s.cases ≡ some r
      → IsBounded s.max_messages_per_case s.max_idempotency_keys_per_case (k, r')
      → IsValid (record s { cases = insert k r' s.cases })
  write-IsValid k r r' s v found b = record {
    capacity =
        ground (arith, length-insert k r' s.cases, has-of_lookup k s.cases r found, v.capacity);
    distinct = Distinct-insert k r' s.cases v.distinct;
    bounded =
        All-insert _ k r' s.cases (λ j e. (ground (arith, eq_iff j k, b.0), b.1, b.2)) v.bounded;
  }

  authorize-IsValid :
      (o : Option (CaseRecord p)) (k token : String) (now : ℕ) (s : CaseStore p)
      → IsValid s
      → lookup k s.cases ≡ o
      → IsValid (authorize sha256_hex o k token now s).0
  unfolding authorize
  authorize-IsValid none k token now s v found = v
  authorize-IsValid (some r) k token now s v found =
      elim (Bool-cases (str_eq r.token_digest (token_digest sha256_hex k token))) [
        | inl e ↦ rw e (
            write-IsValid k r (record r { last_seen_monotonic = now }) s v found
              (stored_bounds k r s v found))
        | inr e ↦ rw e v
      ]

  pub get_authorized-IsValid :
      (k token : String) (now : ℕ) (s : CaseStore p)
      → IsValid s
      → IsValid (get_authorized sha256_hex k token now s).0
  unfolding get_authorized
  get_authorized-IsValid k token now s v = authorize-IsValid (lookup k s.cases) k token now s v refl

  pub delete_authorized-IsValid :
      (k token : String) (now : ℕ) (s : CaseStore p)
      → IsValid s
      → IsValid (delete_authorized sha256_hex k token now s).0
  unfolding delete_authorized
  delete_authorized-IsValid k token now s v =
      drop_found-IsValid k (get_authorized sha256_hex k token now s)
        (get_authorized-IsValid k token now s v)
