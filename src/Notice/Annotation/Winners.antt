-- ===== src/Notice/Annotation/Winners.antt =====
-- Which hit of a chunk is marked as selected: app/consumer/service.py.
use give_exit.Prelude.{
  ℕ, ◌+◌, ◌≡◌, ◌⊎◌, refl, sym, ap, ◌∙◌, inl, inr, String, true, false, some, List, [], ◌∷◌, map,
  str_eq, eq_iff, if◌then◌else◌, Bool-cases, Option-cases, All, All-map, Any, subst,
}
use give_exit.Prelude.Dict.{Dict, lookup, insert, lookup-insert, lookup-insert_self}
use give_exit.Prelude.Score.{Score}
use give_exit.Policy.{ItemTrace, RetrievalTrace}
use give_exit.Notice.Annotation.{Winner, wins, win_items, win_traces}

module _ {N : Type 0} where
  -- Some item, or every one, with the index of its trace.
  abbrev pub Somewhere : (ℕ → ItemTrace N → Type 0) → ℕ → List (RetrievalTrace N) → Type 0
  Somewhere Q n [] = ⊥
  Somewhere Q n (t ∷ ts) = Any (Q n) t.results ⊎ Somewhere Q (n + 1) ts

  abbrev pub Everywhere : (ℕ → ItemTrace N → Type 0) → ℕ → List (RetrievalTrace N) → Type 0
  Everywhere Q n [] = Unit
  Everywhere Q n (t ∷ ts) = All (Q n) t.results × Everywhere Q (n + 1) ts

All-weaken :
    {A : Type 0} (x : A) (xs ys : List A)
    → All (λ y. Any (λ z. z ≡ y) xs) ys
    → All (λ y. Any (λ z. z ≡ y) (x ∷ xs)) ys
All-weaken x xs [] h = tt
All-weaken x xs (y ∷ ys) h = (inr h.0, All-weaken x xs ys h.1)

All-self : {A : Type 0} (xs : List A) → All (λ x. Any (λ y. y ≡ x) xs) xs
All-self [] = tt
All-self (x ∷ xs) = (inl refl, All-weaken x xs xs (All-self xs))

pub Any-mapped :
    {A B : Type 0} (P : A → Type 0) (Q : B → Type 0) (f : A → B) (xs : List A)
    → ((x : A) → P x → Q (f x))
    → Any P xs
    → Any Q (map f xs)
Any-mapped P Q f [] g h = h
Any-mapped P Q f (x ∷ xs) g (inl h) = inl (g x h)
Any-mapped P Q f (x ∷ xs) g (inr h) = inr (Any-mapped P Q f xs g h)

module _ {N : Type 0} where
  pub Everywhere-map :
      (P Q : ℕ → ItemTrace N → Type 0) (n : ℕ) (ts : List (RetrievalTrace N))
      → ((j : ℕ) (x : ItemTrace N) → P j x → Q j x)
      → Everywhere P n ts
      → Everywhere Q n ts
  Everywhere-map P Q n [] f h = tt
  Everywhere-map P Q n (t ∷ ts) f h =
      (All-map (P n) (Q n) t.results (f n) h.0, Everywhere-map P Q (n + 1) ts f h.1)

  -- Every item stands somewhere.
  pub Everywhere-self :
      (n : ℕ) (ts : List (RetrievalTrace N))
      → Everywhere (λ j x. Somewhere (λ k y. (k ≡ j) × (y ≡ x)) n ts) n ts
  Everywhere-self n [] = tt
  Everywhere-self n (t ∷ ts) = (
    All-map _ _ t.results (λ x h. inl (Any-same n x t.results h)) (All-self t.results),
    Everywhere-map _ _ (n + 1) ts (λ j x h. inr h) (Everywhere-self (n + 1) ts),
  )
    where
      Any-same :
          (m : ℕ) (x : ItemTrace N) (ys : List (ItemTrace N))
          → Any (λ y. y ≡ x) ys
          → Any (λ y. (m ≡ m) × (y ≡ x)) ys
      Any-same m x [] h = h
      Any-same m x (y ∷ ys) (inl h) = inl (refl, h)
      Any-same m x (y ∷ ys) (inr h) = inr (Any-same m x ys h)

lookup-insert_at :
    {V : Type 0} (k c : String) (v : V) (d : Dict V)
    → str_eq k c ≡ true
    → lookup c (insert k v d) ≡ some v
lookup-insert_at k c v d h = lookup-insert k c v d ∙ (rw h refl)

module _ {N : Type 0} ⦃s : Score N⦄ where
  -- The chunk has a winner with this score at least.
  abbrev pub IsBeaten : String → N → Dict (Winner N) → Type 0
  IsBeaten c score d = (w : Winner N) × (lookup c d ≡ some w) × (s.score_leb score w.score ≡ true)

  reflexive : (a : N) → s.score_leb a a ≡ true
  reflexive a = elim (s.total a a) [ inl h ↦ h | inr h ↦ h ]

  not_below : (a b : N) → s.score_leb a b ≡ false → s.score_leb b a ≡ true
  not_below a b h = elim (s.total a b) [ inl k ↦ cc | inr k ↦ k ]

  abbrev step : ℕ → ItemTrace N → Dict (Winner N) → Dict (Winner N)
  step t i d =
      if wins i.score (lookup i.chunk_id d)
      then insert i.chunk_id (record { trace_index = t; rank = i.rank; score = i.score }) d
      else d

  step-IsBeaten :
      (t : ℕ) (i : ItemTrace N) (d : Dict (Winner N)) → IsBeaten i.chunk_id i.score (step t i d)
  unfolding wins
  step-IsBeaten t i d = elim (Option-cases (lookup i.chunk_id d)) [
    | inl e ↦ rw e (_, lookup-insert_self i.chunk_id _ d, reflexive i.score)
    | inr (w, e) ↦ elim (Bool-cases (s.score_leb i.score w.score)) [
      | inl below ↦ rw e (rw below (w, e, below))
      | inr above ↦ rw e (rw above (_, lookup-insert_self i.chunk_id _ d, reflexive i.score))
    ]
  ]

  step_keeps :
      (t : ℕ) (i : ItemTrace N) (c : String) (score : N) (d : Dict (Winner N))
      → IsBeaten c score d
      → IsBeaten c score (step t i d)
  unfolding wins
  step_keeps t i c score d (w, e, h) = elim (Bool-cases (str_eq i.chunk_id c)) [
    | inl same ↦
        let k : i.chunk_id ≡ c = (eq_iff i.chunk_id c).0 same in
        let at : lookup i.chunk_id d ≡ some w = ap (λ j. lookup j d) k ∙ e in
        elim (Bool-cases (s.score_leb i.score w.score)) [
          | inl below ↦ rw at (rw below (w, e, h))
          | inr above ↦ rw at (
              rw above (
                _,
                lookup-insert_at i.chunk_id c _ d same,
                s.trans score w.score i.score h (not_below i.score w.score above),
              ))
        ]
    | inr other ↦ elim (Bool-cases (wins i.score (lookup i.chunk_id d))) [
      | inl new ↦ rw new (w, lookup-insert i.chunk_id c _ d ∙ (rw other e), h)
      | inr old ↦ rw old (w, e, h)
    ]
  ]

  win_items_keeps :
      (t : ℕ) (is : List (ItemTrace N)) (c : String) (score : N) (d : Dict (Winner N))
      → IsBeaten c score d
      → IsBeaten c score (win_items t is d)
  unfolding win_items
  win_items_keeps t [] c score d h = h
  win_items_keeps t (i ∷ is) c score d h =
      win_items_keeps t is c score (step t i d) (step_keeps t i c score d h)

  win_traces_keeps :
      (n : ℕ) (ts : List (RetrievalTrace N)) (c : String) (score : N) (d : Dict (Winner N))
      → IsBeaten c score d
      → IsBeaten c score (win_traces n ts d)
  unfolding win_traces
  win_traces_keeps n [] c score d h = h
  win_traces_keeps n (t ∷ ts) c score d h =
      win_traces_keeps (n + 1) ts c score (win_items n t.results d)
        (win_items_keeps n t.results c score d h)

  win_items-IsBeaten :
      (t : ℕ) (is : List (ItemTrace N)) (d : Dict (Winner N))
      → All (λ i. IsBeaten i.chunk_id i.score (win_items t is d)) is
  unfolding win_items
  win_items-IsBeaten t [] d = tt
  win_items-IsBeaten t (i ∷ is) d = (
    win_items_keeps t is i.chunk_id i.score (step t i d) (step-IsBeaten t i d),
    win_items-IsBeaten t is (step t i d),
  )

  pub win_traces-IsBeaten :
      (n : ℕ) (ts : List (RetrievalTrace N)) (d : Dict (Winner N))
      → Everywhere (λ j i. IsBeaten i.chunk_id i.score (win_traces n ts d)) n ts
  unfolding win_traces
  win_traces-IsBeaten n [] d = tt
  win_traces-IsBeaten n (t ∷ ts) d =
      let d' = win_items n t.results d in
      (
        All-map _ _ t.results (λ i h. win_traces_keeps (n + 1) ts i.chunk_id i.score d' h)
            (win_items-IsBeaten n t.results d),
        win_traces-IsBeaten (n + 1) ts d',
      )

  module _ (Occurs : String → Winner N → Type 0) where
    abbrev pub IsReal : Dict (Winner N) → Type 0
    IsReal d = (c : String) (w : Winner N) → lookup c d ≡ some w → Occurs c w

    abbrev pub HasPlace : ℕ → ItemTrace N → Type 0
    HasPlace t i = Occurs i.chunk_id (record { trace_index = t; rank = i.rank; score = i.score })

    step-IsReal :
        (t : ℕ) (i : ItemTrace N) (d : Dict (Winner N))
        → HasPlace t i
        → IsReal d
        → IsReal (step t i d)
    step-IsReal t i d here h = elim (Bool-cases (wins i.score (lookup i.chunk_id d))) [
      | inl new ↦ rw new (λ c w e. elim (Bool-cases (str_eq i.chunk_id c)) [
        | inl same ↦
            let k : i.chunk_id ≡ c = (eq_iff i.chunk_id c).0 same in
            let v : Winner N = record { trace_index = t; rank = i.rank; score = i.score } in
            let found : some v ≡ some w = sym (lookup-insert_at i.chunk_id c v d same) ∙ e in
            let u : v ≡ w = cc in subst (λ x. Occurs c x) u (subst (λ x. Occurs x v) k here)
        | inr other ↦ h c w (rw other at (sym (lookup-insert i.chunk_id c _ d) ∙ e))
      ])
      | inr old ↦ rw old h
    ]

    win_items-IsReal :
        (t : ℕ) (is : List (ItemTrace N)) (d : Dict (Winner N))
        → All (HasPlace t) is
        → IsReal d
        → IsReal (win_items t is d)
    unfolding win_items
    win_items-IsReal t [] d p h = h
    win_items-IsReal t (i ∷ is) d p h =
        win_items-IsReal t is (step t i d) p.1 (step-IsReal t i d p.0 h)

    pub win_traces-IsReal :
        (n : ℕ) (ts : List (RetrievalTrace N)) (d : Dict (Winner N))
        → Everywhere HasPlace n ts
        → IsReal d
        → IsReal (win_traces n ts d)
    unfolding win_traces
    win_traces-IsReal n [] d p h = h
    win_traces-IsReal n (t ∷ ts) d p h =
        win_traces-IsReal (n + 1) ts (win_items n t.results d) p.1
          (win_items-IsReal n t.results d p.0 h)
