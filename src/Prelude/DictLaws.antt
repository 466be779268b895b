-- ===== src/Prelude/DictLaws.antt =====
-- Distinct keys, and what writes and removals keep of them.
use mathlib.Core.Path.{◌≡◌, refl}
use mathlib.Core.Bool.{Bool, true, false}
use mathlib.Core.Logic.{inl, inr}
use mathlib.Core.Option.{Option, none, some}
use mathlib.Core.List.{[], ◌∷◌}
use native.Mathlib.Omega.{arith}
use Prim.Native.String.{String}
use give_exit.Prelude.Tests.{if◌then◌else◌, Bool-cases}
use Prim.Native.Nat.{suc, ◌≤◌}
use give_exit.Prelude.Lists.{length, All, All-map}
use give_exit.Prelude.Texts.{str_eq, eq_iff, eq_refl}
use give_exit.Prelude.Dict.{Dict, lookup, has, insert, without, length-without_le}

module _ {ℓ} {V : Type ℓ} where
  -- No key stands twice.
  abbrev pub Distinct : Dict V → Type 0
  Distinct [] = Unit
  Distinct ((k, v) ∷ d) = (has k d ≡ false) × Distinct d

  pub has-insert :
      (k j : String) (v : V) (d : Dict V)
      → has j (insert k v d) ≡ (if str_eq k j then true else has j d)
  unfolding has insert
  has-insert k j v [] = refl
  has-insert k j v ((i, w) ∷ d) =
      ground (arith, eq_iff k j, eq_iff i k, eq_iff i j, has-insert k j v d)

  pub has-without :
      (k j : String) (d : Dict V) → has j (without k d) ≡ (if str_eq k j then false else has j d)
  unfolding has without
  has-without k j [] = ground arith
  has-without k j ((i, w) ∷ d) =
      ground (arith, eq_iff k j, eq_iff i k, eq_iff i j, has-without k j d)

  pub Distinct-insert : (k : String) (v : V) (d : Dict V) → Distinct d → Distinct (insert k v d)
  unfolding insert has
  Distinct-insert k v [] h = ground arith
  Distinct-insert k v ((j, w) ∷ d) h = elim (Bool-cases (str_eq j k)) [
    | inl e ↦ rw e h
    | inr e ↦
        rw e (ground (arith, has-insert k j v d, eq_iff j k, eq_iff k j), Distinct-insert k v d h.1)
  ]

  pub Distinct-without : (k : String) (d : Dict V) → Distinct d → Distinct (without k d)
  unfolding without
  Distinct-without k [] h = tt
  Distinct-without k ((j, w) ∷ d) h = elim (Bool-cases (str_eq j k)) [
    | inl e ↦ rw e (Distinct-without k d h.1)
    | inr e ↦
        rw e (ground (arith, has-without k j d, eq_iff j k, eq_iff k j), Distinct-without k d h.1)
  ]

  module _ {κ} (P : String × V → Type κ) where
    pub All-without : (k : String) (d : Dict V) → All P d → All P (without k d)
    unfolding without
    All-without k [] h = tt
    All-without k ((j, w) ∷ d) h = elim (Bool-cases (str_eq j k)) [
      | inl e ↦ rw e (All-without k d h.1)
      | inr e ↦ rw e (h.0, All-without k d h.1)
    ]

    pub All-insert :
        (k : String) (v : V) (d : Dict V)
        → ((j : String) → str_eq j k ≡ true → P (j, v))
        → All P d
        → All P (insert k v d)
    unfolding insert
    All-insert k v [] p h = (p k (eq_refl k), tt)
    All-insert k v ((j, w) ∷ d) p h = elim (Bool-cases (str_eq j k)) [
      | inl e ↦ rw e (p j e, h.1)
      | inr e ↦ rw e (h.0, All-insert k v d p h.1)
    ]

    pub All-lookup :
        (k : String) (d : Dict V) {v : V}
        → All P d
        → lookup k d ≡ some v
        → (j : String) × (str_eq j k ≡ true) × P (j, v)
    unfolding lookup
    All-lookup k [] h e = cc
    All-lookup k ((j, w) ∷ d) {v} h e = elim (Bool-cases (str_eq j k)) [
      | inl t ↦ let same : w ≡ v = ground arith in (j, t, rw (← same) h.0)
      | inr t ↦ All-lookup k d h.1 (ground arith)
    ]

  pub has-of_lookup : (k : String) (d : Dict V) (v : V) → lookup k d ≡ some v → has k d ≡ true
  unfolding lookup has
  has-of_lookup k [] v h = cc
  has-of_lookup k ((j, w) ∷ d) v h = ground (arith, has-of_lookup k d v)

  pub without-absent : (k : String) (d : Dict V) → has k d ≡ false → without k d ≡ d
  unfolding has without
  without-absent k [] h = refl
  without-absent k ((j, w) ∷ d) h = ground (arith, without-absent k d)

  pub length-without-has :
      (k : String) (d : Dict V) → has k d ≡ true → suc (length (without k d)) ≤ length d
  unfolding has without
  length-without-has k [] h = cc
  length-without-has k ((j, w) ∷ d) h =
      ground (arith, length-without-has k d, length-without_le k d)

  has-cons : (k j : String) (w : V) (d : Dict V) → has k d ≡ true → has k ((j, w) ∷ d) ≡ true
  unfolding has
  has-cons k j w d h = ground arith

  has_self : (j : String) (w : V) (d : Dict V) → has j ((j, w) ∷ d) ≡ true
  unfolding has
  has_self j w d = rw (eq_refl j)

  pub All-has : (d : Dict V) → All (λ kv. has kv.0 d ≡ true) d
  All-has [] = tt
  All-has ((j, w) ∷ d) = (has_self j w d, All-map _ _ d (λ kv h. has-cons kv.0 j w d h) (All-has d))

  pub lookup-tail :
      (k j : String) (w v : V) (d : Dict V)
      → has j d ≡ false
      → lookup k d ≡ some v
      → lookup k ((j, w) ∷ d) ≡ some v
  unfolding lookup
  lookup-tail k j w v d a h = ground (arith, eq_iff j k, has-of_lookup k d v h, a)

  pub lookup-head : (j : String) (w : V) (d : Dict V) → lookup j ((j, w) ∷ d) ≡ some w
  unfolding lookup
  lookup-head j w d = rw (eq_refl j)

  -- With distinct keys, every entry is what its key looks up.
  pub All-entry : (d : Dict V) → Distinct d → All (λ kv. lookup kv.0 d ≡ some kv.1) d
  All-entry [] u = tt
  All-entry ((j, w) ∷ d) u = (
    lookup-head j w d,
    All-map _ _ d (λ kv h. lookup-tail kv.0 j w kv.1 d u.0 h) (All-entry d u.1),
  )

abbrev pub is_some {ℓ} : {A : Type ℓ} → Option A → Bool
is_some none = false
is_some (some a) = true

pub has-lookup-is_some {ℓ} : {V : Type ℓ} (k : String) (d : Dict V) → has k d ≡ is_some (lookup k d)
unfolding has lookup
has-lookup-is_some k [] = refl
has-lookup-is_some k ((j, w) ∷ d) = ground (arith, has-lookup-is_some k d)
