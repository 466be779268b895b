-- ===== src/Prelude/Sorting.antt =====
-- Python's `sorted`: a stable insertion sort by a Boolean order, with its laws.
use Prim.Native.Nat.{ℕ, zero, suc}
use mathlib.Core.Path.{◌≡◌, refl}
use mathlib.Core.Bool.{Bool, true}
use mathlib.Core.Logic.{◌⊎◌, inl, inr}
use mathlib.Core.List.{List, [], ◌∷◌}
use mathlib.Core.List.{Perm}
use mathlib.Core.List.Perm
use native.Mathlib.Omega.{arith}
use give_exit.Prelude.Tests.{if◌then◌else◌, Bool-cases}
use give_exit.Prelude.Lists.{length, take, filter, All, All-map, All-take}

module _ {ℓ} {A : Type ℓ} (le : A → A → Bool) where
  -- Puts `a` before the first element that it may precede, so equal elements keep their order.
  unfoldable pub place : A → List A → List A
  place a [] = a ∷ []
  place a (x ∷ xs) = let rest = place a xs in if le a x then a ∷ x ∷ xs else x ∷ rest

  unfoldable pub sort : List A → List A
  unfolding place
  sort [] = []
  sort (x ∷ xs) = place x (sort xs)

  abbrev pub IsSorted : List A → Type ℓ
  IsSorted [] = Unit
  IsSorted (x ∷ xs) = All (λ y. le x y ≡ true) xs × IsSorted xs

  pub length-place : (a : A) (xs : List A) → length (place a xs) ≡ suc (length xs)
  unfolding place
  length-place a [] = refl
  length-place a (x ∷ xs) = ground (arith, length-place a xs)

  pub length-sort : (xs : List A) → length (sort xs) ≡ length xs
  unfolding sort
  length-sort [] = refl
  length-sort (x ∷ xs) = omega (arith, length-place x (sort xs), length-sort xs)

  pub place-perm : (a : A) (xs : List A) → Perm (place a xs) (a ∷ xs)
  unfolding place
  place-perm a [] = Perm.refl (a ∷ [])
  place-perm a (x ∷ xs) = elim (Bool-cases (le a x)) [
    | inl h ↦ rw h (Perm.refl (a ∷ x ∷ xs))
    | inr h ↦ rw h (Perm.trans (Perm.cons x (place-perm a xs)) (Perm.swap a x xs))
  ]

  pub sort-perm : (xs : List A) → Perm (sort xs) xs
  unfolding sort
  sort-perm [] = Perm.refl []
  sort-perm (x ∷ xs) = Perm.trans (place-perm x (sort xs)) (Perm.cons x (sort-perm xs))

  module _ {κ} (P : A → Type κ) where
    pub All-place : (a : A) (xs : List A) → P a → All P xs → All P (place a xs)
    unfolding place
    All-place a [] h hs = (h, tt)
    All-place a (x ∷ xs) h hs = elim (Bool-cases (le a x)) [
      | inl t ↦ rw t (h, hs)
      | inr t ↦ rw t (hs.0, All-place a xs h hs.1)
    ]

    pub All-sort : (xs : List A) → All P xs → All P (sort xs)
    unfolding sort
    All-sort [] h = tt
    All-sort (x ∷ xs) h = All-place x (sort xs) h.0 (All-sort xs h.1)

  module _ (total : (a b : A) → (le a b ≡ true) ⊎ (le b a ≡ true))
      (trans : (a b c : A) → le a b ≡ true → le b c ≡ true → le a c ≡ true) where
    place-IsSorted : (a : A) (xs : List A) → IsSorted xs → IsSorted (place a xs)
    unfolding place
    place-IsSorted a [] s = (tt, tt)
    place-IsSorted a (x ∷ xs) s = elim (Bool-cases (le a x)) [
      | inl t ↦ rw t ((t, All-map _ _ xs (λ y h. trans a x y t h) s.0), s)
      | inr t ↦ rw t (
        All-place (λ y. le x y ≡ true) a xs (elim (total a x) [ inl h ↦ cc | inr h ↦ h ]) s.0,
        place-IsSorted a xs s.1,
      )
    ]

    pub sort-IsSorted : (xs : List A) → IsSorted (sort xs)
    unfolding sort
    sort-IsSorted [] = tt
    sort-IsSorted (x ∷ xs) = place-IsSorted x (sort xs) (sort-IsSorted xs)

  module _ {κ} (P : A → Type κ) where
    All-unplace : (a : A) (xs : List A) → All P (place a xs) → P a × All P xs
    unfolding place
    All-unplace a [] h = (h.0, tt)
    All-unplace a (x ∷ xs) h = elim (Bool-cases (le a x)) [
      | inl t ↦ let h' = rw t at h in (h'.0, h'.1)
      | inr t ↦ let h' = rw t at h in let r = All-unplace a xs h'.1 in (r.0, (h'.0, r.1))
    ]

    pub All-unsort : (xs : List A) → All P (sort xs) → All P xs
    unfolding sort
    All-unsort [] h = tt
    All-unsort (x ∷ xs) h = let r = All-unplace x (sort xs) h in (r.0, All-unsort xs r.1)

module _ {ℓ} {A : Type ℓ} (le : A → A → Bool) where
  pub IsSorted-take : (n : ℕ) (xs : List A) → IsSorted le xs → IsSorted le (take n xs)
  IsSorted-take zero xs s = tt
  IsSorted-take (suc n) [] s = tt
  IsSorted-take (suc n) (x ∷ xs) s =
      (All-take (λ y. le x y ≡ true) n xs s.0, IsSorted-take n xs s.1)

-- Stability: elements that the order does not tell apart keep their order.
module _ {ℓ} {A : Type ℓ} (le : A → A → Bool) (p : A → Bool)
    (tied : (a b : A) → p a ≡ true → p b ≡ true → le a b ≡ true) where
  filter-place : (a : A) (xs : List A) → filter p (place le a xs) ≡ filter p (a ∷ xs)
  unfolding place
  filter-place a [] = refl
  filter-place a (x ∷ xs) = ground (arith, filter-place a xs, tied a x)

  pub filter-sort_key : (xs : List A) → filter p (sort le xs) ≡ filter p xs
  unfolding sort
  filter-sort_key [] = refl
  filter-sort_key (x ∷ xs) = ground (arith, filter-place x (sort le xs), filter-sort_key xs)
