-- ===== src/Policy/Window/Laws.antt =====
-- The ground window's budget, and what anchoring leaves.
use give_exit.Prelude.{
  ℕ, ◌+◌, ◌≤◌, ◌<◌, ◌≡◌, refl, Bool, true, false, not, List, [], ◌∷◌, length, filter, filter-filter,
  any, if◌then◌else◌, arith, Bool-cases, inl, inr,
}
use give_exit.Policy.{LegalProvision, max_complementary_grounds}
use give_exit.Policy.Window.{
  is_complementary, is_cdc_anchored, is_cdc, source_of, admit, precedence_window,
  enforce_cdc_anchor,
}

module _ {ℓ} {Candidate : Type ℓ} where
  abbrev pub complementary_of :
      List (LegalProvision × Candidate) → List (LegalProvision × Candidate)
  complementary_of = filter (λ c. is_complementary (source_of c))

  abbrev own_of : List (LegalProvision × Candidate) → List (LegalProvision × Candidate)
  own_of = filter (λ c. not (is_complementary (source_of c)))

  module _ (window : ℕ) (lexical_only : Bool) where
    pub length-admit :
        (a n : ℕ) (cs : List (LegalProvision × Candidate))
        → a < window
        → a + length (admit window lexical_only a n cs) ≤ window
    unfolding admit
    length-admit a n [] h = omega arith
    length-admit a n (c ∷ cs) h = ground (
      arith,
      length-admit a n cs,
      length-admit (a + 1) (if is_complementary (source_of c) then n + 1 else n) cs,
    )

    pub complementary-admit :
        (a n : ℕ) (cs : List (LegalProvision × Candidate))
        → n ≤ max_complementary_grounds
        → n + length (complementary_of (admit window lexical_only a n cs))
          ≤ max_complementary_grounds
    unfolding admit
    complementary-admit a n [] h = omega arith
    complementary-admit a n (c ∷ cs) h = ground (
      arith,
      complementary-admit a n cs,
      complementary-admit (a + 1) (if is_complementary (source_of c) then n + 1 else n) cs,
    )

    own-admit :
        (a n : ℕ) (cs : List (LegalProvision × Candidate))
        → a + length (admit window lexical_only a n cs) < window
        → own_of (admit window lexical_only a n cs) ≡ own_of cs
    unfolding admit
    own-admit a n [] h = refl
    own-admit a n (c ∷ cs) h = ground (
      arith,
      own-admit a n cs,
      own-admit (a + 1) (if is_complementary (source_of c) then n + 1 else n) cs,
    )

  lexical-admit :
      (window a n : ℕ) (cs : List (LegalProvision × Candidate))
      → complementary_of (admit window true a n cs) ≡ []
  unfolding admit
  lexical-admit window a n [] = refl
  lexical-admit window a n (c ∷ cs) = ground (
    arith,
    lexical-admit window a n cs,
    lexical-admit window (a + 1) (if is_complementary (source_of c) then n + 1 else n) cs,
  )

  module _ (window : ℕ) (lexical_only : Bool) where
    -- A window of at least one slot holds at most `window` grounds, at most three of them from
    -- the complementary codes, none of these when the traces are lexical only, and every
    -- constitution or CDC candidate, in order, unless the window is full.
    pub precedence_window_lem :
        (cs : List (LegalProvision × Candidate))
        → 1 ≤ window
        → (length (precedence_window window lexical_only cs) ≤ window)
          × (length (complementary_of (precedence_window window lexical_only cs))
              ≤ max_complementary_grounds)
          × (lexical_only ≡ true → complementary_of (precedence_window window lexical_only cs) ≡ [])
          × (length (precedence_window window lexical_only cs) < window
              → own_of (precedence_window window lexical_only cs) ≡ own_of cs)
    unfolding precedence_window
    precedence_window_lem cs h = (
      ground (arith, length-admit window lexical_only 0 0 cs h),
      ground (arith, complementary-admit window lexical_only 0 0 cs (omega arith)),
      (λ e. rw e (lexical-admit window 0 0 cs)),
      (λ short. own-admit window lexical_only 0 0 cs (ground (arith, short))),
    )

  -- Without the grounds that need an anchor, no ground needs one.
  filter-anchored :
      (cs : List (LegalProvision × Candidate))
      → any
          (λ c. is_cdc_anchored (source_of c))
          (filter (λ c. not (is_cdc_anchored (source_of c))) cs)
        ≡ false
  filter-anchored [] = refl
  filter-anchored (c ∷ cs) = ground (arith, filter-anchored cs)

  -- A civil-code ground is cited only beside a CDC ground, the other grounds stay in order, and
  -- with a CDC ground nothing changes.
  pub enforce_cdc_anchor_lem :
      (cs : List (LegalProvision × Candidate))
      → (any (λ c. is_cdc_anchored (source_of c)) (enforce_cdc_anchor cs) ≡ true
          → any (λ c. is_cdc (source_of c)) (enforce_cdc_anchor cs) ≡ true)
        × (filter (λ c. not (is_cdc_anchored (source_of c))) (enforce_cdc_anchor cs)
            ≡ filter (λ c. not (is_cdc_anchored (source_of c))) cs)
        × (any (λ c. is_cdc (source_of c)) cs ≡ true → enforce_cdc_anchor cs ≡ cs)
  unfolding enforce_cdc_anchor
  enforce_cdc_anchor_lem cs = elim (Bool-cases (any (λ c. is_cdc (source_of c)) cs)) [
    | inl h ↦ rw h ((λ _. h), refl, (λ _. refl))
    | inr h ↦ rw h (
      (λ e. ground (arith, e, filter-anchored cs)),
      filter-filter (λ c. not (is_cdc_anchored (source_of c))) cs,
      (λ e. ground (arith, e)),
    )
  ]
