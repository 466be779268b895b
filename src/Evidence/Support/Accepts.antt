-- ===== src/Evidence/Support/Accepts.antt =====
-- What an accepted excerpt has in common with the confirmed facts:
-- app/consumer/evidence_support.py.
use give_exit.Prelude.{
  Any-map, ℕ, ◌≤◌, ◌≡◌, ◌⊎◌, refl, inl, inr, String, Bool, true, false, not, ◌&&◌, List, [], ◌∷◌,
  ltb, leb, leb→le, ◌==◌, length, filter, any, str_eq, eq_refl, codes, arith, Bool-cases, All, Any,
  All-filter, All-if, filter-All, All-map,
}
use give_exit.Evidence.Support.{
  Reading, ConfirmedFacts, is_in, distinct, or_blank, given_texts, shared_terms,
  has_topical_evidence_overlap, topic_tokens, evidence_hard_anchor_count, case_identifiers,
  compact_of, matches_unique_case_identifier, evidence_supports_confirmed_facts,
  generic_evidence_terms,
}
use give_exit.Evidence.Support.Identifiers.{IsSpelled, contains_compact_identifier_lem}

any-Any : {A : Type 0} (p : A → Bool) (xs : List A) → any p xs ≡ true → Any (λ x. p x ≡ true) xs
any-Any p [] h = cc
any-Any p (x ∷ xs) h = elim (Bool-cases (p x)) [
  | inl t ↦ inl t
  | inr t ↦ inr (any-Any p xs (ground (arith, h, t)))
]

distinct-All : (P : String → Type 0) (ts : List String) → All P ts → All P (distinct ts)
unfolding distinct
distinct-All P [] h = tt
distinct-All P (t ∷ ts) h =
    let rest = distinct-All P ts h.1 in All-if P (is_in t ts) _ _ rest (h.0, rest)

-- No text stands in the list twice.
abbrev pub NoRepeat : List String → Type 0
NoRepeat [] = Unit
NoRepeat (t ∷ ts) = All (λ s. str_eq s t ≡ false) ts × NoRepeat ts

absent : (t : String) (ts : List String) → is_in t ts ≡ false → All (λ s. str_eq s t ≡ false) ts
absent t [] h = tt
absent t (s ∷ ss) h = (ground (arith, h), absent t ss (ground (arith, h)))

distinct-NoRepeat : (ts : List String) → NoRepeat (distinct ts)
unfolding distinct
distinct-NoRepeat [] = tt
distinct-NoRepeat (t ∷ ts) = elim (Bool-cases (is_in t ts)) [
  | inl again ↦ rw again (distinct-NoRepeat ts)
  | inr once ↦
      rw once (distinct-All (λ s. str_eq s t ≡ false) ts (absent t ts once), distinct-NoRepeat ts)
]

filter-NoRepeat : (p : String → Bool) (ts : List String) → NoRepeat ts → NoRepeat (filter p ts)
filter-NoRepeat p [] h = tt
filter-NoRepeat p (t ∷ ts) h = elim (Bool-cases (p t)) [
  | inl kept ↦ rw kept (All-filter (λ s. str_eq s t ≡ false) p ts h.0, filter-NoRepeat p ts h.1)
  | inr dropped ↦ rw dropped (filter-NoRepeat p ts h.1)
]

is_in-cons : (s t : String) (ts : List String) → is_in s ts ≡ true → is_in s (t ∷ ts) ≡ true
is_in-cons s t ts h = elim (Bool-cases (str_eq t s)) [ inl e ↦ rw e refl | inr e ↦ rw e h ]

All-is_in : (ts : List String) → All (λ t. is_in t ts ≡ true) ts
All-is_in [] = tt
All-is_in (t ∷ ts) =
    (rw (eq_refl t) refl, All-map _ _ ts (λ s h. is_in-cons s t ts h) (All-is_in ts))

overlap_shares :
    (fact_tokens evidence_tokens : List String) (n : ℕ)
    → has_topical_evidence_overlap fact_tokens evidence_tokens n ≡ true
    → 2 ≤ length (shared_terms fact_tokens evidence_tokens)
unfolding has_topical_evidence_overlap
overlap_shares fact_tokens evidence_tokens n h =
    elim (Bool-cases (ltb (length (shared_terms fact_tokens evidence_tokens)) 2)) [
      | inl few ↦ let no_overlap = rw few at h in ground (arith, no_overlap)
      | inr enough ↦ ground (arith, enough)
    ]

all_four :
    (a b c d : Bool)
    → (a && (not b && (not c && not d))) ≡ true
    → (a ≡ true) × (b ≡ false) × (c ≡ false) × (d ≡ false)
all_four a b c d h = ground (arith, h)

second_of : (a b : Bool) → (a && b) ≡ true → b ≡ true
second_of a b h = ground (arith, h)

filter-is_in :
    (p : String → Bool) (t : String) (ts : List String)
    → is_in t (filter p ts) ≡ true
    → is_in t ts ≡ true
filter-is_in p t [] h = cc
filter-is_in p t (s ∷ ss) h = elim (Bool-cases (str_eq s t)) [
  | inl here ↦ rw here refl
  | inr other ↦ rw other (elim (Bool-cases (p s)) [
    | inl kept ↦ filter-is_in p t ss (rw other at (rw kept at h))
    | inr dropped ↦ filter-is_in p t ss (rw dropped at h)
  ])
]

module _ (r : Reading) where
  -- The words of the complaint and the wanted solution.
  abbrev pub complaint : ConfirmedFacts → String
  complaint f = r.joined (given_texts (f.complaint_summary ∷ f.desired_resolution ∷ []))

  -- A term that can carry the topic: neither scaffolding nor the supplier's name.
  abbrev pub IsTopical : List String → String → Type 0
  IsTopical supplier t =
      (3 ≤ length (codes t))
      × (r.is_digits t ≡ false)
      × (is_in t generic_evidence_terms ≡ false)
      × (is_in t supplier ≡ false)

  topic_tokens-IsTopical :
      (tokens supplier : List String) → All (IsTopical supplier) (topic_tokens r tokens supplier)
  unfolding topic_tokens
  topic_tokens-IsTopical tokens supplier =
      All-map _ _ _
        (λ t h.
          let (long, digits, generic, named) =
            all_four (leb 3 (length (codes t))) (r.is_digits t) (is_in t generic_evidence_terms)
              (is_in t supplier) h in
          (leb→le 3 (length (codes t)) long, digits, generic, named))
        (filter-All _ tokens)

  -- An excerpt is accepted only if consecutive words of it spell an identifier of the case, of
  -- four characters at least, or it shares at least two different topical terms with the
  -- complaint or the wanted solution.
  pub evidence_supports_confirmed_facts_lem :
      (text : String) (f : ConfirmedFacts)
      → evidence_supports_confirmed_facts r text f ≡ true
      → Any
          (λ i.
            (4 ≤ length (compact_of (r.words i)))
            × IsSpelled (compact_of (r.words i)) (r.words text))
          (case_identifiers r f)
        ⊎ ((shared : List String) × (2 ≤ length shared)
            × NoRepeat shared
            × All (IsTopical (r.words (or_blank f.bank_name))) shared
            × All (λ t. is_in t (r.words (complaint f)) ≡ true) shared
            × All (λ t. is_in t (r.words text) ≡ true) shared)
  unfolding evidence_supports_confirmed_facts matches_unique_case_identifier shared_terms
      topic_tokens
  evidence_supports_confirmed_facts_lem text f h =
      let tokens = r.words text in
      let supplier = r.words (or_blank f.bank_name) in
      let factual = r.joined (given_texts (f.complaint_summary ∷ f.desired_resolution ∷ [])) in
      let facts = topic_tokens r (r.words factual) supplier in
      let evidence = topic_tokens r tokens supplier in
      elim (Bool-cases (length tokens == 0)) [
        | inl empty ↦ let no_support = rw empty at h in cc
        | inr words ↦ elim (Bool-cases (matches_unique_case_identifier r tokens f)) [
          | inl matches ↦ inl (
              Any-map _ _ (case_identifiers r f)
                (λ i m.
                  (contains_compact_identifier_lem tokens (compact_of (r.words i))).0
                    (second_of _ _ m))
                (any-Any _ (case_identifiers r f) matches))
          | inr other ↦
              let overlap : has_topical_evidence_overlap facts evidence
                    (evidence_hard_anchor_count r text tokens f)
                  ≡ true =
                rw other at (rw words at h) in
              inr (
                shared_terms facts evidence,
                overlap_shares facts evidence (evidence_hard_anchor_count r text tokens f) overlap,
                filter-NoRepeat (λ t. is_in t evidence) (distinct facts) (distinct-NoRepeat facts),
                All-filter (IsTopical supplier) _ (distinct facts) (
                    distinct-All (IsTopical supplier) facts
                      (topic_tokens-IsTopical (r.words factual) supplier)),
                All-filter _ (λ t. is_in t evidence) (distinct facts)
                    (distinct-All _ facts (
                      All-map _ _ facts (λ t h. filter-is_in _ t (r.words factual) h)
                        (All-is_in facts))),
                All-map _ _ _ (λ t h. filter-is_in _ t tokens h)
                    (filter-All (λ t. is_in t evidence) (distinct facts)),
              )
        ]
      ]
