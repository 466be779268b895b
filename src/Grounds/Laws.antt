-- ===== src/Grounds/Laws.antt =====
-- What `select_legal_grounds` of app/consumer/ground_selection.py may cite, and how much.
use give_exit.Prelude.{
  ℕ, ◌+◌, ◌≤◌, ◌<◌, ◌≡◌, refl, inl, inr, String, Text, Bool, true, false, not, Option, List, [],
  ◌∷◌, any, length, filter, All, length-map, length-filter_le, arith, Bool-cases,
}
use native.Mathlib.Nat.{le_trans}
use give_exit.Prelude.Score.{Score}
use give_exit.Rag.{RetrievedChunk}
use give_exit.Policy.{LegalProvision, RetrievalTrace, max_complementary_grounds}
use give_exit.Policy.Window.{
  enforce_cdc_anchor, is_complementary, is_cdc, is_cdc_anchored, source_of,
}
use give_exit.Policy.Window.Laws.{precedence_window_lem, enforce_cdc_anchor_lem}
use give_exit.Grounds.{LegalCorpus, ConsumerCaseFacts, Candidate, LegalGround}
use give_exit.Grounds.Article42.{or_blank, is_unpaid_collection_harassment}
use give_exit.Grounds.Founded.{IsFounded, selected_grounds-IsFounded, enforce_cdc_anchor-All}
use give_exit.Grounds.Merge.{merge_results}
use give_exit.Grounds.Select.{
  quote_grounds, selected_grounds, cited_grounds, max_legal_grounds, max_ground_candidates,
  select_legal_grounds, is_empty,
}

abbrev pub count_complementary {ℓ} : {C : Type ℓ} → List (LegalProvision × C) → ℕ
count_complementary cs = length (filter (λ c. is_complementary (source_of c)) cs)

module _ {Metadata N Authority : Type 0} ⦃s : Score N⦄
    (corpus : LegalCorpus Metadata N Authority) where
  length-quote_grounds :
      (floor : Option N) (n : ℕ) (cs : List (LegalProvision × Candidate Metadata N))
      → n < max_legal_grounds
      → n + length (quote_grounds corpus floor n cs) ≤ max_legal_grounds
  unfolding quote_grounds
  length-quote_grounds floor n [] h = omega arith
  length-quote_grounds floor n ((p, c) ∷ cs) h =
      ground (arith, length-quote_grounds floor n cs, length-quote_grounds floor (n + 1) cs)

  at_most :
      (floor : Option N) (cs : List (LegalProvision × Candidate Metadata N))
      → length (quote_grounds corpus floor 0 cs) ≤ max_legal_grounds
  at_most floor cs = ground (arith, length-quote_grounds floor 0 cs)

  complementary-quote_grounds :
      (floor : Option N) (n : ℕ) (cs : List (LegalProvision × Candidate Metadata N))
      → count_complementary (quote_grounds corpus floor n cs) ≤ count_complementary cs
  unfolding quote_grounds
  complementary-quote_grounds floor n [] = omega arith
  complementary-quote_grounds floor n ((p, c) ∷ cs) =
      ground (
        arith,
        complementary-quote_grounds floor n cs,
        complementary-quote_grounds floor (n + 1) cs,
      )

module _ {ℓ} {C : Type ℓ} where
  length-enforce_cdc_anchor :
      (cs : List (LegalProvision × C)) → length (enforce_cdc_anchor cs) ≤ length cs
  unfolding enforce_cdc_anchor
  length-enforce_cdc_anchor cs =
      ground (arith, length-filter_le (λ c. not (is_cdc_anchored (source_of c))) cs)

  complementary-filter :
      (p : LegalProvision × C → Bool) (cs : List (LegalProvision × C))
      → count_complementary (filter p cs) ≤ count_complementary cs
  complementary-filter p [] = omega arith
  complementary-filter p (c ∷ cs) = ground (arith, complementary-filter p cs)

  complementary-enforce_cdc_anchor :
      (cs : List (LegalProvision × C))
      → count_complementary (enforce_cdc_anchor cs) ≤ count_complementary cs
  unfolding enforce_cdc_anchor
  complementary-enforce_cdc_anchor cs =
      ground (arith, complementary-filter (λ c. not (is_cdc_anchored (source_of c))) cs)

module _ {Metadata N Authority : Type 0} ⦃s : Score N⦄ (corpus : LegalCorpus Metadata N Authority)
    (numeral : Option String → String → String) (half : N → N) where
  length-selected_grounds :
      (supported : List String) (harassment : Bool) (merged : List (RetrievedChunk Metadata N))
      (traces : List (RetrievalTrace N))
      → length (selected_grounds corpus numeral half supported harassment merged traces)
        ≤ max_legal_grounds
  unfolding selected_grounds
  length-selected_grounds supported harassment merged traces = at_most corpus _ _

  complementary-selected_grounds :
      (supported : List String) (harassment : Bool) (merged : List (RetrievedChunk Metadata N))
      (traces : List (RetrievalTrace N))
      → count_complementary
          (selected_grounds corpus numeral half supported harassment merged traces)
        ≤ max_complementary_grounds
  unfolding selected_grounds
  complementary-selected_grounds supported harassment merged traces =
      le_trans (complementary-quote_grounds corpus _ 0 _)
        (precedence_window_lem max_ground_candidates _ _ (omega arith)).1

  module _ (is_consumer_scope : Text → Bool) (fold : Text → Text)
      (threat undue_payment : Text → Bool) (support : List (RetrievalTrace N) → List String)
      (facts : ConsumerCaseFacts) (result_sets : List (List (RetrievedChunk Metadata N)))
      (traces : List (RetrievalTrace N)) where
    -- The grounds of a notice, beside their provisions.
    abbrev cited : List (LegalProvision × LegalGround Authority)
    cited =
        cited_grounds corpus numeral half is_consumer_scope fold threat undue_payment support facts
          result_sets traces

    -- What the gates leave, and the anchor: nothing, or the anchored selection.
    cited_cases :
        (Q : List (LegalProvision × LegalGround Authority) → Type 0)
        → Q []
        → Q (
            enforce_cdc_anchor (
              selected_grounds corpus numeral half
                (support traces)
                (is_unpaid_collection_harassment fold threat undue_payment facts)
                (merge_results result_sets)
                traces))
        → Q cited
    unfolding cited_grounds
    cited_cases Q nothing anchored =
        elim (Bool-cases (is_consumer_scope (or_blank facts.complaint_summary))) [
          | inl i ↦ elim (Bool-cases (is_empty (support traces))) [
            | inl e ↦ rw i (rw e nothing)
            | inr e ↦ elim (Bool-cases (is_empty (merge_results result_sets))) [
              | inl m ↦ rw i (rw e (rw m nothing))
              | inr m ↦ rw i (rw e (rw m anchored))
            ]
          ]
          | inr i ↦ rw i nothing
        ]

    cited-unsupported : is_empty (support traces) ≡ true → cited ≡ []
    unfolding cited_grounds
    cited-unsupported e = elim (Bool-cases (is_consumer_scope (or_blank facts.complaint_summary))) [
      | inl i ↦ rw i (rw e refl)
      | inr i ↦ rw i refl
    ]

    cited-out_of_scope : is_consumer_scope (or_blank facts.complaint_summary) ≡ false → cited ≡ []
    unfolding cited_grounds
    cited-out_of_scope e = rw e refl

    -- Every ground quotes a chunk under that chunk's provision: one that the gate supports,
    -- in force and eligible, or the caput of CDC art. 42 when the facts tell of harassment over an
    -- unpaid debt. There are at most eight, at most three from the complementary codes, one of
    -- the civil code only beside one of the CDC, and none out of scope or with an empty gate.
    pub select_legal_grounds_lem :
        (All
          (IsFounded corpus numeral
            (support traces)
            (is_unpaid_collection_harassment fold threat undue_payment facts))
          cited)
        × (length (
              select_legal_grounds corpus numeral half is_consumer_scope fold threat undue_payment
                support facts result_sets traces)
            ≤ max_legal_grounds)
        × (count_complementary cited ≤ max_complementary_grounds)
        × (any (λ c. is_cdc_anchored (source_of c)) cited ≡ true
            → any (λ c. is_cdc (source_of c)) cited ≡ true)
        × (is_empty (support traces) ≡ true → cited ≡ [])
        × (is_consumer_scope (or_blank facts.complaint_summary) ≡ false → cited ≡ [])
    unfolding select_legal_grounds
    select_legal_grounds_lem = (
      cited_cases (All _) tt
          (enforce_cdc_anchor-All _ _ (selected_grounds-IsFounded corpus numeral _ _ half _ _)),
      rw (length-map cited (λ pg. pg.1)) (
          cited_cases (λ cs. length cs ≤ max_legal_grounds) (omega arith)
            (le_trans (length-enforce_cdc_anchor _) (length-selected_grounds _ _ _ _))),
      cited_cases (λ cs. count_complementary cs ≤ max_complementary_grounds) (omega arith)
          (le_trans (complementary-enforce_cdc_anchor _) (complementary-selected_grounds _ _ _ _)),
      cited_cases
          (λ cs.
            any (λ c. is_cdc_anchored (source_of c)) cs ≡ true
            → any (λ c. is_cdc (source_of c)) cs ≡ true)
          (λ e. e) (enforce_cdc_anchor_lem _).0,
      cited-unsupported,
      cited-out_of_scope,
    )
