-- ===== src/Verifiers/Ground/DropOnly.antt =====
-- What the ground verifier may do to the selected grounds: app/consumer/ground_verifier.py.
use give_exit.Prelude.{◌≡◌, String, true, some, List, [], ◌∷◌, map}
use give_exit.Verifiers.Quote.{Texts, IsVerbatim}
use give_exit.Verifiers.Ground.{
  applies, GroundVerification, LegalAuthority, CheckedGround, official_of,
}

-- The first list is the second without some of its elements.
pub data IsPart {ℓ} {A : Type ℓ} : List A → List A → Type ℓ where
  ends : IsPart [] []
  kept : (a : A) {xs ys : List A} → IsPart xs ys → IsPart (a ∷ xs) (a ∷ ys)
  dropped : (a : A) {xs ys : List A} → IsPart xs ys → IsPart xs (a ∷ ys)

abbrev authorities : List CheckedGround → List LegalAuthority
authorities gs = map (λ g. g.authority) gs

module _ (t : Texts) where
  -- A record that says `verified` says `applies`, with two quotes that code found.
  abbrev pub IsProved : List String → String → GroundVerification → Type 0
  IsProved fact_sources official r =
      r.verified ≡ true
      → (r.verdict ≡ applies)
        × ((fact found provision cited : String) × (r.fact_quote ≡ some found)
            × (r.provision_quote ≡ some cited)
            × IsVerbatim t fact found fact_sources
            × IsVerbatim t provision cited (official ∷ []))

  -- Every ground carries the verifier's record, and a verified one is proved by its own text.
  abbrev pub IsChecked : List String → CheckedGround → Type 0
  IsChecked fact_sources g =
      (r : GroundVerification) × (g.verification ≡ some r)
      × IsProved fact_sources (official_of t g) r
