-- ===== src/Verifiers/Quote.antt =====
-- `verified_quote` of app/consumer/ground_verifier.py. White space and the case-insensitive search
-- of a regular expression are an interface.
use give_exit.Prelude.{
  ℕ, ◌≤◌, ◌≡◌, inl, inr, String, ◌&&◌, Option, none, some, List, [], ◌∷◌, leb, if◌then◌else◌, arith,
  Bool-cases, Option-cases, Any,
}

pub record Texts : Type 0 where
  -- " ".join(text.split())
  pub compact : String → String
  pub chars : String → ℕ
  -- The match of the escaped pattern, ignoring letter case, as the text spells it.
  pub search : String → String → Option String

abbrev pub min_quote_chars : ℕ
min_quote_chars = 12

abbrev pub max_quote_chars : ℕ
max_quote_chars = 300

-- The first match, or what the rest of the loop finds.
unfoldable pub or_next : Option String → Option String → Option String
or_next none rest = rest
or_next (some m) rest = some m

module _ (t : Texts) where
  unfoldable pub first_match : String → List String → Option String
  unfolding or_next
  first_match pattern [] = none
  first_match pattern (s ∷ ss) = or_next (t.search pattern (t.compact s)) (first_match pattern ss)

  unfoldable pub verified_quote : String → List String → Option String
  unfolding first_match
  verified_quote quote sources =
      let wanted = t.compact quote in
      if leb min_quote_chars (t.chars wanted) && leb (t.chars wanted) max_quote_chars
      then first_match wanted sources
      else none

  -- Of a length that proves something, and found in one of the sources.
  abbrev pub IsVerbatim : String → String → List String → Type 0
  IsVerbatim quote found sources =
      (min_quote_chars ≤ t.chars (t.compact quote))
      × (t.chars (t.compact quote) ≤ max_quote_chars)
      × Any (λ s. t.search (t.compact quote) (t.compact s) ≡ some found) sources

  first_match-Any :
      (pattern found : String) (ss : List String)
      → first_match pattern ss ≡ some found
      → Any (λ s. t.search pattern (t.compact s) ≡ some found) ss
  unfolding first_match or_next
  first_match-Any pattern found [] e = cc
  first_match-Any pattern found (s ∷ ss) e = elim (Option-cases (t.search pattern (t.compact s))) [
    | inl missing ↦ let later = rw missing at e in inr (first_match-Any pattern found ss later)
    | inr (m, here) ↦ let same = rw here at e in inl cc
  ]

  pub verified_quote-IsVerbatim :
      (quote found : String) (sources : List String)
      → verified_quote quote sources ≡ some found
      → IsVerbatim quote found sources
  unfolding verified_quote
  verified_quote-IsVerbatim quote found sources e =
      let wanted = t.compact quote in
      elim (Bool-cases
        (leb min_quote_chars (t.chars wanted) && leb (t.chars wanted) max_quote_chars)) [
          | inl fits ↦
              let matched = rw fits at e in
              (
                ground (arith, fits),
                ground (arith, fits),
                first_match-Any wanted found sources matched,
              )
          | inr misfit ↦ let gone = rw misfit at e in cc
        ]
