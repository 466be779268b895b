-- ===== src/Evidence/Support.antt =====
-- Whether an excerpt supports the confirmed facts: app/consumer/evidence_support.py. Its regular
-- expressions, the words of a text, the amounts in it and the test for digits are an interface.
pub mod Identifiers
pub mod Accepts
use give_exit.Prelude.{
  ℕ, zero, suc, ◌+◌, String, Bool, true, false, not, ◌||◌, ◌&&◌, Option, none, some, List, [], ◌∷◌,
  ◌++◌, map, ltb, leb, ◌==◌, length, take, filter, any, all, str_eq, str_leb, Text, codes, text_eq,
  if◌then◌else◌,
}
use give_exit.Prelude.Sorting.{sort}

pub record Reading : Type 0 where
  -- portuguese_lexical_tokens
  pub words : String → List String
  pub is_digits : String → Bool
  -- the amounts of extract_brl_mentions, in cents
  pub amounts : String → List ℕ
  -- _DATE_ANCHOR_RE, _EMBEDDED_IDENTIFIER_RE, and _LABELED_IDENTIFIER_RE with a digit in the match
  pub dates : String → List String
  pub embedded_identifiers : String → List String
  pub labeled_identifiers : String → List String
  -- " ".join
  pub joined : List String → String

-- `ConsumerCaseFacts`, the fields that the support reads
pub record ConfirmedFacts : Type 0 where
  pub bank_name : Option String
  pub complaint_summary : Option String
  pub incident_date_or_period : Option String
  pub desired_resolution : Option String
  pub prior_protocols : List String
  pub direct_loss_amount : Option ℕ
  pub improper_payment_amount : Option ℕ
  pub unsuccessful_scenario_cost_amount : Option ℕ

abbrev pub generic_evidence_terms : List String
generic_evidence_terms =
    "comprova" ∷ "comprovacao" ∷ "comunicacao" ∷ "comunicacoes" ∷ "data" ∷ "datas" ∷ "documento"
    ∷ "evidencia" ∷ "fato" ∷ "fatos" ∷ "prejuizo" ∷ "providencia" ∷ "providencias" ∷ "quero"
    ∷ "solicitada" ∷ "solicitado" ∷ "solucao" ∷ "tentativa" ∷ "valor" ∷ "valores" ∷ []

abbrev pub is_in : String → List String → Bool
is_in t ts = any (λ s. str_eq s t) ts

-- set(ts), in the order of the last occurrences
unfoldable pub distinct : List String → List String
distinct [] = []
distinct (t ∷ ts) = let rest = distinct ts in if is_in t ts then rest else t ∷ rest

abbrev pub or_blank : Option String → String
or_blank none = ""
or_blank (some t) = t

-- [value for value in values if value]
unfoldable pub given_texts : List (Option String) → List String
given_texts [] = []
given_texts (none ∷ vs) = given_texts vs
given_texts (some t ∷ vs) = let rest = given_texts vs in if str_eq t "" then rest else t ∷ rest

-- tokens[: len(sequence)] == sequence
unfoldable pub begins_with : List String → List String → Bool
begins_with [] tokens = true
begins_with (s ∷ ss) [] = false
begins_with (s ∷ ss) (t ∷ ts) = str_eq s t && begins_with ss ts

-- The sequence at some start; a start with too few tokens left does not match.
unfoldable pub begins_somewhere : List String → List String → Bool
unfolding begins_with
begins_somewhere sequence [] = begins_with sequence []
begins_somewhere sequence (t ∷ ts) = begins_with sequence (t ∷ ts) || begins_somewhere sequence ts

unfoldable pub contains_token_sequence : List String → List String → Bool
unfolding begins_somewhere
contains_token_sequence tokens [] = false
contains_token_sequence tokens (s ∷ ss) =
    if ltb (length tokens) (length (s ∷ ss)) then false else begins_somewhere (s ∷ ss) tokens

-- The inner loop, on the tokens from `end` on.
unfoldable pub extends_to : Text → Text → List String → Bool
extends_to identifier candidate [] = false
extends_to identifier candidate (t ∷ ts) =
    let grown = candidate ++ codes t in
    let more = extends_to identifier grown ts in
    if text_eq grown identifier
    then true
    else if leb (length identifier) (length grown)
    then false
    else more

unfoldable pub extends_somewhere : Text → List String → Bool
unfolding extends_to
extends_somewhere identifier [] = false
extends_somewhere identifier (t ∷ ts) =
    extends_to identifier [] (t ∷ ts) || extends_somewhere identifier ts

unfoldable pub contains_compact_identifier : List String → Text → Bool
unfolding extends_somewhere
contains_compact_identifier tokens identifier =
    if ltb (length identifier) 4 then false else extends_somewhere identifier tokens

-- "".join of words
unfoldable pub compact_of : List String → Text
compact_of [] = []
compact_of (w ∷ ws) = codes w ++ compact_of ws

-- set(zip(tokens, tokens[1:]))
unfoldable pub bigrams : List String → List (String × String)
bigrams [] = []
bigrams (t ∷ []) = []
bigrams (t ∷ (u ∷ us)) = (t, u) ∷ bigrams (u ∷ us)

abbrev pub shares_bigram : List (String × String) → List (String × String) → Bool
shares_bigram xs ys = any (λ x. any (λ y. str_eq x.0 y.0 && str_eq x.1 y.1) ys) xs

-- itertools.combinations(terms, n)
unfoldable pub combinations : ℕ → List String → List (List String)
combinations zero ts = [] ∷ []
combinations (suc n) [] = []
combinations (suc n) (t ∷ ts) = map (λ c. t ∷ c) (combinations n ts) ++ combinations (suc n) ts

unfoldable pub proximate_term_groups : ℕ → ℕ → List String → List String → List (List String)
unfolding distinct combinations
proximate_term_groups group_size window_width allowed [] = []
proximate_term_groups group_size window_width allowed (t ∷ ts) =
    let window = take window_width (t ∷ ts) in
    let terms = sort str_leb (filter (λ w. is_in w allowed) (distinct window)) in
    combinations group_size terms ++ proximate_term_groups group_size window_width allowed ts

-- not isdisjoint
unfoldable pub shares_group : List (List String) → List (List String) → Bool
shares_group xs ys = any (λ x. any (λ y. length x == length y && begins_with x y) ys) xs

-- set(fact_tokens).intersection(evidence_tokens)
unfoldable pub shared_terms : List String → List String → List String
unfolding distinct
shared_terms fact_tokens evidence_tokens =
    filter (λ t. is_in t evidence_tokens) (distinct fact_tokens)

unfoldable pub has_topical_evidence_overlap : List String → List String → ℕ → Bool
unfolding shared_terms bigrams proximate_term_groups shares_group
has_topical_evidence_overlap fact_tokens evidence_tokens hard_anchor_count =
    let shared = shared_terms fact_tokens evidence_tokens in
    let required_terms = if ltb 0 hard_anchor_count then 2 else 3 in
    let window_width = if ltb 0 hard_anchor_count then 4 else 6 in
    if ltb (length shared) 2
    then false
    else if leb 2 hard_anchor_count
    then true
    else if shares_bigram (bigrams fact_tokens) (bigrams evidence_tokens)
    then true
    else if ltb (length shared) required_terms
    then false
    else shares_group (proximate_term_groups required_terms window_width shared fact_tokens)
        (proximate_term_groups required_terms window_width shared evidence_tokens)

abbrev pub fact_texts : ConfirmedFacts → List String
fact_texts f =
    or_blank f.incident_date_or_period
    ∷ or_blank f.complaint_summary
    ∷ or_blank f.desired_resolution
    ∷ []

-- The amounts that are there and positive.
unfoldable pub positive_amounts : List (Option ℕ) → List ℕ
positive_amounts [] = []
positive_amounts (none ∷ vs) = positive_amounts vs
positive_amounts (some n ∷ vs) =
    let rest = positive_amounts vs in if ltb 0 n then n ∷ rest else rest

abbrev pub counted : Bool → ℕ
counted true = 1
counted false = 0

module _ (r : Reading) where
  unfoldable pub topic_tokens : List String → List String → List String
  topic_tokens tokens supplier =
      filter
        (λ t.
          leb 3 (length (codes t))
          && (not (r.is_digits t)
              && (not (is_in t generic_evidence_terms) && not (is_in t supplier))))
        tokens

  unfoldable pub amounts_in : List String → List ℕ
  amounts_in [] = []
  amounts_in (t ∷ ts) = r.amounts t ++ amounts_in ts

  unfoldable pub has_amount : String → ConfirmedFacts → Bool
  unfolding amounts_in positive_amounts given_texts
  has_amount text f =
      let fact_amounts =
        positive_amounts (
          f.direct_loss_amount ∷ f.improper_payment_amount ∷ f.unsuccessful_scenario_cost_amount
          ∷ [])
        ++ amounts_in (given_texts (f.complaint_summary ∷ f.desired_resolution ∷ [])) in
      any (λ a. any (λ b. a == b) (r.amounts text)) fact_amounts

  unfoldable pub all_dates : List String → List String
  all_dates [] = []
  all_dates (t ∷ ts) = r.dates t ++ all_dates ts

  unfoldable pub evidence_hard_anchor_count : String → List String → ConfirmedFacts → ℕ
  unfolding has_amount contains_token_sequence all_dates
  evidence_hard_anchor_count text text_tokens f =
      counted (has_amount text f)
      + counted (contains_token_sequence text_tokens (r.words (or_blank f.bank_name)))
      + counted
          (any (λ a. contains_token_sequence text_tokens (r.words a)) (all_dates (fact_texts f)))

  unfoldable pub embedded_in : List String → List String
  embedded_in [] = []
  embedded_in (p ∷ ps) = r.embedded_identifiers p ++ embedded_in ps

  unfoldable pub labeled_in : List String → List String
  labeled_in [] = []
  labeled_in (t ∷ ts) = r.labeled_identifiers t ++ labeled_in ts

  unfoldable pub case_identifiers : ConfirmedFacts → List String
  unfolding embedded_in labeled_in
  case_identifiers f =
      f.prior_protocols ++ embedded_in f.prior_protocols ++ labeled_in (fact_texts f)

  unfoldable pub matches_unique_case_identifier : List String → ConfirmedFacts → Bool
  unfolding case_identifiers compact_of contains_compact_identifier
  matches_unique_case_identifier text_tokens f =
      any
        (λ identifier.
          leb 4 (length (compact_of (r.words identifier)))
          && contains_compact_identifier text_tokens (compact_of (r.words identifier)))
        (case_identifiers f)

  unfoldable pub evidence_supports_confirmed_facts : String → ConfirmedFacts → Bool
  unfolding matches_unique_case_identifier has_topical_evidence_overlap topic_tokens given_texts
      evidence_hard_anchor_count
  evidence_supports_confirmed_facts text f =
      let text_tokens = r.words text in
      let supplier = r.words (or_blank f.bank_name) in
      let factual = r.joined (given_texts (f.complaint_summary ∷ f.desired_resolution ∷ [])) in
      if length text_tokens == 0
      then false
      else if matches_unique_case_identifier text_tokens f
      then true
      else has_topical_evidence_overlap (topic_tokens (r.words factual) supplier)
          (topic_tokens text_tokens supplier) (evidence_hard_anchor_count text text_tokens f)
