-- ===== src/Policy/Eligibility.antt =====
-- `provision_is_eligible` of app/consumer/legal_policy.py. Reading a roman numeral out of a
-- hierarchy label is an argument: `numeral label keyword`, "" when the label has none.
use give_exit.Prelude.{
  String, Bool, true, false, not, ◌&&◌, Option, none, some, List, [], ◌∷◌, any, str_eq,
  if◌then◌else◌,
}
use give_exit.Policy.{
  LegalProvision, LegalSource, federal_constitution, consumer_defense_code, data_protection_law,
  civil_code, IndexScope, indexed, audit_only,
}

-- _EXCLUDED_CDC_DIVISIONS: (title, chapter), `none` for a whole title.
abbrev pub excluded_cdc_divisions : List (String × Option String)
excluded_cdc_divisions =
    ("i", some "vii")
    ∷ ("ii", none)
    ∷ ("iii", some "i")
    ∷ ("iii", some "ii")
    ∷ ("iii", some "iii")
    ∷ ("iii", some "iv")
    ∷ ("iv", none)
    ∷ ("v", none)
    ∷ ("vi", none)
    ∷ []

abbrev pub excluded_lgpd_chapters : List String
excluded_lgpd_chapters = "iv" ∷ "viii" ∷ "ix" ∷ "x" ∷ []

abbrev chapter_matches : Option String → String → Bool
chapter_matches none chapter = true
chapter_matches (some c) chapter = str_eq c chapter

-- (title, None) or (title, chapter) is in the excluded divisions.
unfoldable pub is_excluded_cdc : String → String → Bool
is_excluded_cdc title chapter =
    any (λ d. str_eq d.0 title && chapter_matches d.1 chapter) excluded_cdc_divisions

module _ (numeral : Option String → String → String) where
  unfoldable pub eligible_by_source : LegalSource → LegalProvision → Bool
  unfolding is_excluded_cdc
  eligible_by_source federal_constitution p = true
  eligible_by_source civil_code p = not (
      str_eq (numeral p.part "parte") "especial"
      && str_eq (numeral p.book "livro") "i"
      && str_eq (numeral p.title "titulo") "vi")
  eligible_by_source data_protection_law p =
      let chapter = numeral p.chapter "capitulo" in
      not (str_eq chapter "") && not (any (λ c. str_eq c chapter) excluded_lgpd_chapters)
  eligible_by_source consumer_defense_code p =
      let title = numeral p.title "titulo" in
      not (str_eq title "") && not (is_excluded_cdc title (numeral p.chapter "capitulo"))

  abbrev is_indexed : IndexScope → Bool
  is_indexed indexed = true
  is_indexed audit_only = false

  unfoldable pub provision_is_eligible : LegalProvision → Bool
  unfolding eligible_by_source
  provision_is_eligible p =
      if is_indexed p.index_scope then eligible_by_source p.source p else false
