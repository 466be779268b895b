-- ===== src/Grounds/Article42.antt =====
-- `_eligible_candidates` and `_disambiguate_cdc_art_42_candidates` of
-- app/consumer/ground_selection.py. Case folding with accents removed and the searches of the two
-- regular expressions are arguments.
use give_exit.Prelude.{
  ℕ, ◌+◌, String, Text, Bool, true, false, not, ◌&&◌, ◌||◌, ◌++◌, Option, none, some, List, [], ◌∷◌,
  filter, any, codes, ltb, str_eq, if◌then◌else◌, min,
}
use give_exit.Prelude.Dict.{Dict, lookup, insert, without}
use give_exit.Prelude.Score.{Score}
use give_exit.Rag.{RetrievedChunk}
use give_exit.Policy.{ProvisionStatus, active, vetoed, revoked}
use give_exit.Policy.Eligibility.{provision_is_eligible}
use give_exit.Grounds.{LegalTextUnit, LegalCorpus, ConsumerCaseFacts, Ranked}

abbrev pub cdc_art_42_id : String
cdc_art_42_id = "br-cdc-art-42"

abbrev pub cdc_art_42_caput_id : String
cdc_art_42_caput_id = "br-cdc-art-42-caput"

abbrev pub cdc_art_42_paragrafo_unico_id : String
cdc_art_42_paragrafo_unico_id = "br-cdc-art-42-paragrafo-unico"

abbrev pub is_active : ProvisionStatus → Bool
is_active active = true
is_active vetoed = false
is_active revoked = false

abbrev pub unit_is_active : Option LegalTextUnit → Bool
unit_is_active none = true
unit_is_active (some u) = is_active u.status

abbrev pub unit_is : String → Option LegalTextUnit → Bool
unit_is id none = false
unit_is id (some u) = str_eq u.unit_id id

abbrev pub or_no_candidates {ℓ} : {A : Type ℓ} → Option (List A) → List A
or_no_candidates none = []
or_no_candidates (some xs) = xs

module _ {Metadata N Authority : Type 0} (numeral : Option String → String → String)
    (corpus : LegalCorpus Metadata N Authority) where
  -- What a hit must satisfy to be a candidate.
  unfoldable pub is_candidate : List String → RetrievedChunk Metadata N → Bool
  is_candidate supported r =
      any (λ id. str_eq id r.chunk.chunk_id) supported
      && is_active (corpus.provision_for_chunk r.chunk).status
      && provision_is_eligible numeral (corpus.provision_for_chunk r.chunk)
      && unit_is_active (corpus.unit_for_chunk r.chunk)

  -- The loop, from `rank`, on the candidates by provision.
  unfoldable pub group_from :
      List String
      → ℕ
      → List (RetrievedChunk Metadata N)
      → Dict (List (Ranked Metadata N))
      → Dict (List (Ranked Metadata N))
  group_from supported rank [] d = d
  group_from supported rank (r ∷ rs) d =
      let id = (corpus.provision_for_chunk r.chunk).provision_id in
      group_from supported (rank + 1) rs (
        if is_candidate supported r
        then insert id (or_no_candidates (lookup id d) ++ (rank, r) ∷ []) d
        else d)

  unfoldable pub eligible_candidates :
      List (RetrievedChunk Metadata N) → List String → Dict (List (Ranked Metadata N))
  eligible_candidates merged supported = group_from supported 1 merged []

-- min(rank for rank, _ in candidates), of a first candidate and the others
unfoldable pub least_rank : {Metadata N : Type 0} → ℕ → List (Ranked Metadata N) → ℕ
least_rank rank [] = rank
least_rank rank (c ∷ cs) = min rank (least_rank c.0 cs)

-- max(a, b): the first unless the second is greater
unfoldable pub greater : {N : Type 0} ⦃s : Score N⦄ → N → N → N
greater ⦃s⦄ a b = if s.score_leb b a then a else b

unfoldable pub greatest_score :
    {Metadata N : Type 0} ⦃s : Score N⦄ → N → List (Ranked Metadata N) → N
unfolding greater
greatest_score score [] = score
greatest_score score (c ∷ cs) = greatest_score (greater score c.1.score) cs

-- `or ''`
abbrev pub or_blank : Option String → Text
or_blank none = []
or_blank (some s) = codes s

unfoldable pub is_unpaid_collection_harassment :
    (fold : Text → Text) (harassment undue_payment : Text → Bool) → ConsumerCaseFacts → Bool
is_unpaid_collection_harassment fold harassment undue_payment facts =
    let narrative = or_blank facts.complaint_summary ++ 32 ∷ or_blank facts.desired_resolution in
    let paid : Bool = elim facts.improper_payment_amount [
      | none ↦ false
      | some d ↦ ltb 0 d.coefficient
    ] in
    if facts.article_42_double_repayment_requested || paid
    then false
    else harassment (fold narrative) && not (undue_payment (fold narrative))

module _ {Metadata N Authority : Type 0} ⦃s : Score N⦄
    (corpus : LegalCorpus Metadata N Authority) where
  abbrev pub unit_has : String → RetrievedChunk Metadata N → Bool
  unit_has id r = unit_is id (corpus.unit_for_chunk r.chunk)

  -- The first merged hit on the caput takes the best rank and score of the candidates.
  unfoldable pub first_caput : ℕ → N → List (RetrievedChunk Metadata N) → List (Ranked Metadata N)
  first_caput rank score [] = []
  first_caput rank score (r ∷ rs) =
      let rest = first_caput rank score rs in
      if unit_has cdc_art_42_caput_id r
      then (
        rank,
        record { chunk = r.chunk; score = greater r.score score; channel_ranks = r.channel_ranks },
      )
        ∷ []
      else rest

  unfoldable pub fallback_art_42_caput :
      List (RetrievedChunk Metadata N) → List (Ranked Metadata N) → List (Ranked Metadata N)
  unfolding first_caput greatest_score least_rank
  fallback_art_42_caput merged [] = []
  fallback_art_42_caput merged (c ∷ cs) =
      first_caput (least_rank c.0 cs) (greatest_score c.1.score cs) merged

  -- An empty `kept` falls back.
  abbrev pub or_fallback :
      List (Ranked Metadata N) → List (Ranked Metadata N) → List (Ranked Metadata N)
  or_fallback [] fallback = fallback
  or_fallback (c ∷ cs) fallback = c ∷ cs

  unfoldable pub kept_art_42 :
      List (RetrievedChunk Metadata N) → List (Ranked Metadata N) → List (Ranked Metadata N)
  kept_art_42 merged candidates =
      or_fallback (filter (λ c. not (unit_has cdc_art_42_paragrafo_unico_id c.1)) candidates)
        (fallback_art_42_caput merged candidates)

  -- `updated`, with the kept candidates or without the article.
  unfoldable pub put_art_42 :
      List (Ranked Metadata N) → Dict (List (Ranked Metadata N)) → Dict (List (Ranked Metadata N))
  put_art_42 [] d = without cdc_art_42_id d
  put_art_42 (c ∷ cs) d = insert cdc_art_42_id (c ∷ cs) d

  -- The rest of the function, on the candidates of the article.
  unfoldable pub replace_art_42 :
      Bool
      → List (RetrievedChunk Metadata N)
      → Dict (List (Ranked Metadata N))
      → List (Ranked Metadata N)
      → Dict (List (Ranked Metadata N))
  replace_art_42 harassment merged d [] = d
  replace_art_42 harassment merged d (c ∷ cs) =
      if harassment then put_art_42 (kept_art_42 merged (c ∷ cs)) d else d

  -- `harassment` is the answer of `_is_unpaid_collection_harassment`.
  unfoldable pub disambiguate_cdc_art_42_candidates :
      Bool
      → List (RetrievedChunk Metadata N)
      → Dict (List (Ranked Metadata N))
      → Dict (List (Ranked Metadata N))
  disambiguate_cdc_art_42_candidates harassment merged d =
      replace_art_42 harassment merged d (or_no_candidates (lookup cdc_art_42_id d))
