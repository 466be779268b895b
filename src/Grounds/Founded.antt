-- ===== src/Grounds/Founded.antt =====
-- Where each ground of app/consumer/ground_selection.py comes from.
use give_exit.Prelude.{
  ℕ, ◌+◌, ◌≡◌, refl, sym, ◌⊎◌, inl, inr, String, Bool, true, false, not, ◌||◌, ◌++◌, Option, List,
  [], ◌∷◌, map, filter, All, All-append, All-filter, All-if, All-taken, leb, ◌==◌, str_eq,
  if◌then◌else◌, Bool-cases,
}
use give_exit.Prelude.Dict.{Dict, lookup, insert}
use give_exit.Prelude.DictLaws.{All-insert, All-without}
use give_exit.Prelude.Sorting.{All-sort}
use give_exit.Prelude.Score.{Score}
use give_exit.Rag.{RetrievedChunk}
use give_exit.Policy.{LegalProvision, RetrievalTrace, max_complementary_grounds}
use give_exit.Policy.Window.{
  precedence_window, enforce_cdc_anchor, admit, is_complementary, source_of,
}
use give_exit.Grounds.{LegalCorpus, Ranked, Candidate, LegalGround}
use give_exit.Grounds.Merge.{is_below}
use give_exit.Grounds.Article42.{
  is_candidate, group_from, eligible_candidates, disambiguate_cdc_art_42_candidates, unit_has,
  cdc_art_42_caput_id, cdc_art_42_paragrafo_unico_id, cdc_art_42_id, first_caput,
  fallback_art_42_caput, kept_art_42, put_art_42, replace_art_42, or_fallback, or_no_candidates,
}
use give_exit.Grounds.Select.{
  quoted, quoted_before, provision_candidate, provision_candidates, candidate_leb, quote_grounds,
  selected_grounds, max_legal_grounds,
}

module _ {ℓ κ} {C : Type ℓ} (P : LegalProvision × C → Type κ) where
  All-admit :
      (window : ℕ) (lexical_only : Bool) (a n : ℕ) (cs : List (LegalProvision × C))
      → All P cs
      → All P (admit window lexical_only a n cs)
  unfolding admit
  All-admit window lexical_only a n [] h = tt
  All-admit window lexical_only a n (c ∷ cs) h =
      All-taken P
        (if is_complementary (source_of c)
          then lexical_only || leb max_complementary_grounds n
          else false)
        (a + 1 == window) c _ _ h.0 (All-admit window lexical_only a n cs h.1)
        (All-admit window lexical_only (a + 1) (if is_complementary (source_of c) then n + 1 else n)
          cs h.1)

  pub precedence_window-All :
      (window : ℕ) (lexical_only : Bool) (cs : List (LegalProvision × C))
      → All P cs
      → All P (precedence_window window lexical_only cs)
  unfolding precedence_window
  precedence_window-All window lexical_only cs h = All-admit window lexical_only 0 0 cs h

  pub enforce_cdc_anchor-All :
      (cs : List (LegalProvision × C)) → All P cs → All P (enforce_cdc_anchor cs)
  unfolding enforce_cdc_anchor
  enforce_cdc_anchor-All cs h = All-if P _ _ _ h (All-filter P _ cs h)

module _ {Metadata N Authority : Type 0} ⦃s : Score N⦄ (corpus : LegalCorpus Metadata N Authority)
    (numeral : Option String → String → String) (supported : List String) (harassment : Bool) where
  -- A hit that may be cited: supported, in force and eligible, or the caput that stands in for
  -- the sole paragraph of art. 42.
  abbrev pub IsBacked : RetrievedChunk Metadata N → Type 0
  IsBacked r =
      (is_candidate numeral corpus supported r ≡ true)
      ⊎ ((harassment ≡ true) × (unit_has corpus cdc_art_42_caput_id r ≡ true))

  abbrev AreBacked : String × List (Ranked Metadata N) → Type 0
  AreBacked kv = All (λ c. IsBacked c.1) kv.1

  found-AreBacked :
      (id : String) (d : Dict (List (Ranked Metadata N)))
      → All AreBacked d
      → All (λ c. IsBacked c.1) (or_no_candidates (lookup id d))
  unfolding lookup
  found-AreBacked id [] h = tt
  found-AreBacked id ((j, cs) ∷ d) h = elim (Bool-cases (str_eq j id)) [
    | inl e ↦ rw e h.0
    | inr e ↦ rw e (found-AreBacked id d h.1)
  ]

  group_from-AreBacked :
      (rank : ℕ) (rs : List (RetrievedChunk Metadata N)) (d : Dict (List (Ranked Metadata N)))
      → All AreBacked d
      → All AreBacked (group_from numeral corpus supported rank rs d)
  unfolding group_from
  group_from-AreBacked rank [] d h = h
  group_from-AreBacked rank (r ∷ rs) d h =
      let id = (corpus.provision_for_chunk r.chunk).provision_id in
      elim (Bool-cases (is_candidate numeral corpus supported r)) [
        | inl e ↦ rw e (
            group_from-AreBacked (rank + 1) rs
              (insert id (or_no_candidates (lookup id d) ++ (rank, r) ∷ []) d)
              (All-insert AreBacked id (or_no_candidates (lookup id d) ++ (rank, r) ∷ []) d
                (λ j _.
                  All-append (λ c. IsBacked c.1) (or_no_candidates (lookup id d)) ((rank, r) ∷ [])
                    (found-AreBacked id d h) (inl e, tt))
                h))
        | inr e ↦ rw e (group_from-AreBacked (rank + 1) rs d h)
      ]

  first_caput-IsBacked :
      (rank : ℕ) (score : N) (rs : List (RetrievedChunk Metadata N))
      → harassment ≡ true
      → All (λ c. IsBacked c.1) (first_caput corpus rank score rs)
  unfolding first_caput
  first_caput-IsBacked rank score [] y = tt
  first_caput-IsBacked rank score (r ∷ rs) y =
      elim (Bool-cases (unit_has corpus cdc_art_42_caput_id r)) [
        | inl e ↦ rw e (inr (y, e), tt)
        | inr e ↦ rw e (first_caput-IsBacked rank score rs y)
      ]

  fallback-IsBacked :
      (merged : List (RetrievedChunk Metadata N)) (cs : List (Ranked Metadata N))
      → harassment ≡ true
      → All (λ c. IsBacked c.1) (fallback_art_42_caput corpus merged cs)
  unfolding fallback_art_42_caput
  fallback-IsBacked merged [] y = tt
  fallback-IsBacked merged (c ∷ cs) y = first_caput-IsBacked _ _ merged y

  or_fallback-All :
      (xs ys : List (Ranked Metadata N))
      → All (λ c. IsBacked c.1) xs
      → All (λ c. IsBacked c.1) ys
      → All (λ c. IsBacked c.1) (or_fallback corpus xs ys)
  or_fallback-All [] ys hx hy = hy
  or_fallback-All (x ∷ xs) ys hx hy = hx

  kept_art_42-IsBacked :
      (merged : List (RetrievedChunk Metadata N)) (cs : List (Ranked Metadata N))
      → harassment ≡ true
      → All (λ c. IsBacked c.1) cs
      → All (λ c. IsBacked c.1) (kept_art_42 corpus merged cs)
  unfolding kept_art_42
  kept_art_42-IsBacked merged cs y h =
      or_fallback-All (filter (λ c. not (unit_has corpus cdc_art_42_paragrafo_unico_id c.1)) cs)
        (fallback_art_42_caput corpus merged cs) (All-filter (λ c. IsBacked c.1) _ cs h)
        (fallback-IsBacked merged cs y)

  put_art_42-AreBacked :
      (cs : List (Ranked Metadata N)) (d : Dict (List (Ranked Metadata N)))
      → All (λ c. IsBacked c.1) cs
      → All AreBacked d
      → All AreBacked (put_art_42 corpus cs d)
  unfolding put_art_42
  put_art_42-AreBacked [] d hc h = All-without AreBacked cdc_art_42_id d h
  put_art_42-AreBacked (c ∷ cs) d hc h = All-insert AreBacked cdc_art_42_id (c ∷ cs) d (λ j _. hc) h

  replace_art_42-AreBacked :
      (answer : Bool) (merged : List (RetrievedChunk Metadata N))
      (d : Dict (List (Ranked Metadata N))) (cs : List (Ranked Metadata N))
      → answer ≡ harassment
      → All AreBacked d
      → All (λ c. IsBacked c.1) cs
      → All AreBacked (replace_art_42 corpus answer merged d cs)
  unfolding replace_art_42
  replace_art_42-AreBacked answer merged d [] e h hc = h
  replace_art_42-AreBacked true merged d (c ∷ cs) e h hc =
      put_art_42-AreBacked (kept_art_42 corpus merged (c ∷ cs)) d
        (kept_art_42-IsBacked merged (c ∷ cs) (sym e) hc) h
  replace_art_42-AreBacked false merged d (c ∷ cs) e h hc = h

  disambiguate-AreBacked :
      (merged : List (RetrievedChunk Metadata N)) (d : Dict (List (Ranked Metadata N)))
      → All AreBacked d
      → All AreBacked (disambiguate_cdc_art_42_candidates corpus harassment merged d)
  unfolding disambiguate_cdc_art_42_candidates
  disambiguate-AreBacked merged d h =
      replace_art_42-AreBacked harassment merged d (or_no_candidates (lookup cdc_art_42_id d)) refl
        h (found-AreBacked cdc_art_42_id d h)

  if-IsBacked :
      (b : Bool) (c d : Ranked Metadata N)
      → IsBacked c.1
      → IsBacked d.1
      → IsBacked (if b then d else c).1
  if-IsBacked true c d hc hd = hd
  if-IsBacked false c d hc hd = hc

  quoted-IsBacked :
      (occurrences : Dict ℕ) (c : Ranked Metadata N) (cs : List (Ranked Metadata N))
      → IsBacked c.1
      → All (λ c. IsBacked c.1) cs
      → IsBacked (quoted corpus occurrences c cs).1
  unfolding quoted
  quoted-IsBacked occurrences c [] h hs = h
  quoted-IsBacked occurrences c (d ∷ ds) h hs =
      let b = quoted_before corpus occurrences d.1 c.1 in
      quoted-IsBacked occurrences (if b then d else c) ds (if-IsBacked b c d h hs.0) hs.1

  provision_candidates-IsBacked :
      (occurrences : Dict ℕ) (d : Dict (List (Ranked Metadata N)))
      → All AreBacked d
      → All (λ c. IsBacked c.result) (provision_candidates corpus occurrences d)
  unfolding provision_candidates provision_candidate
  provision_candidates-IsBacked occurrences [] h = tt
  provision_candidates-IsBacked occurrences ((id, []) ∷ d) h =
      provision_candidates-IsBacked occurrences d h.1
  provision_candidates-IsBacked occurrences ((id, c ∷ cs) ∷ d) h = (
    quoted-IsBacked occurrences c cs h.0.0 h.0.1,
    provision_candidates-IsBacked occurrences d h.1,
  )

  -- The ground quotes a hit that may be cited, under the provision of the hit's chunk.
  abbrev pub IsFounded : LegalProvision × LegalGround Authority → Type 0
  IsFounded pg =
      (r : RetrievedChunk Metadata N) × (rank : ℕ) × IsBacked r
      × (pg.0 ≡ corpus.provision_for_chunk r.chunk)
      × (pg.1.authority ≡ corpus.authority_for_chunk r rank)

  abbrev IsOffered : LegalProvision × Candidate Metadata N → Type 0
  IsOffered pc = (pc.0 ≡ corpus.provision_for_chunk pc.1.result.chunk) × IsBacked pc.1.result

  offered :
      (cs : List (Candidate Metadata N))
      → All (λ c. IsBacked c.result) cs
      → All IsOffered (map (λ c. (corpus.provision_for_chunk c.result.chunk, c)) cs)
  offered [] h = tt
  offered (c ∷ cs) h = ((refl, h.0), offered cs h.1)

  quote_grounds-IsFounded :
      (floor : Option N) (n : ℕ) (cs : List (LegalProvision × Candidate Metadata N))
      → All IsOffered cs
      → All IsFounded (quote_grounds corpus floor n cs)
  unfolding quote_grounds
  quote_grounds-IsFounded floor n [] h = tt
  quote_grounds-IsFounded floor n ((p, c) ∷ cs) h =
      All-taken IsFounded (is_below c.best_score floor) (leb max_legal_grounds (n + 1)) _ _ _
        (c.result, c.rank, h.0.1, h.0.0, refl) (quote_grounds-IsFounded floor n cs h.1)
        (quote_grounds-IsFounded floor (n + 1) cs h.1)

  pub selected_grounds-IsFounded :
      (half : N → N) (merged : List (RetrievedChunk Metadata N)) (traces : List (RetrievalTrace N))
      → All IsFounded (selected_grounds corpus numeral half supported harassment merged traces)
  unfolding selected_grounds eligible_candidates
  selected_grounds-IsFounded half merged traces = quote_grounds-IsFounded _ 0 _ (
      precedence_window-All IsOffered _ _ _ (
        offered _ (
          All-sort candidate_leb (λ c. IsBacked c.result) _
            (provision_candidates-IsBacked _ _
              (disambiguate-AreBacked merged _ (group_from-AreBacked 1 merged [] tt))))))
