-- ===== src/Service/Readiness.antt =====
-- When a case is ready, and what a new message does to that: app/consumer/service.py.
use give_exit.Prelude.{
  ℕ, ◌≡◌, ◌≢◌, ◌↔◌, refl, ap, inl, inr, str_eq, String, true, false, not, ◌&&◌, Option, none, some,
  List, [], ◌∷◌, ◌++◌, if◌then◌else◌, arith, Bool-cases,
}
use give_exit.Store.Defs.{
  Payload, CaseRecord, CaseStore, touch, append_message, remember_assistant_reply,
}
use give_exit.Service.{
  Intake, ready_for_notice, notice_generated, is_nothing, is_given, has_accepted_evidence,
  is_out_of_scope, readiness_missing, status_of, hear, remember, reply_to,
}

is_nothing-append {ℓ} :
    {A : Type ℓ} (xs ys : List A) → is_nothing (xs ++ ys) ≡ (is_nothing xs && is_nothing ys)
is_nothing-append [] ys = refl
is_nothing-append (x ∷ xs) ys = refl

module _ {p : Payload} (intake : Intake p) where
  abbrev latest : CaseRecord p → List String
  latest r =
      (if has_accepted_evidence intake r then [] else "accepted_evidence" ∷ [])
      ++ (if r.facts_confirmed then [] else "facts_confirmation" ∷ [])

  abbrev late : CaseRecord p → List String
  late r = (if is_out_of_scope intake r then "consumer_relationship" ∷ [] else []) ++ latest r

  -- A case without a notice is ready exactly when no fact is missing, the complaint is a
  -- consumer's, some evidence was accepted and the facts are confirmed; a case with a notice
  -- says so.
  pub status_of_lem :
      (r : CaseRecord p)
      → (is_nothing (readiness_missing intake r) ≡ (
          is_nothing (intake.missing_fields r.facts)
          && (not (is_out_of_scope intake r)
              && (has_accepted_evidence intake r && r.facts_confirmed))))
        × ((status_of intake r ≡ notice_generated) ↔ (is_given r.notice ≡ true))
        × ((status_of intake r ≡ ready_for_notice)
            ↔ ((is_given r.notice ≡ false) × (is_nothing (readiness_missing intake r) ≡ true)))
  unfolding status_of readiness_missing
  status_of_lem r = (
    ground (
      arith,
      is_nothing-append (intake.missing_fields r.facts) (late r),
      is_nothing-append {A = String}
          (if is_out_of_scope intake r then "consumer_relationship" ∷ [] else []) (latest r),
      is_nothing-append {A = String}
          (if has_accepted_evidence intake r then [] else "accepted_evidence" ∷ [])
          (if r.facts_confirmed then [] else "facts_confirmation" ∷ []),
    ),
    ((λ e. ground (arith, e)), (λ e. ground (arith, e))),
    ((λ e. (ground (arith, e), ground (arith, e))), (λ e. ground (arith, e.0, e.1))),
  )

  remember_keeps :
      (id : Option String) (reply : String) (n : ℕ) (r : CaseRecord p)
      → ((remember intake id reply n r).facts_confirmed ≡ r.facts_confirmed)
        × ((remember intake id reply n r).notice ≡ r.notice)
  unfolding remember remember_assistant_reply
  remember_keeps none reply n r = (refl, refl)
  remember_keeps (some m) reply n r = elim (Bool-cases (str_eq m "")) [
    | inl e ↦ rw e (refl, refl)
    | inr e ↦ rw e (refl, refl)
  ]

  reply_to_fields :
      (text : String) (id : Option String) (wall now : ℕ) (s : CaseStore p) (r : CaseRecord p)
      → ((reply_to intake text id wall now s r).facts_confirmed ≡ false)
        × ((reply_to intake text id wall now s r).notice ≡ none)
  unfolding reply_to hear append_message touch
  reply_to_fields text id wall now s r = remember_keeps id _ s.max_idempotency_keys_per_case _

  unready :
      (r : CaseRecord p)
      → r.facts_confirmed ≡ false
      → is_nothing (readiness_missing intake r) ≡ false
  unready r c = ground (arith, c, (status_of_lem r).0)

  -- After any message the case is neither ready nor has it a notice: its facts await a new
  -- confirmation.
  pub reply_to_lem :
      (text : String) (id : Option String) (wall now : ℕ) (s : CaseStore p) (r : CaseRecord p)
      → ((reply_to intake text id wall now s r).facts_confirmed ≡ false)
        × (status_of intake (reply_to intake text id wall now s r) ≢ ready_for_notice)
        × (status_of intake (reply_to intake text id wall now s r) ≢ notice_generated)
  reply_to_lem text id wall now s r =
      let r' = reply_to intake text id wall now s r in
      let (c, n) = reply_to_fields text id wall now s r in
      let none_given : is_given r'.notice ≡ false = ap is_given n in
      let missing = unready r' c in
      (
        c,
        (λ e. ground (arith, missing, ((status_of_lem r').2.0 e).1)),
        (λ e. ground (arith, none_given, (status_of_lem r').1.0 e)),
      )
