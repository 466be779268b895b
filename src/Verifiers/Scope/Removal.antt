-- ===== src/Verifiers/Scope/Removal.antt =====
-- When a complaint is moved out of scope: app/consumer/scope_verifier.py.
use give_exit.Prelude.{
  ◌≡◌, ◌↔◌, refl, inl, inr, String, true, false, Option, none, some, [], ◌∷◌, arith, Bool-cases,
}
use give_exit.Verifiers.Quote.{Texts, IsVerbatim, verified_quote-IsVerbatim}
use give_exit.Verifiers.Scope.{
  Scope, consumer, not_consumer, uncertain, ModelScope, Reply, answer, raised, is_not_consumer,
  softened, settle, quote_of, verify,
}

-- A reply that removes: a `not_consumer` whose quote code finds verbatim in the complaint.
abbrev pub Removes : Texts → String → Reply → Type 0
Removes t complaint (raised error) = ⊥
Removes t complaint (answer a) =
    (a.verdict ≡ not_consumer) × ((found : String) × IsVerbatim t a.quote found (complaint ∷ []))

is_not_consumer_eq : (v : Scope) → is_not_consumer v ≡ true → v ≡ not_consumer
is_not_consumer_eq consumer h = cc
is_not_consumer_eq not_consumer h = refl
is_not_consumer_eq uncertain h = cc

settle_removed :
    (h : String → String) (complaint : String) (a : ModelScope) (o : Option String)
    → (settle h complaint a o).removed ≡ true
    → (q : String) × (o ≡ some q)
unfolding settle
settle_removed h complaint a none e = cc
settle_removed h complaint a (some q) e = (q, refl)

soft_refusal : (v : Scope) → softened v ≡ not_consumer → false ≡ true
soft_refusal consumer e = cc
soft_refusal not_consumer e = cc
soft_refusal uncertain e = cc

settle_verdict :
    (h : String → String) (complaint : String) (a : ModelScope) (o : Option String)
    → ((settle h complaint a o).removed ≡ true) ↔ ((settle h complaint a o).verdict ≡ not_consumer)
unfolding settle
settle_verdict h complaint a none = ((λ e. cc), (λ e. soft_refusal a.verdict e))
settle_verdict h complaint a (some q) = ((λ e. refl), (λ e. refl))

settle_digest :
    (h : String → String) (complaint : String) (a : ModelScope) (o : Option String)
    → (settle h complaint a o).complaint_sha256 ≡ h complaint
unfolding settle
settle_digest h complaint a none = refl
settle_digest h complaint a (some q) = refl

-- A complaint is removed from scope only by an answer `not_consumer` whose quote, of 12 to 300
-- characters, stands verbatim in it; a failure of the model never removes it. The verdict says
-- `not_consumer` exactly when the complaint is removed, and the result is always tied to the
-- hash of the complaint that was read.
pub verify-Removes :
    (sha256_hex : String → String) (t : Texts) (complaint : String) (reply : Reply)
    → ((verify sha256_hex t complaint reply).removed ≡ true → Removes t complaint reply)
      × (((verify sha256_hex t complaint reply).removed ≡ true)
          ↔ ((verify sha256_hex t complaint reply).verdict ≡ not_consumer))
      × ((verify sha256_hex t complaint reply).complaint_sha256 ≡ sha256_hex complaint)
unfolding verify quote_of
verify-Removes h t complaint (raised error) =
    ((λ e. ground (arith, e)), ((λ e. cc), (λ e. cc)), refl)
verify-Removes h t complaint (answer a) = (
  (λ e.
      let (q, found) = settle_removed h complaint a (quote_of h t complaint a) e in
      elim (Bool-cases (is_not_consumer a.verdict)) [
        | inl b ↦
            let at = rw b at found in
            (
              is_not_consumer_eq a.verdict b,
              (q, verified_quote-IsVerbatim t a.quote q (complaint ∷ []) at),
            )
        | inr b ↦ let gone = rw b at found in cc
      ]),
  settle_verdict h complaint a (quote_of h t complaint a),
  settle_digest h complaint a (quote_of h t complaint a),
)
