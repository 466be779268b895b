-- ===== src/Service/Kept.antt =====
-- A reply stays with its case while other messages come: `add_message` of
-- app/consumer/service.py.
use give_exit.Prelude.{
  ℕ, suc, ◌+◌, ◌≡◌, ◌≤◌, refl, sym, ap, ◌∙◌, inl, inr, String, Option, none, some, List, [], ◌∷◌,
  length, str_eq, eq_iff, Bool-cases, Option-cases, arith, if◌then◌else◌,
}
use give_exit.Prelude.Dict.{Dict, lookup, insert, lookup-insert, lookup-insert_self}
use give_exit.Store.Defs.{
  Payload, assistant, CaseRecord, CaseStore, Result, ok, err, not_found, touch, append_message,
  remember_assistant_reply, token_digest, authorize, get_authorized,
}
use give_exit.Store.Bounds.{evict_front-fits}
use give_exit.Store.Access.{refreshed}
use give_exit.Service.{
  Intake, Turn, is_content, hear, answer, remember, reply_to, stored_reply, say, authorized_say,
  add_message,
}

pub length-insert_le :
    {V : Type 0} (k : String) (v : V) (d : Dict V) → length (insert k v d) ≤ suc (length d)
unfolding insert
length-insert_le k v [] = omega arith
length-insert_le k v ((j, w) ∷ d) = ground (arith, length-insert_le k v d)

get_authorized-cases :
    {p : Payload} (Q : CaseStore p × Result (CaseRecord p) → Type 0) (h : String → String)
    (j token : String) (now : ℕ) (s : CaseStore p)
    → Q (s, err not_found)
    → ((r : CaseRecord p)
        → lookup j s.cases ≡ some r
        → Q (record s { cases = insert j (refreshed h now r) s.cases }, ok (refreshed h now r)))
    → Q (get_authorized h j token now s)
unfolding get_authorized authorize
get_authorized-cases Q h j token now s refused granted = elim (Option-cases (lookup j s.cases)) [
  | inl none_there ↦ rw none_there refused
  | inr (r, found) ↦ elim (Bool-cases (str_eq r.token_digest (token_digest h j token))) [
    | inl right ↦ rw found (rw right (granted r found))
    | inr wrong ↦ rw found (rw wrong refused)
  ]
]

-- A message that a client sends to some case.
pub record Sending : Type 0 where
  pub case_id : String
  pub token : String
  pub text : String
  pub client_message_id : Option String
  pub seen : ℕ
  pub wall : ℕ
  pub now : ℕ

module _ {p : Payload} (intake : Intake p) (h : String → String) where
  abbrev pub send : Sending → CaseStore p → CaseStore p × Turn p
  send x s = add_message intake h x.case_id x.token x.text x.client_message_id x.seen x.wall x.now s

  -- The store after the messages.
  abbrev pub send_all : List Sending → CaseStore p → CaseStore p
  send_all [] s = s
  send_all (x ∷ xs) s = send_all xs (send x s).0

  module _ (k m digest reply : String) where
    -- The case keeps its token and the reply, with room for this many more.
    abbrev pub IsKept : ℕ → CaseStore p → Type 0
    IsKept n s =
        (r : CaseRecord p) × (lookup k s.cases ≡ some r)
        × (r.token_digest ≡ digest)
        × (lookup m r.idempotent_messages ≡ some reply)
        × (length r.idempotent_messages + n ≤ s.max_idempotency_keys_per_case)

    -- What a change of a record has to keep.
    abbrev Keeps : ℕ → ℕ → ℕ → CaseRecord p → CaseRecord p → Type 0
    Keeps limit a b r r' =
        (r'.token_digest ≡ r.token_digest)
        × (lookup m r.idempotent_messages ≡ some reply
            → length r.idempotent_messages + a ≤ limit
            → (lookup m r'.idempotent_messages ≡ some reply)
              × (length r'.idempotent_messages + b ≤ limit))

    put-IsKept :
        (j : String) (a b : ℕ) (s : CaseStore p) (r r' : CaseRecord p)
        → b ≤ a
        → lookup j s.cases ≡ some r
        → Keeps s.max_idempotency_keys_per_case a b r r'
        → IsKept a s
        → IsKept b (record s { cases = insert j r' s.cases })
    put-IsKept j a b s r r' le at (same, keep) (rk, found, right, stored, room) =
        elim (Bool-cases (str_eq j k)) [
          | inl e ↦
              let jk : j ≡ k = (eq_iff j k).0 e in
              let one : some r ≡ some rk = sym at ∙ (ap (λ x. lookup x s.cases) jk ∙ found) in
              let rr : r ≡ rk = cc in
              let kept =
                keep (ap (λ (x : CaseRecord p). lookup m x.idempotent_messages) rr ∙ stored)
                  (rw rr room) in
              (
                r',
                lookup-insert j k r' s.cases ∙ (rw e refl),
                same ∙ ap (λ (x : CaseRecord p). x.token_digest) rr ∙ right,
                kept.0,
                kept.1,
              )
          | inr e ↦ (
            rk,
            lookup-insert j k r' s.cases ∙ (rw e found),
            right,
            stored,
            omega (arith, room, le),
          )
        ]

    remember-Keeps :
        (id : Option String) (a : String) (limit n : ℕ) (r : CaseRecord p)
        → stored_reply intake id r ≡ none
        → Keeps limit (suc n) n r (remember intake id a limit r)
    unfolding remember remember_assistant_reply stored_reply
    remember-Keeps none a limit n r new = (refl, (λ e room. (e, omega (arith, room))))
    remember-Keeps (some i) a limit n r new = elim (Bool-cases (str_eq i "")) [
      | inl empty ↦ rw empty (refl, (λ e room. (e, omega (arith, room))))
      | inr named ↦
          let fresh : lookup i r.idempotent_messages ≡ none = rw named at new in
          rw named (
            refl,
            λ e room.
                let grown = length-insert_le i a r.idempotent_messages in
                let fits =
                  evict_front-fits limit (insert i a r.idempotent_messages)
                    (omega (arith, grown, room)) in
                rw fits (
                  lookup-insert i m a r.idempotent_messages ∙ ground (arith, e, fresh, eq_iff i m),
                  omega (arith, grown, room),
                ),
          )
    ]

    stored_reply-same :
        (id : Option String) (r r' : CaseRecord p)
        → r.idempotent_messages ≡ r'.idempotent_messages
        → stored_reply intake id r ≡ stored_reply intake id r'
    unfolding stored_reply
    stored_reply-same none r r' e = refl
    stored_reply-same (some i) r r' e = ap (λ d. if str_eq i "" then none else lookup i d) e

    reply_to-Keeps :
        (text : String) (id : Option String) (wall now n : ℕ) (s : CaseStore p) (r : CaseRecord p)
        → stored_reply intake id r ≡ none
        → Keeps s.max_idempotency_keys_per_case (suc n) n r (reply_to intake text id wall now s r)
    unfolding reply_to touch append_message hear
    reply_to-Keeps text id wall now n s r new =
        let heard = hear intake text s.max_messages_per_case r in
        let said' =
          append_message (record { role = assistant; content = answer intake heard })
            s.max_messages_per_case heard in
        remember-Keeps id (answer intake heard) s.max_idempotency_keys_per_case n said'
          (stored_reply-same id said' r refl ∙ new)

    hear-Keeps :
        (text : String) (messages limit n : ℕ) (r : CaseRecord p)
        → Keeps limit (suc n) n r (hear intake text messages r)
    unfolding hear append_message
    hear-Keeps text messages limit n r = (refl, (λ e room. (e, omega (arith, room))))

    fewer-IsKept : (n : ℕ) (s : CaseStore p) → IsKept (suc n) s → IsKept n s
    fewer-IsKept n s (r, found, right, stored, room) =
        (r, found, right, stored, omega (arith, room))

    say-IsKept :
        (j text : String) (id : Option String) (wall now n : ℕ) (s : CaseStore p) (r : CaseRecord p)
        (o : Option String)
        → stored_reply intake id r ≡ o
        → lookup j s.cases ≡ some r
        → IsKept (suc n) s
        → IsKept n (say intake j text id wall now s r o).0
    unfolding say
    say-IsKept j text id wall now n s r (some old) e at kept = fewer-IsKept n s kept
    say-IsKept j text id wall now n s r none e at kept =
        let heard = hear intake text s.max_messages_per_case r in
        elim (Bool-cases (is_content (intake.strip text))) [
          | inr blank ↦ rw blank (fewer-IsKept n s kept)
          | inl told ↦ elim (Bool-cases (is_content (answer intake heard))) [
            | inr silent ↦ rw told (
                rw silent (
                  put-IsKept j (suc n) n s r heard (omega arith) at
                    (hear-Keeps text s.max_messages_per_case s.max_idempotency_keys_per_case n r)
                    kept))
            | inl answered ↦ rw told (
                rw answered (
                  put-IsKept j (suc n) n s r (reply_to intake text id wall now s r) (omega arith) at
                    (reply_to-Keeps text id wall now n s r e) kept))
          ]
        ]

    send-IsKept : (n : ℕ) (x : Sending) (s : CaseStore p) → IsKept (suc n) s → IsKept n (send x s).0
    unfolding add_message authorized_say
    send-IsKept n x s kept =
        get_authorized-cases
          (λ out.
            IsKept n
              (authorized_say intake x.case_id x.text x.client_message_id x.wall x.now out).0)
          h x.case_id x.token x.seen s (fewer-IsKept n s kept)
          (λ r at.
            let s1 : CaseStore p = record s {
              cases = insert x.case_id (refreshed h x.seen r) s.cases;
            } in
            say-IsKept x.case_id x.text x.client_message_id x.wall x.now n s1 (refreshed h x.seen r)
              (stored_reply intake x.client_message_id (refreshed h x.seen r)) refl
              (lookup-insert_self x.case_id (refreshed h x.seen r) s.cases)
              (put-IsKept x.case_id (suc n) (suc n) s r (refreshed h x.seen r) (omega arith) at
                (refl, (λ e room. (e, room))) kept))

    pub send_all-IsKept :
        (xs : List Sending) (s : CaseStore p) → IsKept (length xs) s → IsKept 0 (send_all xs s)
    send_all-IsKept [] s kept = kept
    send_all-IsKept (x ∷ xs) s kept =
        send_all-IsKept xs (send x s).0 (send-IsKept (length xs) x s kept)
