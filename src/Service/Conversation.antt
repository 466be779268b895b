-- ===== src/Service/Conversation.antt =====
-- A message sent twice under one id: `add_message` of app/consumer/service.py.
use give_exit.Prelude.{
  ℕ, suc, ◌+◌, ◌≡◌, ◌≤◌, refl, sym, subst, ap, ◌∙◌, String, Bool, true, false, none, some, List,
  length, str_eq, arith,
}
use give_exit.Prelude.Dict.{lookup, insert, lookup-insert_self}
use give_exit.Store.Defs.{
  Payload, assistant, CaseRecord, CaseStore, touch, append_message, remember_assistant_reply,
  token_digest,
}
use give_exit.Store.Bounds.{evict_front-fits}
use give_exit.Store.Access.{refreshed, get_authorized_lem}
use give_exit.Service.{
  Intake, Turn, said, is_content, hear, answer, remember, reply_to, stored_reply, say,
  authorized_say, add_message,
}
use give_exit.Service.Kept.{length-insert_le, Sending, send_all, IsKept, send_all-IsKept}

module _ {p : Payload} (intake : Intake p) (h : String → String) where
  -- The answer is the stored reply, and only the idle clock of the case moves.
  abbrev pub IsReplayed : String → String → ℕ → CaseStore p → CaseStore p × Turn p → Type 0
  IsReplayed k reply seen s out =
      (r : CaseRecord p) × (lookup k s.cases ≡ some r)
      × (out ≡ (
        record s { cases = insert k (refreshed h seen r) s.cases },
        said (refreshed h seen r) reply,
      ))

  replayed :
      (k m digest reply token text : String) (seen wall now : ℕ) (s : CaseStore p)
      → str_eq m "" ≡ false
      → digest ≡ token_digest h k token
      → IsKept intake h k m digest reply 0 s
      → IsReplayed k reply seen s (add_message intake h k token text (some m) seen wall now s)
  unfolding add_message authorized_say say stored_reply
  replayed k m digest reply token text seen wall now s named right (r, found, same, stored, room) =
      (
        r,
        found,
        rw ((get_authorized_lem h p k token seen s).0 r found (same ∙ right))
            (rw named (rw stored refl)),
      )

  -- The reply is found again under the id, in the record that it was added to.
  remembered :
      (m reply : String) (limit n : ℕ) (r : CaseRecord p)
      → str_eq m "" ≡ false
      → length r.idempotent_messages + suc n ≤ limit
      → (lookup m (remember intake (some m) reply limit r).idempotent_messages ≡ some reply)
        × (length (remember intake (some m) reply limit r).idempotent_messages + n ≤ limit)
        × ((remember intake (some m) reply limit r).token_digest ≡ r.token_digest)
  unfolding remember remember_assistant_reply
  remembered m reply limit n r named room =
      let grown = length-insert_le m reply r.idempotent_messages in
      let fits =
        evict_front-fits limit (insert m reply r.idempotent_messages)
          (omega (arith, grown, room)) in
      rw named (
        rw fits
          (lookup-insert_self m reply r.idempotent_messages, omega (arith, grown, room), refl))

  first_reply :
      (k token text m : String) (seen wall now : ℕ) (s : CaseStore p) (r : CaseRecord p)
      → lookup k s.cases ≡ some r
      → r.token_digest ≡ token_digest h k token
      → str_eq m "" ≡ false
      → lookup m r.idempotent_messages ≡ none
      → is_content (intake.strip text) ≡ true
      → ((f : p.Facts) (b : Bool) → is_content (intake.next_message f b) ≡ true)
      → let s1 : CaseStore p = record s { cases = insert k (refreshed h seen r) s.cases } in
        let r1 = reply_to intake text (some m) wall now s1 (refreshed h seen r) in
        add_message intake h k token text (some m) seen wall now s ≡ (
          record s1 { cases = insert k r1 s1.cases },
          said r1 (answer intake (hear intake text s1.max_messages_per_case (refreshed h seen r))),
        )
  unfolding add_message authorized_say say stored_reply answer
  first_reply k token text m seen wall now s r found right named new valid replies =
      rw ((get_authorized_lem h p k token seen s).0 r found right)
        (rw named (rw new (rw valid (rw (replies _ _) refl))))

  -- A message with a new id is answered once: after it is sent, any further messages may follow,
  -- to this case or another, with any tokens and ids; as long as there is room for the reply of
  -- each, sending it again, with any text, returns the first reply and the case as it then is, and
  -- changes nothing but the case's idle clock. The message and the intake's answers have to be
  -- valid, of 1 to 20000 characters after stripping.
  pub add_message_lem :
      (k token text again m : String) (seen wall now seen' wall' now' : ℕ) (s : CaseStore p)
      (r : CaseRecord p) (between : List Sending)
      → lookup k s.cases ≡ some r
      → r.token_digest ≡ token_digest h k token
      → str_eq m "" ≡ false
      → lookup m r.idempotent_messages ≡ none
      → is_content (intake.strip text) ≡ true
      → ((f : p.Facts) (b : Bool) → is_content (intake.next_message f b) ≡ true)
      → length r.idempotent_messages + suc (length between) ≤ s.max_idempotency_keys_per_case
      → (r1 : CaseRecord p) × (reply : String) × ((add_message intake h k token text
            (some m)
            seen
            wall
            now
            s).1
          ≡ said r1 reply)
        × IsReplayed k reply seen'
            (send_all intake h between
              (add_message intake h k token text (some m) seen wall now s).0)
            (add_message intake h k token again (some m) seen' wall' now' (
              send_all intake h between
                (add_message intake h k token text (some m) seen wall now s).0))
  unfolding reply_to hear touch append_message
  add_message_lem k token text again m seen wall now seen' wall' now' s r between found right named
        new valid replies room =
      let r0 = refreshed h seen r in
      let s1 : CaseStore p = record s { cases = insert k r0 s.cases } in
      let r1 = reply_to intake text (some m) wall now s1 r0 in
      let heard = hear intake text s1.max_messages_per_case r0 in
      let reply = answer intake heard in
      let s2 : CaseStore p = record s1 { cases = insert k r1 s1.cases } in
      let first =
        first_reply k token text m seen wall now s r found right named new valid replies in
      let said' =
        append_message (record { role = assistant; content = reply }) s1.max_messages_per_case
          heard in
      let (stored, bound, same) =
        remembered m reply s1.max_idempotency_keys_per_case (length between) said' named room in
      let kept =
        send_all-IsKept intake h k m (token_digest h k token) reply between s2
          (r1, lookup-insert_self k r1 s1.cases, same ∙ right, stored, bound) in
      let second =
        replayed k m (token_digest h k token) reply token again seen' wall' now'
          (send_all intake h between s2) named refl kept in
      (
        r1,
        reply,
        ap (λ (o : CaseStore p × Turn p). o.1) first,
        subst
            (λ (o : CaseStore p × Turn p).
              IsReplayed k reply seen' (send_all intake h between o.0) (
                add_message intake h k token again (some m) seen' wall' now'
                  (send_all intake h between o.0)))
            (sym first) second,
      )
