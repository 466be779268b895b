-- ===== src/Store/Reachable.antt =====
-- A store in use: any sequence of the repository's operations and of writes to its records.
use give_exit.Prelude.{ℕ, ◌≡◌, some, String, arith, []}
use give_exit.Prelude.Dict.{lookup, insert}
use give_exit.Store.Defs.{
  Payload, Message, CaseRecord, CaseStore, ok, remember_assistant_reply, append_message, touch,
  expire_idle_cases, Fresh, create, init, get_authorized, delete_authorized,
}
use give_exit.Store.Bounds.{
  IsValid, IsBounded, append_bounded_lem, length-evict_front_le, stored_bounds, write-IsValid,
  expire-IsValid, create-IsValid, get_authorized-IsValid, delete_authorized-IsValid,
}

module _ (sha256_hex : String → String) {p : Payload} where
  -- A write to the record under `k`; the service holds the same object as the store. Any other
  -- write leaves the id and the two logs alone.
  pub data Write (s : CaseStore p) (r : CaseRecord p) : CaseRecord p → Type 0 where
    message : (m : Message) → Write s r (append_message m s.max_messages_per_case r)
    reply :
        (key text : String)
        → Write s r (remember_assistant_reply key text s.max_idempotency_keys_per_case r)
    touched : (wall now : ℕ) → Write s r (touch wall now r)
    other :
        (r' : CaseRecord p)
        → r'.case_id ≡ r.case_id
        → r'.messages ≡ r.messages
        → r'.idempotent_messages ≡ r.idempotent_messages
        → Write s r r'

  pub data Step (s : CaseStore p) : CaseStore p → Type 0 where
    created : (f : Fresh) → Step s (create sha256_hex f s).0
    expired : (now : ℕ) → Step s (expire_idle_cases now s).0
    fetched : (k token : String) (now : ℕ) → Step s (get_authorized sha256_hex k token now s).0
    deleted : (k token : String) (now : ℕ) → Step s (delete_authorized sha256_hex k token now s).0
    written :
        (k : String) (r r' : CaseRecord p)
        → lookup k s.cases ≡ some r
        → Write s r r'
        → Step s (record s { cases = insert k r' s.cases })

  pub data Reach (s : CaseStore p) : CaseStore p → Type 0 where
    here : Reach s s
    next : {t u : CaseStore p} → Reach s t → Step t u → Reach s u

  pub Write-IsBounded :
      (k : String) (s : CaseStore p) (r r' : CaseRecord p)
      → Write s r r'
      → IsBounded s.max_messages_per_case s.max_idempotency_keys_per_case (k, r)
      → IsBounded s.max_messages_per_case s.max_idempotency_keys_per_case (k, r')
  unfolding append_message remember_assistant_reply touch
  Write-IsBounded k s r _ (message m) b =
      (b.0, (append_bounded_lem s.max_messages_per_case m r.messages).0, b.2)
  Write-IsBounded k s r _ (reply key text) b =
      (b.0, b.1, length-evict_front_le s.max_idempotency_keys_per_case _)
  Write-IsBounded k s r _ (touched wall now) b = b
  Write-IsBounded k s r _ (other r' e m i) b = (rw e b.0, rw m b.1, rw i b.2)

  Step-IsValid : {s t : CaseStore p} → Step s t → IsValid s → IsValid t
  Step-IsValid {s} (created f) v = create-IsValid sha256_hex f s v
  Step-IsValid {s} (expired now) v = expire-IsValid now s v
  Step-IsValid {s} (fetched k token now) v = get_authorized-IsValid sha256_hex k token now s v
  Step-IsValid {s} (deleted k token now) v = delete_authorized-IsValid sha256_hex k token now s v
  Step-IsValid {s} (written k r r' found w) v =
      write-IsValid sha256_hex k r r' s v found
        (Write-IsBounded k s r r' w (stored_bounds k r s v found))

  Reach-IsValid : {s t : CaseStore p} → Reach s t → IsValid s → IsValid t
  Reach-IsValid here v = v
  Reach-IsValid (next r st) v = Step-IsValid st (Reach-IsValid r v)

  pub init-IsValid : (a b c d : ℕ) (s : CaseStore p) → init p a b c d ≡ ok s → IsValid s
  unfolding init
  init-IsValid a b c d s h =
      let empty : s.cases ≡ [] = ground arith in
      record { capacity = rw empty (omega arith); distinct = rw empty tt; bounded = rw empty tt }

-- A store that its constructor accepted keeps every bound, whatever operations follow: at most
-- `max_active_cases` cases, each under its own id and once, and in each at most
-- `max_messages_per_case` messages and `max_idempotency_keys_per_case` remembered replies.
pub store_bounds :
    (sha256_hex : String → String) (p : Payload) (max_cases ttl max_messages max_keys : ℕ)
    (s t : CaseStore p)
    → init p max_cases ttl max_messages max_keys ≡ ok s
    → Reach sha256_hex s t
    → IsValid t
store_bounds h p a b c d s t e r = Reach-IsValid h r (init-IsValid h a b c d s e)
