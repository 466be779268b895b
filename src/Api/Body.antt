-- ===== src/Api/Body.antt =====
-- `BodySizeLimitMiddleware` of app/api/security.py. The wrapped ASGI application is a tree of what
-- it receives and sends; it is taken to let the middleware's own exception pass through.
use give_exit.Prelude.{
  ℕ, ◌+◌, ◌≤◌, ◌≡◌, refl, ap, Bool, true, false, Option, none, some, List, [], ◌∷◌, ltb,
  if◌then◌else◌, arith,
}

-- A message of the server to the application: a part of the body with its bytes, or another.
pub data Received : Type 0 where
  request : (bytes : ℕ) → Received
  disconnect : Received

pub data Sent : Type 0 where
  response_start : (status : ℕ) → Sent
  response_body : (bytes : ℕ) → Sent

pub data App : Type 0 where
  done : App
  send : Sent → App → App
  receive : (Received → App) → App

pub record Scope : Type 0 where
  pub is_http : Bool
  -- the `content-length` header, where it is there and reads as an integer
  pub declared : Option ℕ

-- What the client gets, and the body bytes that the application was handed.
pub record Transcript : Type 0 where
  pub sent : List Sent
  pub delivered : ℕ

abbrev body_bytes : Received → ℕ
body_bytes (request n) = n
body_bytes disconnect = 0

-- The next message, and the rest; after the last one the server reports a disconnect.
abbrev next_message : List Received → Received
next_message [] = disconnect
next_message (m ∷ ms) = m

abbrev later_messages : List Received → List Received
later_messages [] = []
later_messages (m ∷ ms) = ms

-- `_send_payload_too_large`: the JSON body has 55 bytes.
unfoldable pub send_payload_too_large : List Sent
send_payload_too_large = response_start 413 ∷ response_body 55 ∷ []

-- The application alone.
unfoldable pub run_app : App → List Received → Transcript
run_app done ms = record { sent = []; delivered = 0 }
run_app (send m k) ms = let t = run_app k ms in record t { sent = m ∷ t.sent }
run_app (receive k) ms =
    let t = run_app (k (next_message ms)) (later_messages ms) in
    record t { delivered = body_bytes (next_message ms) + t.delivered }

abbrev is_start : Sent → Bool
is_start (response_start s) = true
is_start (response_body n) = false

-- The application behind `counted_receive` and `tracking_send`: `received` bytes so far, and
-- whether the response has started.
unfoldable pub run_counted : ℕ → App → List Received → ℕ → Bool → Transcript
unfolding send_payload_too_large
run_counted max_body_bytes done ms received started = record { sent = []; delivered = 0 }
run_counted max_body_bytes (send m k) ms received started =
    let t = run_counted max_body_bytes k ms received (if is_start m then true else started) in
    record t { sent = m ∷ t.sent }
run_counted max_body_bytes (receive k) ms received started =
    let total = received + body_bytes (next_message ms) in
    let t = run_counted max_body_bytes (k (next_message ms)) (later_messages ms) total started in
    if ltb max_body_bytes total
    then record { sent = if started then [] else send_payload_too_large; delivered = 0 }
    else record t { delivered = body_bytes (next_message ms) + t.delivered }

-- declared is not None and declared > self._max_body_bytes
abbrev declares_too_much : ℕ → Option ℕ → Bool
declares_too_much max_body_bytes none = false
declares_too_much max_body_bytes (some n) = ltb max_body_bytes n

unfoldable pub call : ℕ → App → Scope → List Received → Transcript
unfolding run_app run_counted send_payload_too_large
call max_body_bytes app scope ms =
    if scope.is_http
    then if declares_too_much max_body_bytes scope.declared
      then record { sent = send_payload_too_large; delivered = 0 }
      else run_counted max_body_bytes app ms 0 false
    else run_app app ms

run_counted-delivered :
    (n : ℕ) (app : App) (ms : List Received) (received : ℕ) (started : Bool)
    → received ≤ n
    → received + (run_counted n app ms received started).delivered ≤ n
unfolding run_counted
run_counted-delivered n done ms received started h = omega arith
run_counted-delivered n (send m k) ms received started h =
    run_counted-delivered n k ms received (if is_start m then true else started) h
run_counted-delivered n (receive k) ms received started h = ground (
  arith,
  run_counted-delivered n (k (next_message ms)) (later_messages ms)
      (received + body_bytes (next_message ms)) started,
)

run_counted-transparent :
    (n : ℕ) (app : App) (ms : List Received) (received : ℕ) (started : Bool)
    → received + (run_app app ms).delivered ≤ n
    → run_counted n app ms received started ≡ run_app app ms
unfolding run_counted run_app
run_counted-transparent n done ms received started h = refl
run_counted-transparent n (send m k) ms received started h =
    ap (λ (t : Transcript). record t { sent = m ∷ t.sent })
      (run_counted-transparent n k ms received (if is_start m then true else started) h)
run_counted-transparent n (receive k) ms received started h = ground (
  arith,
  run_counted-transparent n (k (next_message ms)) (later_messages ms)
      (received + body_bytes (next_message ms)) started,
)

-- An HTTP request never hands the application more than `max_body_bytes` bytes of body, whatever
-- length it declares and however it is split; and one whose declared length and whose bytes, as
-- the application alone would read them, are within the limit is served exactly as without the
-- guard.
pub guarded_call_lem :
    (n : ℕ) (app : App) (scope : Scope) (ms : List Received)
    → scope.is_http ≡ true
    → ((call n app scope ms).delivered ≤ n)
      × (declares_too_much n scope.declared ≡ false
          → (run_app app ms).delivered ≤ n
          → call n app scope ms ≡ run_app app ms)
unfolding call
guarded_call_lem n app scope ms http = rw http (
  ground (arith, run_counted-delivered n app ms 0 false),
  λ declared h. rw declared (run_counted-transparent n app ms 0 false (omega (arith, h))),
)
