-- ===== src/Worker/Effects.antt =====
-- The worker's calls to the outside, as actions. The outside is a parameter, `Env`: its answers may
-- depend on all that happened before. A message's `Values` is a Go map, which the calls share and
-- write to, so it is part of the state.
use eventrail_ingestion.Prelude.{List, Option, String, code, none, some, ℤ, ◌∷◌}
use eventrail_ingestion.Errors.{Error, nil}
use eventrail_ingestion.Worker.{Call, HttpRequest, Value, Values, post, put}

pub record Event : Type 0 where
  pub call : Call
  pub error : Error

-- What `client.Do` returns, redirects followed: an error, or a status code and its status line.
pub data HttpReply : Type 0 where
  transport_error : Error → HttpReply
  response : ℤ → String → HttpReply

-- What a webhook payload decodes to: an error, or the URL and the encoded `data`.
pub data Webhook : Type 0 where
  undecodable : Error → Webhook
  webhook : String → Webhook

-- The recorder, Redis, HTTP, the clock and the JSON coding of a message's values. `none` is an error.
-- `http` is what one call of `client.Do` returns: `http.Client` follows redirects itself, and may send
-- the body again for one, so that a call may be several HTTP requests. It is not in the repository.
pub record Env : Type 0 where
  pub answer : List Event → Call → Error
  pub http : List Event → HttpRequest → HttpReply
  pub clock : List Event → ℤ
  pub decode_webhook : String → Webhook
  pub marshal_data : String → Option String
  pub new_request : String → Error
  pub marshal : Values → Option String
  pub format_time : ℤ → String

-- The newest event stands first.
pub record World : Type 0 where
  pub values : Values
  pub trace : List Event

-- An action that ends in a panic returns `none`.
abbrev pub Act : Type 0 → Type 0
Act A = World → Option A × World

infixl 5 ◌>>=◌ ◌>>◌
abbrev pub ◌>>=◌ : {A B : Type 0} → Act A → (A → Act B) → Act B
◌>>=◌ m f w = let (r, w') = m w in elim r [ none ↦ (none, w') | some a ↦ f a w' ]

abbrev pub ◌>>◌ : {A B : Type 0} → Act A → Act B → Act B
m >> k = m >>= λ _. k

abbrev pub pure : {A : Type 0} → A → Act A
pure a w = (some a, w)

abbrev pub panic : {A : Type 0} → Act A
panic w = (none, w)

abbrev pub get_values : Act Values
get_values w = (some w.values, w)

abbrev pub set_value : String → Value → Act (Unit {0})
unfolding put
set_value k v w = (some tt, record w { values = put k v w.values })

-- A call that returns only an error.
abbrev pub perform : Env → Call → Act Error
perform env c w =
    let e = env.answer w.trace c in
    (some e, record w { trace = record { call = c; error = e } ∷ w.trace })

abbrev pub reply_error : HttpReply → Error
reply_error (transport_error e) = e
reply_error (response code status) = nil

-- One call of `client.Do`.
abbrev pub send : Env → HttpRequest → Act HttpReply
send env r w =
    let reply = env.http w.trace r in
    (some reply, record w { trace = record { call = post r; error = reply_error reply } ∷ w.trace })

abbrev pub now : Env → Act ℤ
now env w = (some (env.clock w.trace), w)
