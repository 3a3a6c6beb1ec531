-- ===== src/Outbox/Stream.antt =====
-- internal/broker/redisstream/publisher.go: an outbox event as a message of a Redis stream.
mod Tests
use eventrail_ingestion.Prelude.{
  Bool-cases, List, Option, String, [], concat, false, if◌then◌else◌, inl, inr, none, refl, some,
  trim_space, trim_space_idem, ℕ, ◌==◌, ◌||◌, ◌∷◌, ◌≡◌,
}
use eventrail_ingestion.Errors.{Error, failed, new, nil, wrap}

-- `OutboxEvent` of internal/outbox/publisher.go, its time in seconds.
pub record OutboxEvent : Type 0 where
  pub outbox_id : String
  pub event_id : String
  pub event_type : String
  pub source : String
  pub payload : String
  pub created_at : ℕ

-- The arguments of XADD.
pub record XaddArgs : Type 0 where
  pub stream : String
  pub id : String
  pub values : List (String × String)

-- The command XADD of a client: the id of the new entry, and the error.
abbrev pub Client : Type 0
Client = XaddArgs → String × Error

-- A client that is nil is `none`.
pub record StreamPublisher : Type 0 where
  pub client : Option Client
  pub stream : String

pub data Made : Type 0 where
  made : StreamPublisher → Made
  refused : Error → Made

-- `NewPublisher`.
pub new_publisher : Option Client → String → Made
new_publisher none stream = refused (new "redis stream publisher client is required")
new_publisher (some client) stream =
    let normalized = trim_space stream in
    if normalized == ""
    then refused (new "redis stream publisher stream is required")
    else made (record { client = some client; stream = normalized })

-- `seconds` is `Format(time.RFC3339)` of a time in UTC.
module _ (seconds : ℕ → String) where
  pub xadd_args : String → OutboxEvent → XaddArgs
  xadd_args stream e = record {
    stream = stream;
    id = "*";
    values =
        ("outbox_id", e.outbox_id)
        ∷ ("event_id", e.event_id)
        ∷ ("event_type", e.event_type)
        ∷ ("source", e.source)
        ∷ ("payload", e.payload)
        ∷ ("retry", "0")
        ∷ ("created_at", seconds e.created_at)
        ∷ [];
  }

  publish_context : OutboxEvent → String → String
  publish_context e stream =
      concat (
        "publish outbox " ∷ e.outbox_id ∷ " event " ∷ e.event_id ∷ " to Redis stream " ∷ stream
        ∷ [])

  -- What `Publish` makes of the answer to XADD.
  added : OutboxEvent → String → String × Error → Error
  added e stream (stream_id, error) =
      if failed error
      then wrap (concat (publish_context e stream ∷ ": " ∷ [])) error ""
      else if stream_id == ""
      then new (concat (publish_context e stream ∷ " returned empty stream id" ∷ []))
      else nil

  -- The error, and the commands that were sent.
  publish_by : Option Client → String → OutboxEvent → Error × List XaddArgs
  publish_by none stream e = (new "redis stream publisher client is required", [])
  publish_by (some client) stream e =
      if trim_space stream == ""
      then (new "redis stream publisher stream is required", [])
      else (added e stream (client (xadd_args stream e)), xadd_args stream e ∷ [])

  -- `Publish`; `none` is a nil publisher.
  pub publish : Option StreamPublisher → OutboxEvent → Error × List XaddArgs
  publish none e = (new "redis stream publisher is nil", [])
  publish (some p) e = publish_by p.client p.stream e

  added-failed :
      (e : OutboxEvent) (stream : String) (a : String × Error)
      → failed (added e stream a) ≡ (failed a.1 || a.0 == "")
  unfolding added
  added-failed e stream (id, error) = elim (Bool-cases (failed error)) [
    | inl bad ↦ rw bad refl
    | inr good ↦ rw good (elim (Bool-cases (id == "")) [ inl h ↦ rw h refl | inr h ↦ rw h refl ])
  ]

  -- For a stream whose name is not blank a publisher is made that sends exactly one XADD for an
  -- event, to the name without space around it, with the id "*", the fields of the event, the retry
  -- count 0 and the time as text, and reports an error exactly if Redis does or the id of the new
  -- entry is empty.
  pub new_publisher-publish :
      (client : Client) (stream : String) (e : OutboxEvent)
      → (trim_space stream == "") ≡ false
      → let p : StreamPublisher = record { client = some client; stream = trim_space stream } in
        let args : XaddArgs = record {
          stream = trim_space stream;
          id = "*";
          values =
              ("outbox_id", e.outbox_id)
              ∷ ("event_id", e.event_id)
              ∷ ("event_type", e.event_type)
              ∷ ("source", e.source)
              ∷ ("payload", e.payload)
              ∷ ("retry", "0")
              ∷ ("created_at", seconds e.created_at)
              ∷ [];
        } in
        (new_publisher (some client) stream ≡ made p)
        × ((publish (some p) e).1 ≡ args ∷ [])
        × (failed (publish (some p) e).0 ≡ (failed (client args).1 || (client args).0 == ""))
  unfolding new_publisher publish publish_by xadd_args
  new_publisher-publish client stream e named =
      let again : (trim_space (trim_space stream) == "") ≡ false =
        rw (trim_space_idem stream) named in
      (
        rw named refl,
        rw again refl,
        rw again (added-failed e (trim_space stream) (client (xadd_args (trim_space stream) e))),
      )
