-- ===== src/Worker.antt =====
-- internal/deliveryworker/worker.go: the messages of the stream, the retry count that they carry,
-- the delay before a retry, and the delivery of one message.
pub mod Effects
pub mod Delays
pub mod Webhook
pub mod Handling
pub mod Protocol
pub mod Loop
pub mod Pump
mod Samples
use eventrail_ingestion.Prelude.{
  List, Option, String, [], arith, eq_iff, if◌then◌else◌, none, pos, refl, some, trim_space, ℤ,
  ◌==◌, ◌∷◌, ◌≡◌,
}
use eventrail_ingestion.Errors.{Error}
use eventrail_ingestion.Go.Decimal.{atoi}

-- A value of `XMessage.Values`: a text, or anything else.
pub data Value : Type 0 where
  text : String → Value
  other : Value

abbrev pub Values : Type 0
Values = List (String × Value)

pub lookup : String → Values → Option Value
lookup k [] = none
lookup k ((j, v) ∷ m) = if j == k then some v else lookup k m

-- `values[k] = v`.
pub put : String → Value → Values → Values
put k v [] = (k, v) ∷ []
put k v ((j, w) ∷ m) = if j == k then (k, v) ∷ m else (j, w) ∷ put k v m

pub lookup-put :
    (k j : String) (v : Value) (m : Values)
    → lookup j (put k v m) ≡ (if k == j then some v else lookup j m)
unfolding lookup put
lookup-put k j v [] = refl
lookup-put k j v ((i, w) ∷ m) =
    ground (arith, eq_iff k j, eq_iff i k, eq_iff i j, lookup-put k j v m)

-- `s, _ := v.(string)`.
abbrev pub text_or_empty : Option Value → String
text_or_empty (some (text s)) = s
text_or_empty _ = ""

pub event_id_from_message : Values → String
event_id_from_message values = trim_space (text_or_empty (lookup "event_id" values))

pub original_stream_id_from_message : String → Values → String
original_stream_id_from_message id values =
    let stream_id = trim_space (text_or_empty (lookup "original_stream_id" values)) in
    if stream_id == "" then id else stream_id

read_retry : Option ℤ → ℤ
read_retry none = pos 0
read_retry (some n) = n

pub parse_retry : Option Value → ℤ
unfolding read_retry atoi
parse_retry (some (text s)) = read_retry (atoi s)
parse_retry _ = pos 0

-- `Config`, and the connection's names for its streams.
pub record Config : Type 0 where
  pub stream : String
  pub consumer_group : String
  pub dlq_stream : String
  pub retry_zset : String
  pub max_retries : ℤ
  pub base_backoff : ℤ

-- `operations.ProcessingRecord`, `DeliveryAttemptRecord`, `RetryingRecord`, `DeadLetterRecord`.
pub record ProcessingRecord : Type 0 where
  pub event_id : String
  pub stream_id : String
  pub retry_count : ℤ

pub record DeliveryAttemptRecord : Type 0 where
  pub event_id : String
  pub stream_id : String
  pub attempt_number : ℤ
  pub response_code : Option ℤ
  pub error : Error
  pub started_at : ℤ
  pub completed_at : ℤ

pub record RetryingRecord : Type 0 where
  pub attempt : DeliveryAttemptRecord
  pub next_retry : ℤ
  pub scheduled_at : ℤ

pub record DeadLetterRecord : Type 0 where
  pub attempt : DeliveryAttemptRecord
  pub original_stream_id : String

-- An HTTP request: the URL, the body and the idempotency key, if one is set.
pub record HttpRequest : Type 0 where
  pub url : String
  pub body : String
  pub key : Option String

-- A call of the worker to the recorder, to Redis or to a destination.
pub data Call : Type 0 where
  record_processing : ProcessingRecord → Call
  record_delivered : DeliveryAttemptRecord → Call
  record_retrying : RetryingRecord → Call
  record_dead_lettered : DeadLetterRecord → Call
  xadd : String → Values → Call
  zadd : String → ℤ → String → Call
  zrem : String → String → Call
  xack : String → String → String → Call
  post : HttpRequest → Call
