-- ===== src/Worker/Handling.antt =====
-- What the worker does with one message: `processStreamMessage` and `handleDeliveryFailure`, with
-- their calls in the order of the source; and `republishRetryMember` of the retry pump.
pub mod Laws
pub mod ReadBack
pub mod Republish
mod Tests
use eventrail_ingestion.Prelude.{
  List, Option, String, [], concat, eqb, eqb_ℤ, if◌then◌else◌, none, pos, some, ℕ, ℤ, ◌+ℤ◌, ◌∷◌,
}
use eventrail_ingestion.Delivery.{FailureAction, dead_letter, decide_failure_action, retry}
use eventrail_ingestion.Errors.{Error, as_failure, error_text, failed, new, nil, wrap}
use eventrail_ingestion.Go.Decimal.{itoa}
use eventrail_ingestion.Go.Words.{add_int, unix_milli}
use eventrail_ingestion.Worker.{
  Config, DeliveryAttemptRecord, Values, event_id_from_message, lookup,
  original_stream_id_from_message, parse_retry, put, record_dead_lettered, record_delivered,
  record_processing, record_retrying, text, xack, xadd, zadd, zrem,
}
use eventrail_ingestion.Worker.Delays.{backoff_delay}
use eventrail_ingestion.Worker.Effects.{
  Act, Env, Event, get_values, now, panic, perform, pure, set_value, ◌>>=◌, ◌>>◌,
}
use eventrail_ingestion.Worker.Webhook.{Delivered, process_message}

pub response_code_from_error : Error → Option ℤ
unfolding as_failure
response_code_from_error e = elim (as_failure e) [
  | none ↦ none
  | some f ↦ if eqb_ℤ f.status_code (pos 0) then none else some f.status_code
]

add_member : Env → Config → ℤ → Option String → Act Error
add_member env config due none = pure (new "json: unsupported value")
add_member env config due (some member) = perform env (zadd config.retry_zset due member)

-- `scheduleRetry`: the message's own map is written before it is encoded. The score is the time in
-- milliseconds; as a `float64` it is exact below 2^53.
pub schedule_retry : Env → Config → String → ℤ → ℤ → Act Error
unfolding itoa put add_member
schedule_retry env config id next_retry delay = do
  set_value "retry" (text (itoa next_retry))
  set_value "original_stream_id" (text id)
  values ← get_values
  at ← now env
  add_member env config (unix_milli (at +ℤ delay)) (env.marshal values)

-- `moveToDLQ`: the message's own map is written before it is added to the stream.
pub move_to_dlq : Env → Config → String → Error → Act Error
unfolding put error_text
move_to_dlq env config id cause = do
  at ← now env
  set_value "dlq_at" (text (env.format_time at))
  set_value "error" (text (error_text cause))
  set_value "original_stream_id" (text id)
  values ← get_values
  perform env (xadd config.dlq_stream values)

-- `if err := …; err != nil { return fmt.Errorf(before + id + after: %w) }` and the rest.
pub unless_failed : String → Error → Act Error → Act Error
unless_failed context nil rest = rest
unless_failed context e rest = pure (wrap context e "")

acknowledge : Env → Config → String → Act Error
acknowledge env config id = perform env (xack config.stream config.consumer_group id)

acknowledge_failure : Env → Config → String → Act Error
acknowledge_failure env config id = do
  acked ← acknowledge env config id
  unless_failed (concat ("acknowledge message " ∷ id ∷ " after failure handling: " ∷ [])) acked
      (pure nil)

-- The case of a retry, once the delay is known; `none` is the panic of a negative shift.
retry_after : Env → Config → String → DeliveryAttemptRecord → ℤ → Option ℤ → Act Error
retry_after env config id attempt next_retry none = panic
retry_after env config id attempt next_retry (some delay) = do
  at ← now env
  scheduled ← schedule_retry env config id next_retry delay
  unless_failed (concat ("schedule retry for message " ∷ id ∷ ": " ∷ [])) scheduled do
    recorded ← perform env (
        record_retrying
          (record { attempt = attempt; next_retry = next_retry; scheduled_at = at +ℤ delay }))
    unless_failed (concat ("record retrying message " ∷ id ∷ ": " ∷ [])) recorded
        (acknowledge_failure env config id)

bury : Env → Config → String → DeliveryAttemptRecord → Error → Act Error
bury env config id attempt cause = do
  moved ← move_to_dlq env config id cause
  unless_failed (concat ("write message " ∷ id ∷ " to DLQ: " ∷ [])) moved do
    values ← get_values
    recorded ← perform env (
        record_dead_lettered (record {
          attempt = attempt;
          original_stream_id = original_stream_id_from_message id values;
        }))
    unless_failed (concat ("record dead-lettered message " ∷ id ∷ ": " ∷ [])) recorded
        (acknowledge_failure env config id)

act_on : FailureAction → Env → Config → String → DeliveryAttemptRecord → Error → ℤ → Act Error
act_on retry env config id attempt cause retries =
    let next_retry = add_int retries (pos 1) in
    retry_after env config id attempt next_retry (backoff_delay config.base_backoff next_retry)
act_on dead_letter env config id attempt cause retries = bury env config id attempt cause

pub handle_delivery_failure : Env → Config → String → Error → ℤ → ℤ → ℤ → ℤ → Act Error
handle_delivery_failure env config id cause retries attempt_number started_at completed_at = do
  values ← get_values
  act_on (decide_failure_action cause retries config.max_retries) env config id
      (record {
        event_id = event_id_from_message values;
        stream_id = id;
        attempt_number = attempt_number;
        response_code = response_code_from_error cause;
        error = cause;
        started_at = started_at;
        completed_at = completed_at;
      })
      cause retries

-- `acknowledgeDeliveredMessage`.
pub acknowledge_delivered : Env → Config → String → DeliveryAttemptRecord → Act Error
acknowledge_delivered env config id attempt = do
  recorded ← perform env (record_delivered attempt)
  unless_failed (concat ("record delivered message " ∷ id ∷ ": " ∷ [])) recorded do
    acked ← acknowledge env config id
    unless_failed (concat ("acknowledge delivered message " ∷ id ∷ ": " ∷ [])) acked (pure nil)

-- After the delivery: the failure is handled, or the message is recorded and acknowledged.
conclude : Env → Config → String → Delivered → ℤ → ℤ → ℤ → Act Error
conclude env config id result retries started_at completed_at =
    if failed result.error
    then handle_delivery_failure env config id result.error retries (add_int retries (pos 1))
        started_at completed_at
    else do
      values ← get_values
      acknowledge_delivered env config id (record {
        event_id = event_id_from_message values;
        stream_id = id;
        attempt_number = add_int retries (pos 1);
        response_code = result.response_code;
        error = nil;
        started_at = started_at;
        completed_at = completed_at;
      })

-- `processStreamMessage`; the error is what the source writes to its log.
pub process_stream_message : Env → Config → String → Act Error
process_stream_message env config id = do
  values ← get_values
  let retries = parse_retry (lookup "retry" values)
  started_at ← now env
  recorded ← perform env (
      record_processing
        (record { event_id = event_id_from_message values; stream_id = id; retry_count = retries }))
  unless_failed "" recorded do
    result ← process_message env
    completed_at ← now env
    conclude env config id result retries started_at completed_at

-- The error of a removal that affected so many rows.
rows_error : ℕ → Error
rows_error n =
    if eqb n 0
    then wrap "remove published retry member: " (new "remove retry member affected 0 rows") ""
    else nil

-- The rest of `republishRetryMember`, from the decoded values on.
republish_values : Env → (List Event → ℕ) → Config → String → Option Values → Act Error
republish_values env removed config member none = pure (new "decode retry member")
republish_values env removed config member (some values) = do
  published ← perform env (xadd config.stream values)
  unless_failed "publish retry member: " published do
    dropped ← perform env (zrem config.retry_zset member)
    unless_failed "remove published retry member: " dropped
        λ w. (some (rows_error (removed w.trace)), w)

-- `republishRetryMember`, with the calls that `retryPump` passes to it. `removed` is the count that
-- `ZREM` returns after a trace.
pub republish_retry_member :
    Env → (String → Option Values) → (List Event → ℕ) → Config → String → Act Error
republish_retry_member env unmarshal removed config member =
    republish_values env removed config member (unmarshal member)
