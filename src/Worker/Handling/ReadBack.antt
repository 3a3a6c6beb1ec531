-- ===== src/Worker/Handling/ReadBack.antt =====
-- What the worker writes into a message's own values, and what is read back from them: by the next
-- delivery after a retry, and by the handling itself after a move to the dead-letter stream.
use eventrail_ingestion.Prelude.{
  Option, String, ap, if◌then◌else◌, none, pos, refl, some, sym, trim_space, ℕ, ℤ, ◌+ℤ◌, ◌<◌, ◌==◌,
  ◌∙◌, ◌∷◌, ◌≡◌,
}
use eventrail_ingestion.Errors.{Error, error_text}
use eventrail_ingestion.Go.Decimal.{atoi-itoa, itoa}
use eventrail_ingestion.Go.Words.{int_bound, unix_milli}
use eventrail_ingestion.Worker.{
  Call, Config, Values, event_id_from_message, lookup, lookup-put, original_stream_id_from_message,
  parse_retry, put, read_retry, text, text_or_empty, zadd,
}
use eventrail_ingestion.Worker.Effects.{Env, World}
use eventrail_ingestion.Worker.Handling.{add_member, move_to_dlq, schedule_retry}

put-original-reads :
    (id id' : String) (m : Values)
    → original_stream_id_from_message id' (put "original_stream_id" (text id) m)
      ≡ (if trim_space id == "" then id' else trim_space id)
unfolding original_stream_id_from_message
put-original-reads id id' m =
    rw (lookup-put "original_stream_id" "original_stream_id" (text id) m) refl

add_member-values :
    (env : Env) (config : Config) (due : ℤ) (member : Option String) (w : World)
    → (add_member env config due member w).1.values ≡ w.values
unfolding add_member
add_member-values env config due none w = refl
add_member-values env config due (some m) w = refl

-- The values that are scheduled.
scheduled_values : String → ℤ → Values → Values
scheduled_values id n m = put "original_stream_id" (text id) (put "retry" (text (itoa n)) m)

schedule_retry-values :
    (env : Env) (config : Config) (id : String) (n delay : ℤ) (w : World)
    → (schedule_retry env config id n delay w).1.values ≡ scheduled_values id n w.values
unfolding schedule_retry scheduled_values
schedule_retry-values env config id n delay w =
    let values : Values = scheduled_values id n w.values in
    add_member-values env config (unix_milli (env.clock w.trace +ℤ delay)) (env.marshal values)
      (record w { values = values })

scheduled-retry :
    (id : String) (n : ℤ) (m : Values)
    → lookup "retry" (scheduled_values id n m) ≡ some (text (itoa n))
unfolding scheduled_values
scheduled-retry id n m =
    lookup-put "original_stream_id" "retry" (text id) (put "retry" (text (itoa n)) m)
    ∙ lookup-put "retry" "retry" (text (itoa n)) m

scheduled-event_id :
    (id : String) (n : ℤ) (m : Values)
    → lookup "event_id" (scheduled_values id n m) ≡ lookup "event_id" m
unfolding scheduled_values
scheduled-event_id id n m =
    lookup-put "original_stream_id" "event_id" (text id) (put "retry" (text (itoa n)) m)
    ∙ lookup-put "retry" "event_id" (text (itoa n)) m

parse_retry-itoa : (n : ℕ) → n < int_bound → parse_retry (some (text (itoa (pos n)))) ≡ pos n
unfolding parse_retry
parse_retry-itoa n h = ap read_retry (atoi-itoa n h)

-- A retry count that a retry was scheduled with is what the next delivery of the message reads from
-- its values, for every count that an `int` holds; the message keeps its event id.
pub schedule_retry-parse_retry :
    (env : Env) (config : Config) (id : String) (n : ℕ) (delay : ℤ) (w : World)
    → n < int_bound
    → (parse_retry (lookup "retry" (schedule_retry env config id (pos n) delay w).1.values) ≡ pos n)
      × (event_id_from_message (schedule_retry env config id (pos n) delay w).1.values
          ≡ event_id_from_message w.values)
unfolding event_id_from_message
schedule_retry-parse_retry env config id n delay w h =
    let same : (schedule_retry env config id (pos n) delay w).1.values
        ≡ scheduled_values id (pos n) w.values =
      schedule_retry-values env config id (pos n) delay w in
    (
      ap (λ v. parse_retry (lookup "retry" v)) same
          ∙ ap parse_retry (scheduled-retry id (pos n) w.values)
          ∙ parse_retry-itoa n h,
      ap (λ v. trim_space (text_or_empty (lookup "event_id" v))) same
          ∙ ap (λ o. trim_space (text_or_empty o)) (scheduled-event_id id (pos n) w.values),
    )

-- After a message was moved to the dead-letter stream, the original stream id that is read from its
-- values is its own id, whatever original id it carried before.
pub move_to_dlq-original :
    (env : Env) (config : Config) (id : String) (cause : Error) (w : World)
    → original_stream_id_from_message id (move_to_dlq env config id cause w).1.values
      ≡ (if trim_space id == "" then id else trim_space id)
unfolding move_to_dlq
move_to_dlq-original env config id cause w = put-original-reads id id (
    put "error" (text (error_text cause))
      (put "dlq_at" (text (env.format_time (env.clock w.trace))) w.values))

-- The member that a retry is scheduled as is the encoding of the message's values after the schedule,
-- due after the delay.
pub schedule_retry-member :
    (env : Env) (config : Config) (id : String) (n delay : ℤ) (w : World) (member : String)
    → env.marshal (schedule_retry env config id n delay w).1.values ≡ some member
    → let add : Call = zadd config.retry_zset (unix_milli (env.clock w.trace +ℤ delay)) member in
      (schedule_retry env config id n delay w).1.trace
      ≡ record { call = add; error = env.answer w.trace add } ∷ w.trace
unfolding schedule_retry scheduled_values add_member
schedule_retry-member env config id n delay w member encoded =
    let values : Values = scheduled_values id n w.values in
    let encodes : env.marshal values ≡ some member =
      ap env.marshal (sym (schedule_retry-values env config id n delay w)) ∙ encoded in
    ap
      (λ o.
        (add_member env config (unix_milli (env.clock w.trace +ℤ delay)) o
          (record { values = values; trace = w.trace })).1.trace)
      encodes
