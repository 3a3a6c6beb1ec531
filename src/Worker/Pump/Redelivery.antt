-- ===== src/Worker/Pump/Redelivery.antt =====
-- The way of a message through the retry set back to the stream.
use eventrail_ingestion.Prelude.{
  List, Option, String, ap, pos, some, ℕ, ℤ, ◌+ℤ◌, ◌<◌, ◌∙◌, ◌∷◌, ◌≡◌, ◌≤ℤ◌,
}
use eventrail_ingestion.Errors.{nil}
use eventrail_ingestion.Go.Words.{int_bound, unix_milli, unix_milli-le}
use eventrail_ingestion.Worker.{
  Call, Config, Values, event_id_from_message, lookup, parse_retry, zadd,
}
use eventrail_ingestion.Worker.Effects.{Env, Event, World}
use eventrail_ingestion.Worker.Handling.{schedule_retry}
use eventrail_ingestion.Worker.Handling.ReadBack.{schedule_retry-member, schedule_retry-parse_retry}
use eventrail_ingestion.Worker.Loop.{Handled}
use eventrail_ingestion.Worker.Pump.{pump_one, range_max}
use eventrail_ingestion.Worker.Pump.Laws.{pump_one-redelivered, redelivered}

-- Where Redis takes every call, and a member decodes to the values that it encodes: the retry of a
-- message is scheduled as a member of the retry set, with the time after the delay in milliseconds as
-- its score; at that time and at any later one the score is within the range that the pump asks for;
-- when the pump finds the member, the message is added to the stream, and the member is removed; and
-- the next delivery reads the scheduled retry count and the same event id from it.
pub schedule_retry-redelivered :
    (env : Env) (unmarshal : String → Option Values) (removed : List Event → ℕ) (config : Config)
    (id : String) (n : ℕ) (delay : ℤ) (w : World) (member : String) (past : List Handled)
    (later : ℤ)
    → let values : Values = (schedule_retry env config id (pos n) delay w).1.values in
      n < int_bound
      → env.clock w.trace +ℤ delay ≤ℤ later
      → ((t : List Event) (c : Call) → env.answer t c ≡ nil)
      → env.marshal values ≡ some member
      → unmarshal member ≡ some values
      → ((schedule_retry env config id (pos n) delay w).1.trace
          ≡ record {
            call = zadd config.retry_zset (unix_milli (env.clock w.trace +ℤ delay)) member;
            error = nil;
          }
            ∷ w.trace)
        × (unix_milli (env.clock w.trace +ℤ delay) ≤ℤ range_max later)
        × (pump_one env unmarshal removed config member past
            ≡ redelivered config member values ∷ past)
        × (parse_retry (lookup "retry" values) ≡ pos n)
        × (event_id_from_message values ≡ event_id_from_message w.values)
unfolding range_max
schedule_retry-redelivered env unmarshal removed config id n delay w member past later small due
      accepts encodes decodes =
    let values : Values = (schedule_retry env config id (pos n) delay w).1.values in
    let add : Call = zadd config.retry_zset (unix_milli (env.clock w.trace +ℤ delay)) member in
    let (counted, same) = schedule_retry-parse_retry env config id n delay w small in
    (
      schedule_retry-member env config id (pos n) delay w member encodes
          ∙ ap (λ e. record { call = add; error = e } ∷ w.trace) (accepts w.trace add),
      unix_milli-le (env.clock w.trace +ℤ delay) later due,
      pump_one-redelivered env unmarshal removed config accepts member values past decodes,
      counted,
      same,
    )
