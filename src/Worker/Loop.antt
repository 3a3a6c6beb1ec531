-- ===== src/Worker/Loop.antt =====
-- The stream worker's loop: `runStreamWorker`, with the messages that it reclaims and reads, and the
-- start of a worker. What Redis, the context and the timers answer is a sequence of rounds.
pub mod Laws
pub mod Order
mod Tests
use eventrail_ingestion.Prelude.{
  Bool, List, String, [], contains, false, if◌then◌else◌, none, not, some, suc, true, zero, ℕ, ◌&&◌,
  ◌++◌, ◌+◌, ◌||◌, ◌∷◌,
}
use eventrail_ingestion.Errors.{Error, error_text, failed, nil}
use eventrail_ingestion.Replay.{values}
use eventrail_ingestion.Replay.Pages.{answer}
use eventrail_ingestion.Worker.{
  Call, Config, Values, record_dead_lettered, record_delivered, record_processing, record_retrying,
}
use eventrail_ingestion.Worker.Effects.{Env, Event}
use eventrail_ingestion.Worker.Handling.{process_stream_message}

-- `redis.XMessage`.
pub record Message : Type 0 where
  pub id : String
  pub values : Values

-- A reply of Redis: a value, the error `redis.Nil`, or another error with the value beside it.
pub data RedisReply (A : Type 0) : Type 0 where
  replied : A → RedisReply A
  redis_nil : RedisReply A
  redis_error : A → Error → RedisReply A

-- One round of the loop: whether the context is done at its beginning, before the k-th reclaimed or
-- read message, and after an error of XAUTOCLAIM or XREADGROUP; what these answer; and whether the
-- timer of the wait after an error fires before the context is done.
pub record Round : Type 0 where
  pub done_before : Bool
  pub claimed : RedisReply (List Message)
  pub done_after_claim : Bool
  pub done_at_claimed : ℕ → Bool
  pub read : RedisReply (List (List Message))
  pub done_after_read : Bool
  pub timer_fires : Bool
  pub done_at_read : ℕ → Bool

-- A message that was handled, with its calls, the newest first.
pub record Handled : Type 0 where
  pub id : String
  pub trace : List Event

-- All calls so far; the newest stand first.
abbrev pub events_of : List Handled → List Event
events_of [] = []
events_of (h ∷ l) = h.trace ++ events_of l

-- The outside, after what has happened.
abbrev pub since : List Event → Env → Env
since past env = record env {
  answer = λ t c. env.answer (t ++ past) c;
  http = λ t r. env.http (t ++ past) r;
  clock = λ t. env.clock (t ++ past);
}

is_record : Call → Bool
is_record (record_processing r) = true
is_record (record_delivered r) = true
is_record (record_retrying r) = true
is_record (record_dead_lettered r) = true
is_record _ = false

-- `New`: without a recorder the recordings succeed and do nothing.
pub new_worker : Bool → Env → Env
new_worker has_recorder env = record env {
  answer = λ t c. if not has_recorder && is_record c then nil else env.answer t c;
}

-- `EnsureConsumerGroup`, from the error of XGROUP CREATE.
pub ensure_consumer_group : Error → Error
ensure_consumer_group e = if failed e && not (contains "BUSYGROUP" (error_text e)) then e else nil

-- `reclaimPendingMessagesForConsumer`.
pub reclaim_pending_messages : RedisReply (List Message) → List Message × Error
reclaim_pending_messages (replied messages) = (messages, nil)
reclaim_pending_messages redis_nil = ([], nil)
reclaim_pending_messages (redis_error messages e) = (messages, e)

-- Where the loop stands. A panic of the goroutine ends the process.
pub data Status : Type 0 where
  running returned panicked : Status

abbrev pub Progress : Type 0
Progress = Status × List Handled

-- `processStreamMessage` of one message; its error goes to the log only.
pub handle_one : Env → Config → Message → List Handled → Progress
handle_one env config m past =
    let (result, w) =
      process_stream_message (since (events_of past) env) config m.id
        (record { values = m.values; trace = [] }) in
    (
      elim result [ none ↦ panicked | some e ↦ running ],
      record { id = m.id; trace = w.trace } ∷ past,
    )

-- The rest runs where the loop goes on.
abbrev pub go_on : Progress → (List Handled → Progress) → Progress
go_on (running, past) rest = rest past
go_on (returned, past) rest = (returned, past)
go_on (panicked, past) rest = (panicked, past)

-- The loop over messages, from the k-th on.
pub process_each : Env → Config → (ℕ → Bool) → ℕ → List Message → List Handled → Progress
process_each env config is_done k [] past = (running, past)
process_each env config is_done k (m ∷ ms) past =
    if is_done k
    then (returned, past)
    else go_on (handle_one env config m past) (process_each env config is_done (suc k) ms)

-- The nested loop over the messages of each stream.
abbrev pub all_messages : List (List Message) → List Message
all_messages [] = []
all_messages (ms ∷ l) = ms ++ all_messages l

-- After XREADGROUP; `redis.Nil` is no new message within the block.
after_read : Env → Config → Round → RedisReply (List (List Message)) → List Handled → Progress
after_read env config r (replied streams) past =
    process_each env config r.done_at_read 0 (all_messages streams) past
after_read env config r redis_nil past = (if r.done_after_read then returned else running, past)
after_read env config r (redis_error streams e) past =
    (if r.done_after_read || not r.timer_fires then returned else running, past)

after_claim : Env → Config → Round → List Message × Error → List Handled → Progress
after_claim env config r (messages, e) past =
    if failed e && r.done_after_claim
    then (returned, past)
    else go_on (process_each env config r.done_at_claimed 0 messages past)
        (after_read env config r r.read)

-- One turn of the loop.
pub run_round : Env → Config → Round → List Handled → Progress
run_round env config r past =
    if r.done_before
    then (returned, past)
    else after_claim env config r (reclaim_pending_messages r.claimed) past

-- `runStreamWorker`, for so many rounds at most.
pub run_stream_worker : Env → Config → ℕ → (ℕ → Round) → ℕ → List Handled → Progress
run_stream_worker env config zero rounds i past = (running, past)
run_stream_worker env config (suc fuel) rounds i past =
    go_on (run_round env config (rounds i) past) (run_stream_worker env config fuel rounds (i + 1))
