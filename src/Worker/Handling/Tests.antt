-- ===== src/Worker/Handling/Tests.antt =====
-- The worker against a recorder and a Redis that always succeed, and a destination that answers
-- every request with one reply.
use eventrail_ingestion.Prelude.{
  [], arith, if◌then◌else◌, min, pos, refl, some, trim_space, ◌*◌, ◌+◌, ◌==◌, ◌^◌, ◌↔◌, ◌∷◌, ◌≡◌,
  ◌≢◌,
}
use eventrail_ingestion.Delivery.{decide_failure_action, new_http_failure}
use eventrail_ingestion.Delivery.Laws.{IsBetween}
use eventrail_ingestion.Errors.{nil}
use eventrail_ingestion.Go.Decimal.{itoa}
use eventrail_ingestion.Go.Words.{add_int, int_of_bits, mul_int}
use eventrail_ingestion.Worker.{
  Values, event_id_from_message, lookup, original_stream_id_from_message, parse_retry, put, text,
}
use eventrail_ingestion.Worker.Delays.{backoff_delay, max_delay}
use eventrail_ingestion.Worker.Delays.Laws.{backoff_delay-eq-min, backoff_delay-eq-zero}
use eventrail_ingestion.Worker.Effects.{World, response}
use eventrail_ingestion.Worker.Handling.{
  acknowledge, acknowledge_failure, act_on, add_member, conclude, handle_delivery_failure,
  move_to_dlq, process_stream_message, retry_after, schedule_retry, unless_failed,
}
use eventrail_ingestion.Worker.Handling.Laws.{process_stream_message-IsLegal}
use eventrail_ingestion.Worker.Handling.ReadBack.{move_to_dlq-original}
use eventrail_ingestion.Worker.Protocol.{acknowledged, broken, phase}
use eventrail_ingestion.Worker.Samples.{quiet, settings}
use eventrail_ingestion.Worker.Webhook.{deliver_reply, process_message}
use eventrail_ingestion.Worker.Webhook.Laws.{
  AtMostOneCall, deliver_reply-ok_iff, process_message-AtMostOneCall,
}

abbrev hook : Values
hook =
    ("event_id", text "e1")
    ∷ ("event_type", text "webhook")
    ∷ ("payload", text "{}")
    ∷ ("retry", text "0")
    ∷ []

process_stream_message-IsLegal_example :
    phase settings "1-0"
      (process_stream_message
        (quiet (response (pos 503) ""))
        settings
        "1-0"
        (record { values = hook; trace = [] })).1.trace
    ≢ broken
process_stream_message-IsLegal_example =
    process_stream_message-IsLegal (quiet (response (pos 503) "")) settings "1-0" hook

process_message-AtMostOneCall_example :
    AtMostOneCall
      (quiet (response (pos 200) ""))
      (record { values = hook; trace = [] })
      (process_message (quiet (response (pos 200) "")) (record { values = hook; trace = [] }))
process_message-AtMostOneCall_example =
    process_message-AtMostOneCall (quiet (response (pos 200) ""))
      (record { values = hook; trace = [] })

deliver_reply-ok_iff_example :
    ((deliver_reply (response (pos 600) "")).error ≡ nil)
    ↔ ¬ IsBetween (pos 400) (pos 599) (pos 600)
deliver_reply-ok_iff_example = deliver_reply-ok_iff (pos 600) ""

backoff_delay-eq-min_example :
    backoff_delay (pos (500 * 1000 * 1000)) (pos (3 + 1))
    ≡ some (pos (min (2 ^ 3 * (500 * 1000 * 1000)) max_delay))
backoff_delay-eq-min_example =
    backoff_delay-eq-min (500 * 1000 * 1000) 3 (omega arith) (omega arith) (omega arith)

backoff_delay-eq-zero_example : backoff_delay (pos (500 * 1000 * 1000)) (pos 70) ≡ some (pos 0)
backoff_delay-eq-zero_example =
    backoff_delay-eq-zero (pos (500 * 1000 * 1000)) 70 (omega arith) (omega arith)

-- After a failed delivery of the first try the trace ends in an acknowledgement.
runs :
    phase settings "1-0"
      (process_stream_message
        (quiet (response (pos 503) ""))
        settings
        "1-0"
        (record { values = hook; trace = [] })).1.trace
    ≡ acknowledged
unfolding process_stream_message conclude handle_delivery_failure act_on retry_after schedule_retry
    acknowledge_failure acknowledge unless_failed add_member parse_retry event_id_from_message
    lookup put trim_space process_message deliver_reply new_http_failure decide_failure_action
    backoff_delay add_int mul_int itoa int_of_bits
runs = refl

-- A message that was retried once: it carries the id of its first entry.
abbrev retried : World
retried = record {
  values = ("original_stream_id", text "1-0") ∷ ("retry", text "1") ∷ hook;
  trace = [];
}

move_to_dlq-original_example :
    original_stream_id_from_message "2-0"
      (move_to_dlq (quiet (response (pos 200) "200 OK")) settings "2-0" nil retried).1.values
    ≡ (if trim_space "2-0" == "" then "2-0" else trim_space "2-0")
move_to_dlq-original_example =
    move_to_dlq-original (quiet (response (pos 200) "200 OK")) settings "2-0" nil retried
