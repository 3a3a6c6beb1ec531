-- ===== src/Worker/Protocol.antt =====
-- What a careful worker may do with one message, as an automaton over its calls: the message is
-- marked as being processed, delivered, then either recorded as delivered, or scheduled for a retry
-- and recorded, or written to the dead-letter stream and recorded, and only then acknowledged. A
-- call that fails ends the handling. `broken` is a call out of order.
use eventrail_ingestion.Prelude.{Bool, List, String, [], false, true, ◌&&◌, ◌==◌, ◌∷◌}
use eventrail_ingestion.Errors.{Error, nil}
use eventrail_ingestion.Worker.{
  Call, Config, post, record_dead_lettered, record_delivered, record_processing, record_retrying,
  xack, xadd, zadd,
}
use eventrail_ingestion.Worker.Effects.{Event}

pub data Phase : Type 0 where
  idle processing scheduled moved recorded acknowledged stopped broken : Phase

-- To the next phase if the call succeeded, otherwise to the end.
abbrev pub advance : Error → Phase → Phase
advance nil p = p
advance _ p = stopped

abbrev pub when : Bool → Phase → Phase
when true p = p
when false p = broken

module _ (config : Config) (id : String) where
  abbrev pub step : Phase → Call → Error → Phase
  step idle (record_processing r) e = when (r.stream_id == id) (advance e processing)
  step processing (post r) e = processing
  step processing (record_delivered r) e = when (r.stream_id == id) (advance e recorded)
  step processing (zadd z due m) e = when (z == config.retry_zset) (advance e scheduled)
  step processing (xadd s v) e = when (s == config.dlq_stream) (advance e moved)
  step scheduled (record_retrying r) e = when (r.attempt.stream_id == id) (advance e recorded)
  step moved (record_dead_lettered r) e = when (r.attempt.stream_id == id) (advance e recorded)
  step recorded (xack s g i) e =
      when (s == config.stream && g == config.consumer_group && i == id) (advance e acknowledged)
  step _ _ _ = broken

  -- The phase after a trace, whose newest event stands first.
  abbrev pub phase : List Event → Phase
  phase [] = idle
  phase (e ∷ t) = step (phase t) e.call e.error
