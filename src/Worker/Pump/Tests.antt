-- ===== src/Worker/Pump/Tests.antt =====
-- A pump with two due members, of which one decodes, over a Redis that takes every call.
use eventrail_ingestion.Prelude.{
  All, Option, String, [], arith, false, if◌then◌else◌, leb, none, pos, refl, some, ℕ, ◌==◌, ◌∷◌,
  ◌≡◌, ◌≤ℤ◌,
}
use eventrail_ingestion.Errors.{nil}
use eventrail_ingestion.Go.Words.{unix_milli}
use eventrail_ingestion.Worker.{Values, event_id_from_message, lookup, parse_retry, text, zadd}
use eventrail_ingestion.Worker.Effects.{Env, World, response}
use eventrail_ingestion.Worker.Handling.{schedule_retry}
use eventrail_ingestion.Worker.Loop.{running}
use eventrail_ingestion.Worker.Pump.{Tick, pump_one, range_max, retry_pump, run_tick}
use eventrail_ingestion.Worker.Pump.Laws.{
  IsRepublished, redelivered, retry_pump-IsRepublished, run_tick-redelivered,
}
use eventrail_ingestion.Worker.Pump.Redelivery.{schedule_retry-redelivered}
use eventrail_ingestion.Worker.Samples.{quiet, settings}

abbrev one_member : String → Option Values
one_member m = if m == "{}" then some (("retry", text "1") ∷ []) else none

abbrev takes_all : Env
takes_all = quiet (response (pos 200) "200 OK")

abbrev due_now : ℕ → Tick
due_now n = record {
  done_before = leb 2 n;
  members = some ("{}" ∷ "broken" ∷ []);
  done_after_range = false;
  done_at_member = λ k. false;
}

abbrev due_once : Tick
due_once = record {
  done_before = false;
  members = some ("broken" ∷ "{}" ∷ []);
  done_after_range = false;
  done_at_member = λ k. false;
}

retry_pump-IsRepublished_example :
    All
      (IsRepublished takes_all one_member (λ t. 1) settings)
      (retry_pump takes_all one_member (λ t. 1) settings 3 due_now 0 []).1
retry_pump-IsRepublished_example =
    retry_pump-IsRepublished takes_all one_member (λ t. 1) settings 3 due_now 0 [] tt

run_tick-redelivered_example : run_tick takes_all one_member (λ t. 1) settings due_once [] ≡ (
  running,
  redelivered settings "{}" (("retry", text "1") ∷ []) ∷ record { id = "broken"; trace = [] } ∷ [],
)
run_tick-redelivered_example =
    run_tick-redelivered takes_all one_member (λ t. 1) settings (λ t c. refl) due_once
      ("broken" ∷ "{}" ∷ []) [] refl refl (λ j. refl) refl

-- A message whose first retry is scheduled.
abbrev first_world : World
first_world = record {
  values = ("original_stream_id", text "") ∷ ("retry", text "0") ∷ [];
  trace = [];
}

schedule_retry-redelivered_example :
    let scheduled = schedule_retry takes_all settings "1-0" (pos 1) (pos 2500000) first_world in
    (scheduled.1.trace ≡ record { call = zadd settings.retry_zset (pos 2) "{}"; error = nil } ∷ [])
    × (pos 2 ≤ℤ range_max (pos 2500001))
    × (pump_one takes_all (λ m. some scheduled.1.values) (λ t. 1) settings "{}" []
        ≡ redelivered settings "{}" scheduled.1.values ∷ [])
    × (parse_retry (lookup "retry" scheduled.1.values) ≡ pos 1)
    × (event_id_from_message scheduled.1.values ≡ event_id_from_message first_world.values)
unfolding unix_milli
schedule_retry-redelivered_example =
    schedule_retry-redelivered takes_all
      (λ m.
        some (schedule_retry takes_all settings "1-0" (pos 1) (pos 2500000) first_world).1.values)
      (λ t. 1) settings "1-0" 1 (pos 2500000) first_world "{}" [] (pos 2500001) (omega arith)
      (omega arith) (λ t c. refl) refl refl
