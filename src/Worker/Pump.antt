-- ===== src/Worker/Pump.antt =====
-- The retry pump's loop: `retryPump`, over a sequence of ticks.
pub mod Laws
pub mod Redelivery
mod Tests
use eventrail_ingestion.Prelude.{
  Bool, List, Option, String, [], if◌then◌else◌, none, some, suc, zero, ℕ, ℤ, ◌++◌, ◌+◌, ◌∷◌,
}
use eventrail_ingestion.Errors.{Error, failed}
use eventrail_ingestion.Go.Words.{unix_milli}
use eventrail_ingestion.Worker.{Config, Values}
use eventrail_ingestion.Worker.Effects.{Env, Event}
use eventrail_ingestion.Worker.Handling.{republish_retry_member}
use eventrail_ingestion.Worker.Loop.{Handled, Progress, events_of, go_on, returned, running, since}

-- The `Max` of the ZRANGEBYSCORE at a time: the members with a score up to it are due.
pub range_max : ℤ → ℤ
range_max at = unix_milli at

-- One tick: whether the context is done instead; the members that ZRANGEBYSCORE finds due, 50 at
-- most, `none` for an error; and whether the context is done after an empty answer, or before the
-- k-th member.
pub record Tick : Type 0 where
  pub done_before : Bool
  pub members : Option (List String)
  pub done_after_range : Bool
  pub done_at_member : ℕ → Bool

-- `republishRetryMember` of one member; its error goes to the log only.
pub pump_one :
    Env
    → (String → Option Values)
    → (List Event → ℕ)
    → Config
    → String
    → List Handled
    → List Handled
pump_one env unmarshal removed config member past =
    let (result, w) =
      republish_retry_member (since (events_of past) env) unmarshal
        (λ t. removed (t ++ events_of past)) config member (record { values = []; trace = [] }) in
    record { id = member; trace = w.trace } ∷ past

module _ (env : Env) (unmarshal : String → Option Values) (removed : List Event → ℕ)
    (config : Config) where
  -- The loop over the members, from the k-th on.
  pub pump_each : (ℕ → Bool) → ℕ → List String → List Handled → Progress
  pump_each is_done k [] past = (running, past)
  pump_each is_done k (m ∷ ms) past =
      let rest = pump_each is_done (suc k) ms (pump_one env unmarshal removed config m past) in
      if is_done k then (returned, past) else rest

  pump_found : Tick → Option (List String) → List Handled → Progress
  pump_found t none past = (if t.done_after_range then returned else running, past)
  pump_found t (some []) past = (if t.done_after_range then returned else running, past)
  pump_found t (some (m ∷ ms)) past = pump_each t.done_at_member 0 (m ∷ ms) past

  pub run_tick : Tick → List Handled → Progress
  run_tick t past = if t.done_before then (returned, past) else pump_found t t.members past

  -- `retryPump`, for so many ticks at most.
  pub retry_pump : ℕ → (ℕ → Tick) → ℕ → List Handled → Progress
  retry_pump zero ticks i past = (running, past)
  retry_pump (suc fuel) ticks i past =
      go_on (run_tick (ticks i) past) (retry_pump fuel ticks (i + 1))

-- `Run` returns when both loops have: the error of the stream worker, or else that of the pump.
pub run_errors : Error → Error → Error
run_errors worker_error retry_error = if failed worker_error then worker_error else retry_error
