-- ===== src/Worker/Pump/Laws.antt =====
-- What the retry pump does with a member of the retry set.
use eventrail_ingestion.Prelude.{
  All, Bool, List, Option, Option-cases, String, [], ap, false, if_cases, if◌then◌else◌, inl, inr,
  none, refl, some, subst, suc, sym, zero, ℕ, ◌++◌, ◌+◌, ◌∙◌, ◌∷◌, ◌≡◌,
}
use eventrail_ingestion.Errors.{nil}
use eventrail_ingestion.Worker.{Call, Config, Values, xadd, zrem}
use eventrail_ingestion.Worker.Effects.{Env, Event}
use eventrail_ingestion.Worker.Handling.{republish_retry_member}
use eventrail_ingestion.Worker.Handling.Republish.{
  Republished, at_first, republish_retry_member-Republished, republish_retry_member-trace,
}
use eventrail_ingestion.Worker.Loop.{Handled, Progress, events_of, returned, running, since}
use eventrail_ingestion.Worker.Loop.Laws.{go_on-Keeps}
use eventrail_ingestion.Worker.Pump.{Tick, pump_each, pump_found, pump_one, retry_pump, run_tick}

-- A member that was added to the stream and removed.
abbrev pub redelivered : Config → String → Values → Handled
redelivered config member values = record {
  id = member;
  trace =
      record { call = zrem config.retry_zset member; error = nil }
      ∷ record { call = xadd config.stream values; error = nil }
      ∷ [];
}

-- What is done for a member while Redis takes every call: one that does not decode is left alone.
abbrev pub handled : Config → String → Option Values → Handled
handled config member none = record { id = member; trace = [] }
handled config member (some values) = redelivered config member values

abbrev pub all_handled :
    Config → (String → Option Values) → List String → List Handled → List Handled
all_handled config unmarshal [] past = past
all_handled config unmarshal (m ∷ ms) past =
    all_handled config unmarshal ms (handled config m (unmarshal m) ∷ past)

module _ (env : Env) (unmarshal : String → Option Values) (removed : List Event → ℕ)
    (config : Config) where
  -- What was done for a member, by what it decodes to.
  abbrev pub IsRepublished : Handled → Type 0
  IsRepublished h = Republished config h.id (unmarshal h.id) h.trace

  pump_one-IsRepublished :
      (member : String) (past : List Handled)
      → All IsRepublished past
      → All IsRepublished (pump_one env unmarshal removed config member past)
  unfolding pump_one
  pump_one-IsRepublished member past h = (
    republish_retry_member-Republished (since (events_of past) env)
        (λ t. removed (t ++ events_of past)) config member unmarshal,
    h,
  )

  pump_each-IsRepublished :
      (is_done : ℕ → Bool) (k : ℕ) (ms : List String) (past : List Handled)
      → All IsRepublished past
      → All IsRepublished (pump_each env unmarshal removed config is_done k ms past).1
  unfolding pump_each
  pump_each-IsRepublished is_done k [] past h = h
  pump_each-IsRepublished is_done k (m ∷ ms) past h =
      if_cases (λ (p : Progress). All IsRepublished p.1) (is_done k) _ _ (λ stop. h)
        (λ go.
          pump_each-IsRepublished is_done (suc k) ms (pump_one env unmarshal removed config m past)
            (pump_one-IsRepublished m past h))

  pump_found-IsRepublished :
      (t : Tick) (o : Option (List String)) (past : List Handled)
      → All IsRepublished past
      → All IsRepublished (pump_found env unmarshal removed config t o past).1
  unfolding pump_found
  pump_found-IsRepublished t none past h = h
  pump_found-IsRepublished t (some []) past h = h
  pump_found-IsRepublished t (some (m ∷ ms)) past h =
      pump_each-IsRepublished t.done_at_member 0 (m ∷ ms) past h

  run_tick-IsRepublished :
      (t : Tick) (past : List Handled)
      → All IsRepublished past
      → All IsRepublished (run_tick env unmarshal removed config t past).1
  unfolding run_tick
  run_tick-IsRepublished t past h =
      if_cases (λ (p : Progress). All IsRepublished p.1) t.done_before _ _ (λ stop. h)
        (λ go. pump_found-IsRepublished t t.members past h)

  -- Over any number of ticks and whatever Redis answers, for each handling of a member: nothing is
  -- called where it does not decode; otherwise the values that it decodes to are added to the stream
  -- once in that handling, and it is removed from the retry set only after the stream took them.
  -- Nothing is said of how many ticks handle a member.
  pub retry_pump-IsRepublished :
      (fuel : ℕ) (ticks : ℕ → Tick) (i : ℕ) (past : List Handled)
      → All IsRepublished past
      → All IsRepublished (retry_pump env unmarshal removed config fuel ticks i past).1
  unfolding retry_pump
  retry_pump-IsRepublished zero ticks i past h = h
  retry_pump-IsRepublished (suc fuel) ticks i past h =
      go_on-Keeps (All IsRepublished) (run_tick env unmarshal removed config (ticks i) past)
        (retry_pump env unmarshal removed config fuel ticks (i + 1))
        (run_tick-IsRepublished (ticks i) past h)
        (λ past' h'. retry_pump-IsRepublished fuel ticks (i + 1) past' h')

  module _ (accepts : (t : List Event) (c : Call) → env.answer t c ≡ nil) where
    pub pump_one-redelivered :
        (member : String) (values : Values) (past : List Handled)
        → unmarshal member ≡ some values
        → pump_one env unmarshal removed config member past
          ≡ redelivered config member values ∷ past
    unfolding pump_one
    pump_one-redelivered member values past decodes =
        ap (λ t. record { id = member; trace = t } ∷ past)
          (republish_retry_member-trace (since (events_of past) env)
            (λ t. removed (t ++ events_of past)) config member unmarshal values decodes
            (λ t. accepts (t ++ events_of past)))

    pump_one-handled :
        (member : String) (past : List Handled)
        → pump_one env unmarshal removed config member past
          ≡ handled config member (unmarshal member) ∷ past
    unfolding pump_one
    pump_one-handled member past = elim (Option-cases (unmarshal member)) [
      | inl broken ↦
          let calls : List Event =
            (republish_retry_member (since (events_of past) env) unmarshal
              (λ t. removed (t ++ events_of past)) config member at_first).1.trace in
          let skipped : ◌≡◌ {A = List Handled} (pump_one env unmarshal removed config member past)
              (record { id = member; trace = [] } ∷ past) =
            ap (λ t. record { id = member; trace = t } ∷ past)
              (subst (λ o. Republished config member o calls) broken
                (republish_retry_member-Republished (since (events_of past) env)
                  (λ t. removed (t ++ events_of past)) config member unmarshal)) in
          skipped ∙ ap (λ o. handled config member o ∷ past) (sym broken)
      | inr (values, decodes) ↦
          pump_one-redelivered member values past decodes
          ∙ ap (λ o. handled config member o ∷ past) (sym decodes)
    ]

    pump_each-handled :
        (is_done : ℕ → Bool) (k : ℕ) (ms : List String) (past : List Handled)
        → ((j : ℕ) → is_done j ≡ false)
        → pump_each env unmarshal removed config is_done k ms past
          ≡ (running, all_handled config unmarshal ms past)
    unfolding pump_each
    pump_each-handled is_done k [] past go = refl
    pump_each-handled is_done k (m ∷ ms) past go =
        rw (go k, pump_one-handled m past)
          (pump_each-handled is_done (suc k) ms (handled config m (unmarshal m) ∷ past) go)

    pump_found-handled :
        (t : Tick) (ms : List String) (past : List Handled)
        → t.done_after_range ≡ false
        → ((j : ℕ) → t.done_at_member j ≡ false)
        → pump_found env unmarshal removed config t (some ms) past
          ≡ (running, all_handled config unmarshal ms past)
    unfolding pump_found
    pump_found-handled t [] past goes_on go =
        ap (λ (b : Bool). ((if b then returned else running), past)) goes_on
    pump_found-handled t (m ∷ ms) past goes_on go =
        pump_each-handled t.done_at_member 0 (m ∷ ms) past go

    -- While Redis takes every call and the context is not done, one tick handles each member that its
    -- query returned, at most 50, once and in order: one that decodes is added to the stream and
    -- removed from the retry set, and for one that does not nothing is called.
    pub run_tick-redelivered :
        (t : Tick) (ms : List String) (past : List Handled)
        → t.done_before ≡ false
        → t.done_after_range ≡ false
        → ((j : ℕ) → t.done_at_member j ≡ false)
        → t.members ≡ some ms
        → run_tick env unmarshal removed config t past
          ≡ (running, all_handled config unmarshal ms past)
    unfolding run_tick pump_found
    run_tick-redelivered t ms past starts goes_on go found =
        ap
          (λ (b : Bool).
            if b
            then (returned, past)
            else pump_found env unmarshal removed config t t.members past)
          starts
        ∙ ap (λ o. pump_found env unmarshal removed config t o past) found
        ∙ pump_found-handled t ms past goes_on go
