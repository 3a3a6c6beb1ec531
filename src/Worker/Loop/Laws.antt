-- ===== src/Worker/Loop/Laws.antt =====
-- What the stream worker's loop does with the messages that Redis gives it.
use eventrail_ingestion.Prelude.{
  All, Bool, List, [], ap, arith, if_cases, if◌then◌else◌, subst, suc, sym, true, zero, ℕ, ◌&&◌,
  ◌+◌, ◌∷◌, ◌≡◌, ◌≢◌,
}
use eventrail_ingestion.Errors.{failed}
use eventrail_ingestion.Worker.{Config}
use eventrail_ingestion.Worker.Effects.{Env}
use eventrail_ingestion.Worker.Handling.Laws.{process_stream_message-IsLegal}
use eventrail_ingestion.Worker.Loop.{
  Handled, Message, Progress, RedisReply, Round, after_claim, after_read, all_messages, events_of,
  go_on, handle_one, panicked, process_each, reclaim_pending_messages, redis_error, redis_nil,
  replied, returned, run_round, run_stream_worker, running, since,
}
use eventrail_ingestion.Worker.Protocol.{broken, phase}

module _ {κ} (P : List Handled → Type κ) where
  pub go_on-Keeps :
      (p : Progress) (rest : List Handled → Progress)
      → P p.1
      → ((past : List Handled) → P past → P (rest past).1)
      → P (go_on p rest).1
  go_on-Keeps (running, past) rest h later = later past h
  go_on-Keeps (returned, past) rest h later = h
  go_on-Keeps (panicked, past) rest h later = h

module _ (env : Env) (config : Config) where
  module _ {κ} (P : List Handled → Type κ) where
    -- What the handling of one message keeps.
    abbrev Kept : Type κ
    Kept = (m : Message) (past : List Handled) → P past → P (handle_one env config m past).1

    process_each-Keeps :
        Kept
        → (is_done : ℕ → Bool) (k : ℕ) (ms : List Message) (past : List Handled) → P past
        → P (process_each env config is_done k ms past).1
    unfolding process_each
    process_each-Keeps kept is_done k [] past h = h
    process_each-Keeps kept is_done k (m ∷ ms) past h =
        if_cases (λ (p : Progress). P p.1) (is_done k) _ _ (λ stop. h)
          (λ go.
            go_on-Keeps P (handle_one env config m past)
              (process_each env config is_done (suc k) ms) (kept m past h)
              (λ past' h'. process_each-Keeps kept is_done (suc k) ms past' h'))

    after_read-Keeps :
        Kept
        → (r : Round) (reply : RedisReply (List (List Message))) (past : List Handled) → P past
        → P (after_read env config r reply past).1
    unfolding after_read
    after_read-Keeps kept r (replied streams) past h =
        process_each-Keeps kept r.done_at_read 0 (all_messages streams) past h
    after_read-Keeps kept r redis_nil past h = h
    after_read-Keeps kept r (redis_error streams e) past h = h

    run_round-Keeps :
        Kept → (r : Round) (past : List Handled) → P past → P (run_round env config r past).1
    unfolding run_round after_claim
    run_round-Keeps kept r past h =
        let (messages, e) = reclaim_pending_messages r.claimed in
        if_cases (λ (p : Progress). P p.1) r.done_before _ _ (λ stop. h)
          (λ go.
            if_cases (λ (p : Progress). P p.1) (failed e && r.done_after_claim) _ _ (λ stop. h)
              (λ on.
                go_on-Keeps P (process_each env config r.done_at_claimed 0 messages past)
                  (after_read env config r r.read)
                  (process_each-Keeps kept r.done_at_claimed 0 messages past h)
                  (after_read-Keeps kept r r.read)))

    -- What the handling of one message keeps, the loop keeps.
    run_stream_worker-Keeps :
        Kept
        → (fuel : ℕ) (rounds : ℕ → Round) (i : ℕ) (past : List Handled) → P past
        → P (run_stream_worker env config fuel rounds i past).1
    unfolding run_stream_worker
    run_stream_worker-Keeps kept zero rounds i past h = h
    run_stream_worker-Keeps kept (suc fuel) rounds i past h =
        go_on-Keeps P (run_round env config (rounds i) past)
          (run_stream_worker env config fuel rounds (i + 1))
          (run_round-Keeps kept (rounds i) past h)
          (λ past' h'. run_stream_worker-Keeps kept fuel rounds (i + 1) past' h')

  abbrev pub AreLegal : List Handled → Type 0
  AreLegal = All (λ h. phase config h.id h.trace ≢ broken)

  handle_one-AreLegal :
      (m : Message) (past : List Handled)
      → AreLegal past
      → AreLegal (handle_one env config m past).1
  unfolding handle_one
  handle_one-AreLegal m past h =
      (process_stream_message-IsLegal (since (events_of past) env) config m.id m.values, h)

  -- Over any number of rounds, whatever Redis, the recorder and the destinations answer, the calls
  -- for each message that the loop handles obey the automaton.
  pub run_stream_worker-AreLegal :
      (fuel : ℕ) (rounds : ℕ → Round) (i : ℕ)
      → AreLegal (run_stream_worker env config fuel rounds i []).1
  run_stream_worker-AreLegal fuel rounds i =
      run_stream_worker-Keeps AreLegal handle_one-AreLegal fuel rounds i [] tt

  go_on-stops :
      (p : Progress) (rest : List Handled → Progress)
      → ((past : List Handled) → (rest past).0 ≢ running)
      → (go_on p rest).0 ≢ running
  go_on-stops (running, past) rest h = h past
  go_on-stops (returned, past) rest h = λ e. cc e
  go_on-stops (panicked, past) rest h = λ e. cc e

  run_round-returns :
      (r : Round) (past : List Handled)
      → r.done_before ≡ true
      → run_round env config r past ≡ (returned, past)
  unfolding run_round
  run_round-returns r past h =
      ap
        (λ (b : Bool).
          if b
          then (returned, past)
          else after_claim env config r (reclaim_pending_messages r.claimed) past)
        h

  -- A loop whose context is done by the beginning of round `i + n` has ended within `n + 1` rounds.
  pub run_stream_worker-stops :
      (n : ℕ) (rounds : ℕ → Round) (i : ℕ) (past : List Handled)
      → (rounds (i + n)).done_before ≡ true
      → (run_stream_worker env config (suc n) rounds i past).0 ≢ running
  unfolding run_stream_worker
  run_stream_worker-stops zero rounds i past h =
      let same : i + 0 ≡ i = omega arith in
      let returns : run_round env config (rounds i) past ≡ (returned, past) =
        run_round-returns (rounds i) past (subst (λ k. (rounds k).done_before ≡ true) same h) in
      subst (λ p. (go_on p (λ past'. (running, past'))).0 ≢ running) (sym returns) (λ e. cc e)
  run_stream_worker-stops (suc n) rounds i past h =
      let same : i + suc n ≡ i + 1 + n = omega arith in
      go_on-stops (run_round env config (rounds i) past)
        (run_stream_worker env config (suc n) rounds (i + 1))
        (λ past'.
          run_stream_worker-stops n rounds (i + 1) past'
            (subst (λ k. (rounds k).done_before ≡ true) same h))
