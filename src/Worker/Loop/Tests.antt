-- ===== src/Worker/Loop/Tests.antt =====
-- Two rounds of the loop: a message is reclaimed, one is read, and then the context is done.
use eventrail_ingestion.Prelude.{
  String, [], contains, false, leb, pos, refl, true, ℕ, ◌∷◌, ◌≡◌, ◌≢◌,
}
use eventrail_ingestion.Errors.{error_text, new, nil}
use eventrail_ingestion.Worker.{text}
use eventrail_ingestion.Worker.Effects.{Env, response}
use eventrail_ingestion.Worker.Loop.{
  Message, Round, ensure_consumer_group, reclaim_pending_messages, replied, run_stream_worker,
  running,
}
use eventrail_ingestion.Worker.Loop.Laws.{run_stream_worker-stops}
use eventrail_ingestion.Worker.Loop.Order.{HandlesInOrder, run_stream_worker-HandlesInOrder}
use eventrail_ingestion.Worker.Samples.{quiet, settings}

abbrev order_placed : String → Message
order_placed id = record {
  id = id;
  values = ("event_id", text "e1") ∷ ("event_type", text "order.placed") ∷ [];
}

abbrev turns : ℕ → Round
turns n = record {
  done_before = leb 1 n;
  claimed = replied (order_placed "1-0" ∷ []);
  done_after_claim = false;
  done_at_claimed = λ k. false;
  read = replied ((order_placed "2-0" ∷ []) ∷ []);
  done_after_read = false;
  timer_fires = true;
  done_at_read = λ k. false;
}

abbrev healthy : Env
healthy = quiet (response (pos 200) "200 OK")

run_stream_worker-HandlesInOrder_example :
    HandlesInOrder
      (order_placed "1-0" ∷ order_placed "2-0" ∷ order_placed "1-0" ∷ order_placed "2-0" ∷ [])
      []
      (run_stream_worker healthy settings 2 turns 0 [])
unfolding reclaim_pending_messages
run_stream_worker-HandlesInOrder_example =
    run_stream_worker-HandlesInOrder healthy settings 2 turns 0 []

run_stream_worker-stops_example : (run_stream_worker healthy settings 2 turns 0 []).0 ≢ running
run_stream_worker-stops_example = run_stream_worker-stops healthy settings 1 turns 0 [] refl

group_exists : ensure_consumer_group (new "BUSYGROUP Consumer Group name already exists") ≡ nil
unfolding ensure_consumer_group contains error_text
group_exists = refl
