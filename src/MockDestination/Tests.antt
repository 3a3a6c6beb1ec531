-- ===== src/MockDestination/Tests.antt =====
-- The receipt server on concrete requests.
use eventrail_ingestion.Prelude.{
  String, [], arith, eq_iff, pos, refl, some, trim_space, true, ◌∷◌, ◌≡◌, ◌≢◌,
}
use eventrail_ingestion.MockDestination.{
  Request, control_mode, mode_healthy, new_receipt_server, receipts, serve, serve_all,
}
use eventrail_ingestion.MockDestination.Stats.{handle_stats}
use eventrail_ingestion.MockDestination.Stats.Laws.{AddsUp, handle_stats-AddsUp}

abbrev paid : Request
paid = receipts (record { is_post = true; invoice_id = some "inv-1"; idempotency_key = " e1 " })

abbrev failing : Request
failing = control_mode true (some (record { mode = mode_healthy; fail_next = pos 1 }))

runs : serve_all (failing ∷ paid ∷ paid ∷ paid ∷ []) new_receipt_server ≡ record {
  mode = mode_healthy;
  fail_next = pos 0;
  seen_keys = "e1" ∷ [];
  total = 3;
  successful = 1;
  duplicates = 1;
  failures = 1;
}
unfolding serve_all serve trim_space
runs = refl

e1_ne : ◌≢◌ {A = String} "e1" ""
e1_ne = ground (arith, eq_iff "e1" "")

handle_stats-AddsUp_example :
    AddsUp 3 (handle_stats "GET" (serve_all (failing ∷ paid ∷ paid ∷ paid ∷ []) new_receipt_server))
handle_stats-AddsUp_example = handle_stats-AddsUp (failing ∷ paid ∷ paid ∷ paid ∷ [])
