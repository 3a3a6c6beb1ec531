-- ===== src/Http/Dlq/Tests.antt =====
-- The handlers on the store with one dead letter.
use eventrail_ingestion.Prelude.{[], if◌then◌else◌, pos, refl, trim_space, ◌==◌, ◌≡◌}
use eventrail_ingestion.Go.Decimal.{atoi}
use eventrail_ingestion.Http.{Request}
use eventrail_ingestion.Http.Dlq.{
  action_route, asked_for, detail_route, dlq_route, known_status, list_query, list_route,
  redrive_route, route_of_parts, status_event_id, triage_route, unknown_route, with_limit,
}
use eventrail_ingestion.Http.Paths.{
  split_slash, trim_prefix, trim_right_slash, trim_slash, trim_suffix,
}

abbrev posted : Request
posted = record {
  method = "POST";
  path = "/dlq/e1/redrive/";
  query = λ k. "";
  header = λ k. "";
  body = [];
}

routes :
    (dlq_route "/dlq" ≡ list_route)
    × (dlq_route "/dlq/e1/" ≡ detail_route "e1")
    × (dlq_route "/dlq/e1/redrive/" ≡ redrive_route "e1")
    × (dlq_route "/dlq/e1/triage" ≡ triage_route "e1")
    × (dlq_route "/dlq/e1/redrive/now" ≡ unknown_route)
unfolding dlq_route route_of_parts action_route trim_slash trim_prefix split_slash
routes = (refl, refl, refl, refl, refl)

status_paths : status_event_id "/events/e1/status/" ≡ "e1"
unfolding status_event_id trim_slash trim_prefix trim_suffix trim_right_slash
status_paths = refl

abbrev listing : Request
listing = record posted {
  method = "GET";
  path = "/dlq";
  query = λ k. if k == "limit" then "200" else "";
}

query_runs : list_query listing ≡ asked_for "OPEN" (pos 200)
unfolding list_query known_status with_limit trim_space atoi
query_runs = refl
