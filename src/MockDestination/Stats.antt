-- ===== src/MockDestination/Stats.antt =====
-- cmd/mock-destination/main.go: the routes of the receipt server, and what /stats tells.
pub mod Laws
use eventrail_ingestion.Prelude.{List, String, [], if◌then◌else◌, ℕ, ℤ, ◌==◌, ◌∷◌}
use eventrail_ingestion.Http.{Reply, json, not_allowed}
use eventrail_ingestion.MockDestination.{ReceiptServer}

-- `statsResponse`.
pub record StatsResponse : Type 0 where
  pub mode : String
  pub remaining_failures : ℤ
  pub total_requests : ℕ
  pub successful_receipts : ℕ
  pub duplicate_requests : ℕ
  pub failed_requests : ℕ

pub stats_response : ReceiptServer → StatsResponse
stats_response s = record {
  mode = s.mode;
  remaining_failures = s.fail_next;
  total_requests = s.total;
  successful_receipts = s.successful;
  duplicate_requests = s.duplicates;
  failed_requests = s.failures;
}

-- `handleStats`, for the method of the request.
pub handle_stats : String → ReceiptServer → Reply StatsResponse
handle_stats method s = if method == "GET" then json 200 (stats_response s) else not_allowed "GET"

-- `dashboardOrigins`, which get the CORS headers.
abbrev pub dashboard_origins : List String
dashboard_origins = "http://localhost:5173" ∷ "http://127.0.0.1:5173" ∷ []
