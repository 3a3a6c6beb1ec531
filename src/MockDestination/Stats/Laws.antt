-- ===== src/MockDestination/Stats/Laws.antt =====
-- What /stats tells after any requests.
use eventrail_ingestion.Prelude.{
  Bool, List, Option, String, [], arith, count_if, false, if◌then◌else◌, none, pos, refl, some,
  trim_space, true, ℕ, ◌+◌, ◌∷◌, ◌≡◌, ◌≤ℤ◌,
}
use eventrail_ingestion.Http.{Reply, json}
use eventrail_ingestion.MockDestination.{
  ModeRequest, ReceiptRequest, ReceiptServer, Request, apply_receipt, control_mode,
  handle_control_mode, handle_receipts, new_receipt_server, receipts, serve, serve_all,
}
use eventrail_ingestion.MockDestination.Laws.{IsMode, IsValid, serve_all-IsValid}
use eventrail_ingestion.MockDestination.Stats.{StatsResponse, handle_stats, stats_response}

-- The requests that count: a POST to /receipts, whatever its body.
abbrev pub is_counted : Request → Bool
is_counted (receipts r) = r.is_post
is_counted (control_mode is_post body) = false

total-apply_receipt :
    (key : String) (s : ReceiptServer) → (apply_receipt key s).1.total ≡ s.total + 1
unfolding apply_receipt
total-apply_receipt key s = ground arith

total-handle_receipts :
    (r : ReceiptRequest) (s : ReceiptServer)
    → (handle_receipts r s).1.total ≡ (if r.is_post then s.total + 1 else s.total)
unfolding handle_receipts
total-handle_receipts r s = ground (arith, total-apply_receipt (trim_space r.idempotency_key) s)

total-handle_control_mode :
    (is_post : Bool) (body : Option ModeRequest) (s : ReceiptServer)
    → (handle_control_mode is_post body s).1.total ≡ s.total
unfolding handle_control_mode
total-handle_control_mode false body s = refl
total-handle_control_mode true none s = refl
total-handle_control_mode true (some r) s = ground arith

total-serve :
    (r : Request) (s : ReceiptServer)
    → (serve r s).total ≡ (if is_counted r then s.total + 1 else s.total)
unfolding serve
total-serve (receipts r) s = total-handle_receipts r s
total-serve (control_mode is_post body) s = total-handle_control_mode is_post body s

total-serve_all :
    (rs : List Request) (s : ReceiptServer)
    → (serve_all rs s).total ≡ s.total + count_if is_counted rs
unfolding serve_all
total-serve_all [] s = omega arith
total-serve_all (r ∷ rs) s = ground (arith, total-serve_all rs (serve r s), total-serve r s)

-- What the server tells of itself.
abbrev pub AddsUp : ℕ → Reply StatsResponse → Type 0
AddsUp requests reply =
    (x : StatsResponse) × (reply ≡ json 200 x)
    × (x.total_requests ≡ requests)
    × (x.total_requests ≡ x.successful_receipts + x.duplicate_requests + x.failed_requests)
    × (pos 0 ≤ℤ x.remaining_failures)
    × IsMode x.mode

new_receipt_server-IsValid : IsValid new_receipt_server
new_receipt_server-IsValid = ground arith

-- After any requests to a new server, a GET of /stats is answered with 200: the total is the number
-- of POSTs to /receipts, refused ones included, and the sum of the three outcome counters; the count
-- of forced failures is not negative, and the mode is one of the three.
pub handle_stats-AddsUp :
    (rs : List Request)
    → AddsUp (count_if is_counted rs) (handle_stats "GET" (serve_all rs new_receipt_server))
unfolding handle_stats stats_response
handle_stats-AddsUp rs =
    let v = serve_all-IsValid rs new_receipt_server new_receipt_server-IsValid in
    (
      stats_response (serve_all rs new_receipt_server),
      refl,
      omega (arith, total-serve_all rs new_receipt_server),
      v.adds_up,
      v.forced,
      v.known_mode,
    )
