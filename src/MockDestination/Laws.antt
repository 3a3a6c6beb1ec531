-- ===== src/MockDestination/Laws.antt =====
-- The counters of the receipt server, its modes, and the idempotency of receipts.
use eventrail_ingestion.Prelude.{
  Bool, List, Option, String, [], arith, eq_iff, false, length, none, pos, some, trim_space, true,
  ℕ, ◌+◌, ◌∷◌, ◌≡◌, ◌≢◌, ◌≤ℤ◌, ◌≤◌, ◌⊎◌,
}
use eventrail_ingestion.MockDestination.{
  ModeRequest, ReceiptRequest, ReceiptServer, Request, apply_receipt, control_mode,
  handle_control_mode, handle_receipts, mode_healthy, mode_temporary_failure,
  mode_validation_failure, receipts, serve, serve_all,
}

abbrev pub IsMode : String → Type 0
IsMode m = (m ≡ mode_healthy) ⊎ (m ≡ mode_temporary_failure) ⊎ (m ≡ mode_validation_failure)

-- The counters add up, no more keys are remembered than receipts succeeded, and the mode and the
-- forced failures are values that the control endpoint accepts.
pub record IsValid (s : ReceiptServer) : Type 0 where
  pub adds_up : s.total ≡ s.successful + s.duplicates + s.failures
  pub keys_succeeded : length s.seen_keys ≤ s.successful
  pub forced : pos 0 ≤ℤ s.fail_next
  pub known_mode : IsMode s.mode

apply_receipt-IsValid :
    (key : String) (s : ReceiptServer) → IsValid s → IsValid (apply_receipt key s).1
unfolding apply_receipt
apply_receipt-IsValid key s v = ground arith

handle_receipts-IsValid :
    (r : ReceiptRequest) (s : ReceiptServer) → IsValid s → IsValid (handle_receipts r s).1
unfolding handle_receipts
handle_receipts-IsValid r s v =
    ground (arith, apply_receipt-IsValid (trim_space r.idempotency_key) s)

handle_control_mode-IsValid :
    (is_post : Bool) (body : Option ModeRequest) (s : ReceiptServer)
    → IsValid s
    → IsValid (handle_control_mode is_post body s).1
unfolding handle_control_mode
handle_control_mode-IsValid false body s v = v
handle_control_mode-IsValid true none s v = v
handle_control_mode-IsValid true (some r) s v = ground (
  arith,
  eq_iff r.mode mode_healthy,
  eq_iff r.mode mode_temporary_failure,
  eq_iff r.mode mode_validation_failure,
)

serve-IsValid : (r : Request) (s : ReceiptServer) → IsValid s → IsValid (serve r s)
unfolding serve
serve-IsValid (receipts r) s v = handle_receipts-IsValid r s v
serve-IsValid (control_mode is_post body) s v = handle_control_mode-IsValid is_post body s v

-- From a valid state, whatever the requests, the state stays valid: the total is the sum of the
-- three outcome counters, remembered keys do not outnumber the successes, the count of forced
-- failures is not negative, and the mode is one of the three.
pub serve_all-IsValid :
    (rs : List Request) (s : ReceiptServer) → IsValid s → IsValid (serve_all rs s)
unfolding serve_all
serve_all-IsValid [] s v = v
serve_all-IsValid (r ∷ rs) s v = serve_all-IsValid rs (serve r s) (serve-IsValid r s v)

-- With a healthy server, no failures forced and a key, a second receipt with the same key is
-- answered 200 and counted as a duplicate, and neither the successes nor the remembered keys change.
pub apply_receipt_twice :
    (key : String) (s : ReceiptServer)
    → key ≢ ""
    → s.mode ≡ mode_healthy
    → s.fail_next ≡ pos 0
    → let first : ReceiptServer = (apply_receipt key s).1 in
      let second : (ℕ × Bool) × ReceiptServer = apply_receipt key first in
      (second.0 ≡ (200, true))
      × (second.1.duplicates ≡ first.duplicates + 1)
      × (second.1.successful ≡ first.successful)
      × (second.1.seen_keys ≡ first.seen_keys)
unfolding apply_receipt
apply_receipt_twice key s k m f = ground (
  arith,
  eq_iff key "",
  eq_iff key key,
  eq_iff s.mode mode_temporary_failure,
  eq_iff s.mode mode_validation_failure,
  eq_iff mode_healthy mode_temporary_failure,
  eq_iff mode_healthy mode_validation_failure,
)
