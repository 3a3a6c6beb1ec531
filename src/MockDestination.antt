-- ===== src/MockDestination.antt =====
-- cmd/mock-destination/main.go: the receipt server that the demo delivers webhooks to. Its state is
-- guarded by one mutex, so each handler's change of it is one step.
pub mod Laws
pub mod Stats
pub mod Tests
use eventrail_ingestion.Prelude.{
  Bool, List, Option, String, [], eqb, false, if◌then◌else◌, leb_ℤ, ltb_ℤ, none, not, pos, some,
  trim_space, true, ℕ, ℤ, ◌&&◌, ◌+◌, ◌-ℤ◌, ◌==◌, ◌||◌, ◌∷◌,
}

-- `receiptServer`; `seen_keys` is the set of idempotency keys that were accepted.
pub record ReceiptServer : Type 0 where
  pub mode : String
  pub fail_next : ℤ
  pub seen_keys : List String
  pub total : ℕ
  pub successful : ℕ
  pub duplicates : ℕ
  pub failures : ℕ

abbrev pub mode_healthy : String
mode_healthy = "healthy"

abbrev pub mode_temporary_failure : String
mode_temporary_failure = "temporary_failure"

abbrev pub mode_validation_failure : String
mode_validation_failure = "validation_failure"

abbrev pub new_receipt_server : ReceiptServer
new_receipt_server = record {
  mode = mode_healthy;
  fail_next = pos 0;
  seen_keys = [];
  total = 0;
  successful = 0;
  duplicates = 0;
  failures = 0;
}

abbrev pub contains : List String → String → Bool
contains [] k = false
contains (j ∷ l) k = j == k || contains l k

pub record_failure : ReceiptServer → ReceiptServer
record_failure s = record s { total = s.total + 1; failures = s.failures + 1 }

-- A receipt that reaches the idempotency check: a seen key is a duplicate, another is remembered.
accept : String → ReceiptServer → (ℕ × Bool) × ReceiptServer
accept key s =
    if key == ""
    then ((200, false), record s { successful = s.successful + 1 })
    else if contains s.seen_keys key
    then ((200, true), record s { duplicates = s.duplicates + 1 })
    else ((200, false), record s { seen_keys = key ∷ s.seen_keys; successful = s.successful + 1 })

-- `applyReceipt`: the status code, whether it was a duplicate, and the new state.
pub apply_receipt : String → ReceiptServer → (ℕ × Bool) × ReceiptServer
unfolding accept
apply_receipt key s =
    let counted : ReceiptServer = record s { total = s.total + 1 } in
    if ltb_ℤ (pos 0) s.fail_next
    then (
      (500, false),
      record counted { fail_next = s.fail_next -ℤ pos 1; failures = s.failures + 1 },
    )
    else if s.mode == mode_temporary_failure
    then ((500, false), record counted { failures = s.failures + 1 })
    else if s.mode == mode_validation_failure
    then ((400, false), record counted { failures = s.failures + 1 })
    else accept key counted

-- A request to `/receipts`: the method test, the body (`none` if it does not decode; otherwise its
-- invoice id), and the `Idempotency-Key` header. The answer is the status and the duplicate flag.
pub record ReceiptRequest : Type 0 where
  pub is_post : Bool
  pub invoice_id : Option String
  pub idempotency_key : String

has_invoice : Option String → Bool
has_invoice none = false
has_invoice (some id) = not (trim_space id == "")

-- A status that `applyReceipt` does not return is answered with 500.
answer : ℕ × Bool → ℕ × Bool
answer (status, duplicate) =
    if eqb status 200
    then (200, duplicate)
    else if eqb status 400
    then (400, false)
    else (500, false)

pub handle_receipts : ReceiptRequest → ReceiptServer → (ℕ × Bool) × ReceiptServer
unfolding record_failure apply_receipt answer has_invoice
handle_receipts r s =
    if not r.is_post
    then ((405, false), s)
    else if not (has_invoice r.invoice_id)
    then ((400, false), record_failure s)
    else let (reply, s') = apply_receipt (trim_space r.idempotency_key) s in (answer reply, s')

-- `modeRequest`.
pub record ModeRequest : Type 0 where
  pub mode : String
  pub fail_next : ℤ

pub validate_mode_request : ModeRequest → Bool
validate_mode_request r =
    leb_ℤ (pos 0) r.fail_next
    && (r.mode == mode_healthy
        || r.mode == mode_temporary_failure
        || r.mode == mode_validation_failure)

-- A request to `/control/mode`; `none` is a body that does not decode.
pub handle_control_mode : Bool → Option ModeRequest → ReceiptServer → ℕ × ReceiptServer
unfolding validate_mode_request
handle_control_mode false body s = (405, s)
handle_control_mode true none s = (400, s)
handle_control_mode true (some r) s =
    if validate_mode_request r
    then (200, record s { mode = r.mode; fail_next = r.fail_next })
    else (400, s)

pub data Request : Type 0 where
  receipts : ReceiptRequest → Request
  control_mode : Bool → Option ModeRequest → Request

-- One request that changes the state (`/stats`, in Stats, only reads it).
pub serve : Request → ReceiptServer → ReceiptServer
unfolding handle_receipts handle_control_mode
serve (receipts r) s = (handle_receipts r s).1
serve (control_mode is_post body) s = (handle_control_mode is_post body s).1

pub serve_all : List Request → ReceiptServer → ReceiptServer
serve_all [] s = s
serve_all (r ∷ rs) s = serve_all rs (serve r s)
