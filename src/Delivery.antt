-- ===== src/Delivery.antt =====
-- internal/delivery/failure.go: delivery failures, the classes of HTTP statuses, and what a worker
-- does after a failure.
pub mod Laws
pub mod Tests
use eventrail_ingestion.Prelude.{
  Bool, List, Option, String, [], code, concat, eqb_ℤ, false, if◌then◌else◌, leb_ℤ, ltb_ℤ, pos,
  some, trim_space, true, ℕ, ℤ, ◌&&◌, ◌==◌, ◌||◌, ◌∷◌,
}
use eventrail_ingestion.Errors.{
  Error, Failure, FailureKind, as_failure, failure, new, nil, permanent, retryable, unset,
}
use eventrail_ingestion.Go.Decimal.{itoa}

pub data FailureAction : Type 0 where
  retry dead_letter : FailureAction

unfoldable pub new_retryable_failure : Error → Error
new_retryable_failure cause = failure retryable (pos 0) cause

unfoldable pub new_permanent_failure : Error → Error
new_permanent_failure cause = failure permanent (pos 0) cause

-- 408, 425 and 429 are the statuses of `http.StatusRequestTimeout`, `StatusTooEarly` and
-- `StatusTooManyRequests`.
unfoldable pub classify_http_status : ℤ → FailureKind
classify_http_status s =
    if eqb_ℤ s (pos 408) || eqb_ℤ s (pos 425) || eqb_ℤ s (pos 429)
    then retryable
    else if leb_ℤ (pos 500) s && leb_ℤ s (pos 599)
    then retryable
    else if leb_ℤ (pos 400) s && leb_ℤ s (pos 499)
    then permanent
    else unset

lookup_text : List (ℕ × String) → ℤ → String
lookup_text [] s = ""
lookup_text ((n, t) ∷ l) s = if eqb_ℤ s (pos n) then t else lookup_text l s

-- `http.StatusText` from 400 on; below that it is not called.
status_text : ℤ → String
unfolding lookup_text
status_text = lookup_text (
    (400, "Bad Request")
    ∷ (401, "Unauthorized")
    ∷ (402, "Payment Required")
    ∷ (403, "Forbidden")
    ∷ (404, "Not Found")
    ∷ (405, "Method Not Allowed")
    ∷ (406, "Not Acceptable")
    ∷ (407, "Proxy Authentication Required")
    ∷ (408, "Request Timeout")
    ∷ (409, "Conflict")
    ∷ (410, "Gone")
    ∷ (411, "Length Required")
    ∷ (412, "Precondition Failed")
    ∷ (413, "Request Entity Too Large")
    ∷ (414, "Request URI Too Long")
    ∷ (415, "Unsupported Media Type")
    ∷ (416, "Requested Range Not Satisfiable")
    ∷ (417, "Expectation Failed")
    ∷ (418, "I'm a teapot")
    ∷ (421, "Misdirected Request")
    ∷ (422, "Unprocessable Entity")
    ∷ (423, "Locked")
    ∷ (424, "Failed Dependency")
    ∷ (425, "Too Early")
    ∷ (426, "Upgrade Required")
    ∷ (428, "Precondition Required")
    ∷ (429, "Too Many Requests")
    ∷ (431, "Request Header Fields Too Large")
    ∷ (451, "Unavailable For Legal Reasons")
    ∷ (500, "Internal Server Error")
    ∷ (501, "Not Implemented")
    ∷ (502, "Bad Gateway")
    ∷ (503, "Service Unavailable")
    ∷ (504, "Gateway Timeout")
    ∷ (505, "HTTP Version Not Supported")
    ∷ (506, "Variant Also Negotiates")
    ∷ (507, "Insufficient Storage")
    ∷ (508, "Loop Detected")
    ∷ (510, "Not Extended")
    ∷ (511, "Network Authentication Required")
    ∷ [])

-- The text of the cause: the response's status line, the standard text, or the number.
http_failure_text : ℤ → String → String
unfolding status_text
http_failure_text code status =
    if trim_space status == ""
    then (if status_text code == ""
        then concat ("HTTP status " ∷ itoa code ∷ [])
        else status_text code)
    else trim_space status

-- The constructor's result for a kind that `ClassifyHTTPStatus` returned.
http_failure : FailureKind → ℤ → String → Error
unfolding http_failure_text
http_failure unset code status = nil
http_failure kind code status = failure kind code (new (http_failure_text code status))

unfoldable pub new_http_failure : ℤ → String → Error
unfolding classify_http_status http_failure
new_http_failure code status = http_failure (classify_http_status code) code status

abbrev has_kind : FailureKind → Option Failure → Bool
has_kind retryable (some f) = elim f.kind [ retryable ↦ true | _ ↦ false ]
has_kind permanent (some f) = elim f.kind [ permanent ↦ true | _ ↦ false ]
has_kind _ _ = false

unfoldable pub is_retryable : Error → Bool
unfolding as_failure
is_retryable e = has_kind retryable (as_failure e)

unfoldable pub is_permanent : Error → Bool
unfolding as_failure
is_permanent e = has_kind permanent (as_failure e)

unfoldable pub decide_failure_action : Error → ℤ → ℤ → FailureAction
unfolding is_permanent
decide_failure_action e retry_count max_retries =
    if is_permanent e
    then dead_letter
    else if ltb_ℤ retry_count max_retries
    then retry
    else dead_letter
