-- ===== src/Explain.antt =====
-- internal/httpapi/event_explain.go: the snapshot of an event's history and delivery attempts that
-- is sent for an explanation: what is kept, how statuses and outcomes are named, and the bounds.
pub mod SafeError
pub mod Snapshot
pub mod Handler
pub mod Laws
mod Tests
use eventrail_ingestion.Prelude.{
  Bool, List, Option, String, [], contains, drop, false, if◌then◌else◌, leb, leb_ℤ, length, ltb,
  ltb_ℤ, none, not, pos, some, suc, true, zero, ℕ, ℤ, ◌&&◌, ◌-◌, ◌==◌, ◌||◌, ◌∷◌,
}
use eventrail_ingestion.Delivery.{classify_http_status}
use eventrail_ingestion.Errors.{FailureKind, permanent, retryable, unset}

-- `explainStatusHistory`.
pub record HistoryItem : Type 0 where
  pub status : String
  pub occurred_at : Option String

-- What the snapshot reads of `operations.DeliveryAttempt`.
pub record Attempt : Type 0 where
  pub outcome : String
  pub response_code : Option ℤ
  pub error : Option String

abbrev pub max_explain_items : ℕ
max_explain_items = 20

-- `mapExplainStatus`: a status that is not known has no name.
pub map_explain_status : String → Option String
map_explain_status s =
    if s == "STORED"
      || s == "PENDING_PUBLICATION"
      || s == "PUBLISHED"
      || s == "PROCESSING"
      || s == "RETRYING"
      || s == "DEAD_LETTERED"
      || s == "REDRIVEN"
      || s == "DELIVERED"
      || s == "RECEIVED"
    then some s
    else none

keep_known : Option String → Option String → List HistoryItem → List HistoryItem
keep_known none at rest = rest
keep_known (some s) at rest = record { status = s; occurred_at = at } ∷ rest

-- `explainStatusHistoryFromStore`, of pairs of a status and its formatted time.
pub explain_history : List (String × Option String) → List HistoryItem
explain_history [] = []
explain_history ((s, at) ∷ l) = keep_known (map_explain_status s) at (explain_history l)

is_marker : String → Bool
is_marker s = s == "DEAD_LETTERED" || s == "REDRIVEN" || s == "DELIVERED"

-- The entries that are kept before the newest ones are added: the first, and each marker.
marks : Bool → List HistoryItem → List Bool
marks first [] = []
marks first (h ∷ l) = (first || is_marker h.status) ∷ marks false l

marked : List Bool → ℕ
marked [] = 0
marked (b ∷ l) = if b then suc (marked l) else marked l

-- The loop from the newest entry down: it marks an entry while fewer than 20 are marked. The second
-- result is the number that is marked then.
fill : ℕ → List Bool → List Bool × ℕ
fill n [] = ([], n)
fill n (b ∷ l) =
    let (l', k) = fill n l in
    if ltb k max_explain_items then (true ∷ l', (if b then k else suc k)) else (b ∷ l', k)

-- The marked entries in order, until `n` are taken.
collect : ℕ → List Bool → List HistoryItem → List HistoryItem
collect zero bs l = []
collect (suc n) [] l = []
collect (suc n) (b ∷ bs) [] = []
collect (suc n) (true ∷ bs) (h ∷ l) = h ∷ collect n bs l
collect (suc n) (false ∷ bs) (h ∷ l) = collect (suc n) bs l

pub bound_explain_history : List HistoryItem → List HistoryItem
bound_explain_history history =
    if leb (length history) max_explain_items
    then history
    else collect max_explain_items (fill (marked (marks true history)) (marks true history)).0
        history

-- `boundExplainAttempts`: the last 20.
pub bound_explain_attempts {ℓ} : {A : Type ℓ} → List A → List A
bound_explain_attempts attempts =
    if leb (length attempts) max_explain_items
    then attempts
    else drop (length attempts - max_explain_items) attempts

class_name : FailureKind → Option String
class_name retryable = some "temporary_failure"
class_name permanent = some "permanent_failure"
class_name unset = none

named_or : Option String → String → String
named_or none s = s
named_or (some t) s = t

text_outcome : String → String
text_outcome e =
    if contains "permanent" e
    then "permanent_failure"
    else if contains "timeout" e
        || contains "connection" e
        || contains "no such host" e
        || contains "deliver webhook request" e
    then "transport_failure"
    else if contains "retryable" e
    then "temporary_failure"
    else "unknown"

lower_error : (String → String) → Option String → String
lower_error to_lower none = ""
lower_error to_lower (some e) = to_lower e

-- The outcome where no response code decides it. `to_lower` is `strings.ToLower`.
recorded_outcome : (String → String) → Attempt → String
recorded_outcome to_lower a =
    if a.outcome == "SUCCESS"
    then "success"
    else if not (a.outcome == "FAILED")
    then "unknown"
    else text_outcome (lower_error to_lower a.error)

outcome_of_code : Option ℤ → String → String
outcome_of_code none fallback = fallback
outcome_of_code (some status) fallback =
    if leb_ℤ (pos 200) status && leb_ℤ status (pos 299)
    then "success"
    else named_or (class_name (classify_http_status status)) fallback

pub explain_attempt_outcome : (String → String) → Attempt → String
explain_attempt_outcome to_lower a = outcome_of_code a.response_code (recorded_outcome to_lower a)

-- `statusHistoryContains` and `countStatus`.
pub status_history_contains : List (String × Option String) → String → Bool
status_history_contains [] s = false
status_history_contains ((t, at) ∷ l) s = t == s || status_history_contains l s

pub count_status : List (String × Option String) → String → ℕ
count_status [] s = 0
count_status ((t, at) ∷ l) s = if t == s then suc (count_status l s) else count_status l s

-- The details of a history entry: `retry` and `next_retry`, where they are there, or `none` where
-- they do not decode.
abbrev pub RetryDetails : Type 0
RetryDetails = Option (Option ℤ × Option ℤ)

raise_to : Option ℤ → ℤ → ℤ
raise_to none m = m
raise_to (some n) m = if ltb_ℤ m n then n else m

raise_both : RetryDetails → ℤ → ℤ
raise_both none m = m
raise_both (some (retry_count, next)) m = raise_to retry_count (raise_to next m)

-- The loop of `retryCountFromHistory`: the largest retry so far, and the RETRYING entries.
count_retries : ℤ → ℕ → List (String × RetryDetails) → ℤ × ℕ
count_retries m n [] = (m, n)
count_retries m n ((s, d) ∷ l) =
    count_retries (if s == "RETRYING" then raise_both d m else m)
      (if s == "RETRYING" then suc n else n) l

pub retry_count_from_history : List (String × RetryDetails) → ℤ
retry_count_from_history l =
    let (m, n) = count_retries (pos 0) 0 l in if ltb_ℤ (pos 0) m then m else pos n
