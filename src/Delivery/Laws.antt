-- ===== src/Delivery/Laws.antt =====
-- The classes of HTTP statuses, and the decision after a failure.
use eventrail_ingestion.Prelude.{
  Bool, String, arith, eqb_ℤ, if◌then◌else◌, leb_ℤ, ltb_ℤ, pos, ℤ, ◌&&◌, ◌||◌, ◌↔◌, ◌≡◌, ◌≤ℤ◌, ◌⊎◌,
}
use eventrail_ingestion.Delivery.{
  classify_http_status, dead_letter, decide_failure_action, new_http_failure, retry,
}
use eventrail_ingestion.Errors.{nil, permanent, retryable, unset, wrap}

-- The statuses that the standard names for "try again".
abbrev pub IsTryAgain : ℤ → Type 0
IsTryAgain s = (s ≡ pos 408) ⊎ (s ≡ pos 425) ⊎ (s ≡ pos 429)

abbrev pub IsBetween : ℤ → ℤ → ℤ → Type 0
IsBetween lo hi s = (lo ≤ℤ s) × (s ≤ℤ hi)

-- A status is retryable exactly if it is 408, 425 or 429 or lies in 500 to 599; permanent exactly if
-- it is another one of 400 to 499; and of no kind exactly if it lies outside 400 to 599.
pub classify_http_status_iff :
    (s : ℤ)
    → ((classify_http_status s ≡ retryable) ↔ (IsTryAgain s ⊎ IsBetween (pos 500) (pos 599) s))
      × ((classify_http_status s ≡ permanent) ↔ (IsBetween (pos 400) (pos 499) s × ¬ IsTryAgain s))
      × ((classify_http_status s ≡ unset) ↔ ¬ IsBetween (pos 400) (pos 599) s)
unfolding classify_http_status
classify_http_status_iff s = ground arith

-- 408, 425, 429, and what is not below 500.
abbrev pub is_retried : ℤ → Bool
is_retried s = eqb_ℤ s (pos 408) || eqb_ℤ s (pos 425) || eqb_ℤ s (pos 429) || leb_ℤ (pos 500) s

-- A failure for an HTTP status of 400 to 599, wrapped once, is retried exactly if the status is 408,
-- 425, 429 or one of 500 to 599 and the retry count is below the maximum; it is dead-lettered
-- otherwise.
pub decide-new_http_failure :
    (code : ℤ) (status before after : String) (n most : ℤ)
    → IsBetween (pos 400) (pos 599) code
    → decide_failure_action (wrap before (new_http_failure code status) after) n most
      ≡ (if is_retried code && ltb_ℤ n most then retry else dead_letter)
unfolding decide_failure_action new_http_failure classify_http_status
decide-new_http_failure code status before after n most h = ground arith

-- Below 400 and from 600 on there is no failure: the constructor returns nil exactly there.
pub new_http_failure-eq-nil_iff :
    (code : ℤ) (status : String)
    → (new_http_failure code status ≡ nil) ↔ ¬ IsBetween (pos 400) (pos 599) code
unfolding new_http_failure
new_http_failure-eq-nil_iff code status = ground arith
