-- ===== src/Errors.antt =====
-- Go's `error` values as the repository builds and inspects them: the `Failure` struct of
-- internal/delivery/failure.go, the sentinel errors of the packages, `errors.New`, and `fmt.Errorf`
-- with `%w`; `errors.Is` and `errors.As` for `*delivery.Failure`.
pub mod Laws
use eventrail_ingestion.Prelude.{
  Bool, Option, String, [], concat, eqb_ℤ, false, if◌then◌else◌, none, pos, some, true, ℤ, ◌∷◌,
}
use eventrail_ingestion.Go.Decimal.{itoa}

-- `FailureKind`; `unset` is the empty string.
pub data FailureKind : Type 0 where
  retryable permanent unset : FailureKind

-- The package-level errors that callers compare with.
pub data Sentinel : Type 0 where
  idempotency_conflict outbox_publish_failed event_not_found dlq_not_found : Sentinel
  dlq_not_open no_rows event_not_ready ai_unavailable ai_invalid_response : Sentinel
  extra_json_value : Sentinel

-- `wrap before e after` is `fmt.Errorf` with `%w` between two texts.
pub data Error : Type 0 where
  nil : Error
  new : String → Error
  sentinel : Sentinel → Error
  wrap : String → Error → String → Error
  failure : FailureKind → ℤ → Error → Error

-- `err != nil`.
abbrev pub failed : Error → Bool
failed nil = false
failed _ = true

pub record Failure : Type 0 where
  pub kind : FailureKind
  pub status_code : ℤ
  pub cause : Error

-- `errors.As(err, &failure)`: the first `*Failure` of the chain.
unfoldable pub as_failure : Error → Option Failure
as_failure (wrap before e after) = as_failure e
as_failure (failure k s c) = some (record { kind = k; status_code = s; cause = c })
as_failure _ = none

abbrev pub same_sentinel : Sentinel → Sentinel → Bool
same_sentinel idempotency_conflict idempotency_conflict = true
same_sentinel outbox_publish_failed outbox_publish_failed = true
same_sentinel event_not_found event_not_found = true
same_sentinel dlq_not_found dlq_not_found = true
same_sentinel dlq_not_open dlq_not_open = true
same_sentinel no_rows no_rows = true
same_sentinel event_not_ready event_not_ready = true
same_sentinel ai_unavailable ai_unavailable = true
same_sentinel ai_invalid_response ai_invalid_response = true
same_sentinel extra_json_value extra_json_value = true
same_sentinel _ _ = false

-- `errors.Is(err, target)`.
unfoldable pub is_error : Error → Sentinel → Bool
is_error nil t = false
is_error (new m) t = false
is_error (sentinel s) t = same_sentinel s t
is_error (wrap before e after) t = is_error e t
is_error (failure k s c) t = is_error c t

sentinel_text : Sentinel → String
sentinel_text idempotency_conflict = "idempotency key conflict"
sentinel_text outbox_publish_failed = "outbox publication failed"
sentinel_text event_not_found = "event not found"
sentinel_text dlq_not_found = "DLQ record not found"
sentinel_text dlq_not_open = "DLQ record is not open"
sentinel_text no_rows = "no rows in result set"
sentinel_text event_not_ready = "event not ready for explanation"
sentinel_text ai_unavailable = "AI service unavailable"
sentinel_text ai_invalid_response = "AI service invalid response"
sentinel_text extra_json_value = "request body must contain exactly one JSON value"

kind_text : FailureKind → String
kind_text retryable = "retryable"
kind_text permanent = "permanent"
kind_text unset = "unknown"

-- `Failure.Error`, from the kind, the status and the text of a cause that is there.
failure_text : FailureKind → ℤ → Option String → String
failure_text k s (some cause) =
    if eqb_ℤ s (pos 0)
    then concat (kind_text k ∷ " delivery failure: " ∷ cause ∷ [])
    else concat (kind_text k ∷ " delivery failure status=" ∷ itoa s ∷ ": " ∷ cause ∷ [])
failure_text k s none =
    if eqb_ℤ s (pos 0)
    then concat (kind_text k ∷ " delivery failure" ∷ [])
    else concat (kind_text k ∷ " delivery failure status=" ∷ itoa s ∷ [])

-- `err.Error()`; a nil error has no text.
unfoldable pub error_text : Error → String
unfolding sentinel_text kind_text failure_text
error_text nil = ""
error_text (new m) = m
error_text (sentinel s) = sentinel_text s
error_text (wrap before e after) = concat (before ∷ error_text e ∷ after ∷ [])
error_text (failure k s nil) = failure_text k s none
error_text (failure k s c) = failure_text k s (some (error_text c))

-- `Failure.Unwrap` through `errors.Unwrap`.
unfoldable pub unwrap : Error → Error
unwrap (wrap before e after) = e
unwrap (failure k s c) = c
unwrap _ = nil
