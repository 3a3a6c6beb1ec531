-- ===== src/Delivery/Tests.antt =====
-- Runs of the delivery failures.
use eventrail_ingestion.Prelude.{arith, pos, refl, trim_space, ◌≡◌}
use eventrail_ingestion.Delivery.{
  dead_letter, decide_failure_action, new_http_failure, new_permanent_failure, retry,
}
use eventrail_ingestion.Delivery.Laws.{decide-new_http_failure}
use eventrail_ingestion.Errors.{error_text, new, nil, wrap}
use eventrail_ingestion.Go.Decimal.{itoa}

delivery_runs :
    (error_text (new_http_failure (pos 503) " ")
      ≡ "retryable delivery failure status=503: Service Unavailable")
    × (new_http_failure (pos 600) "600 odd" ≡ nil)
    × (decide_failure_action (new_permanent_failure (new "x")) (pos 0) (pos 5) ≡ dead_letter)
    × (decide_failure_action (new "x") (pos 5) (pos 5) ≡ dead_letter)
unfolding error_text new_http_failure decide_failure_action new_permanent_failure itoa trim_space
delivery_runs = (refl, refl, refl, refl)

decide-new_http_failure_example :
    decide_failure_action (wrap "a: " (new_http_failure (pos 429) "") "") (pos 0) (pos 5) ≡ retry
decide-new_http_failure_example =
    decide-new_http_failure (pos 429) "" "a: " "" (pos 0) (pos 5) (omega arith, omega arith)
