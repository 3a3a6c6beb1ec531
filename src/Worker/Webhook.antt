-- ===== src/Worker/Webhook.antt =====
-- The delivery of a message: `processMessageWithResult` and `processWebhookMessageWithResult`.
pub mod Laws
use eventrail_ingestion.Prelude.{
  Option, String, code, if◌then◌else◌, leb_ℤ, none, pos, some, ℤ, ◌==◌,
}
use eventrail_ingestion.Delivery.{new_http_failure, new_permanent_failure, new_retryable_failure}
use eventrail_ingestion.Errors.{Error, failed, new, nil, wrap}
use eventrail_ingestion.Worker.{Value, lookup, text, text_or_empty}
use eventrail_ingestion.Worker.Effects.{
  Act, Env, HttpReply, Webhook, get_values, pure, response, send, transport_error, undecodable,
  webhook, ◌>>=◌, ◌>>◌,
}

-- `processMessageResult` and the error beside it.
pub record Delivered : Type 0 where
  pub response_code : Option ℤ
  pub error : Error

abbrev failed_with : Error → Delivered
failed_with e = record { response_code = none; error = e }

-- The answer of the destination.
unfoldable pub deliver_reply : HttpReply → Delivered
deliver_reply (transport_error e) =
    failed_with (new_retryable_failure (wrap "deliver webhook request: " e ""))
deliver_reply (response code status) =
    if leb_ℤ (pos 400) code
    then record { response_code = some code; error = new_http_failure code status }
    else record { response_code = some code; error = nil }

-- The `Idempotency-Key` header is set from an event id that is a text and not empty.
request_key : Option Value → Option String
request_key (some (text s)) = if s == "" then none else some s
request_key _ = none

-- From the encoded `data` on: building the request, sending it, and reading the answer.
send_webhook : Env → String → Option String → Act Delivered
unfolding deliver_reply request_key lookup new_permanent_failure
send_webhook env url none =
    pure (failed_with (new_permanent_failure (new "failed to marshal webhook data")))
send_webhook env url (some body) =
    if failed (env.new_request url)
    then pure (
        failed_with
          (new_permanent_failure (wrap "create webhook request: " (env.new_request url) "")))
    else do
      values ← get_values
      reply ←
          send env (record { url = url; body = body; key = request_key (lookup "event_id" values) })
      pure (deliver_reply reply)

-- The payload's URL must not be empty.
post_webhook : Env → String → Webhook → Act Delivered
unfolding send_webhook
post_webhook env payload (undecodable e) =
    pure (failed_with (new_permanent_failure (wrap "invalid webhook payload: " e "")))
post_webhook env payload (webhook url) =
    if url == ""
    then pure (failed_with (new_permanent_failure (new "webhook url is required")))
    else send_webhook env url (env.marshal_data payload)

process_payload : Env → Option Value → Act Delivered
unfolding post_webhook
process_payload env (some (text payload)) = post_webhook env payload (env.decode_webhook payload)
process_payload env _ =
    pure (failed_with (new_permanent_failure (new "webhook event missing payload")))

unfoldable pub process_webhook_message : Env → Act Delivered
unfolding process_payload lookup
process_webhook_message env = do values ← get_values; process_payload env (lookup "payload" values)

unfoldable pub process_message : Env → Act Delivered
unfolding process_webhook_message lookup new_retryable_failure
process_message env = do
  values ← get_values
  let kind = text_or_empty (lookup "event_type" values)
  if kind == "force.fail"
      then pure (failed_with (new_retryable_failure (new "forced failure for testing")))
      else if kind == "webhook"
      then process_webhook_message env
      else pure (record { response_code = none; error = nil })
