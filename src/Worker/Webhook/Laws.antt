-- ===== src/Worker/Webhook/Laws.antt =====
-- The delivery sends at most one request, leaves the message's map alone, and always returns.
use eventrail_ingestion.Prelude.{
  Bool-cases, Option, String, arith, code, inl, inr, none, pos, refl, some, ℤ, ◌==◌, ◌↔◌, ◌∷◌, ◌≡◌,
  ◌⊎◌,
}
use eventrail_ingestion.Delivery.Laws.{IsBetween, new_http_failure-eq-nil_iff}
use eventrail_ingestion.Errors.{failed, nil}
use eventrail_ingestion.Worker.{HttpRequest, Value, lookup, other, post, text, text_or_empty}
use eventrail_ingestion.Worker.Effects.{
  Env, Webhook, World, reply_error, response, undecodable, webhook,
}
use eventrail_ingestion.Worker.Webhook.{
  Delivered, deliver_reply, post_webhook, process_message, process_payload, process_webhook_message,
  send_webhook,
}

-- The action returned, and either did nothing or called `client.Do` once.
abbrev pub AtMostOneCall : Env → World → Option Delivered × World → Type 0
AtMostOneCall env w r =
    (d : Delivered) × ((r ≡ (some d, w))
      ⊎ ((q : HttpRequest) × (r ≡ (
        some d,
        record w {
          trace = record { call = post q; error = reply_error (env.http w.trace q) } ∷ w.trace;
        },
      ))))

send_webhook-AtMostOneCall :
    (env : Env) (url : String) (body : Option String) (w : World)
    → AtMostOneCall env w (send_webhook env url body w)
unfolding send_webhook
send_webhook-AtMostOneCall env url none w = (_, inl refl)
send_webhook-AtMostOneCall env url (some body) w =
    elim (Bool-cases (failed (env.new_request url))) [
      | inl bad ↦ rw bad (_, inl refl)
      | inr good ↦ rw good (_, inr (_, refl))
    ]

post_webhook-AtMostOneCall :
    (env : Env) (payload : String) (decoded : Webhook) (w : World)
    → AtMostOneCall env w (post_webhook env payload decoded w)
unfolding post_webhook
post_webhook-AtMostOneCall env payload (undecodable e) w = (_, inl refl)
post_webhook-AtMostOneCall env payload (webhook url) w = elim (Bool-cases (url == "")) [
  | inl bad ↦ rw bad (_, inl refl)
  | inr good ↦ rw good (send_webhook-AtMostOneCall env url (env.marshal_data payload) w)
]

process_payload-AtMostOneCall :
    (env : Env) (v : Option Value) (w : World) → AtMostOneCall env w (process_payload env v w)
unfolding process_payload
process_payload-AtMostOneCall env (some (text payload)) w =
    post_webhook-AtMostOneCall env payload (env.decode_webhook payload) w
process_payload-AtMostOneCall env none w = (_, inl refl)
process_payload-AtMostOneCall env (some other) w = (_, inl refl)

-- Whatever the environment, the delivery of a message returns, calls `client.Do` at most once, and
-- changes nothing else; how many HTTP requests that call sends, redirects followed, is not said.
pub process_message-AtMostOneCall :
    (env : Env) (w : World) → AtMostOneCall env w (process_message env w)
unfolding process_message process_webhook_message
process_message-AtMostOneCall env w =
    elim (Bool-cases (text_or_empty (lookup "event_type" w.values) == "force.fail")) [
      | inl forced ↦ rw forced (_, inl refl)
      | inr unforced ↦
          rw unforced
            (elim (Bool-cases (text_or_empty (lookup "event_type" w.values) == "webhook")) [
              | inl hook ↦ rw hook (process_payload-AtMostOneCall env (lookup "payload" w.values) w)
              | inr plain ↦ rw plain (_, inl refl)
            ])
    ]

-- A response is delivered without an error exactly if its status lies outside 400 to 599.
pub deliver_reply-ok_iff :
    (code : ℤ) (status : String)
    → ((deliver_reply (response code status)).error ≡ nil) ↔ ¬ IsBetween (pos 400) (pos 599) code
unfolding deliver_reply
deliver_reply-ok_iff code status = ground (arith, new_http_failure-eq-nil_iff code status)
