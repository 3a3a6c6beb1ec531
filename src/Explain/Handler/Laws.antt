-- ===== src/Explain/Handler/Laws.antt =====
-- What the handler of explanations answers, and that it changes nothing.
use eventrail_ingestion.Prelude.{List, String, arith, if_cases, refl, some, true, ℕ, ◌==◌, ◌≡◌, ◌≤◌}
use eventrail_ingestion.AiClient.{
  AiReply, Decoded, ExplainResponse, Explanation, explain, validate_explain_response,
}
use eventrail_ingestion.AiClient.Laws.{explain-IsValidated}
use eventrail_ingestion.Errors.{
  Error, ai_invalid_response, event_not_found, event_not_ready, failed, is_error, nil,
}
use eventrail_ingestion.Errors.Laws.{nil_of_not_failed}
use eventrail_ingestion.Explain.Handler.{
  event_explain_handler, explain_event_id, explain_with, explained, not_built, reply_to,
  valid_event_id,
}
use eventrail_ingestion.Explain.Snapshot.{ExplainRequest, explain_request_from_store}
use eventrail_ingestion.Explain.Snapshot.Reads.{explain_request_from_store-Reads}
use eventrail_ingestion.Http.{Reply, Request, bare, error_reply, json, not_allowed, require_method}
use eventrail_ingestion.Http.Triage.{DecodeData}
use eventrail_ingestion.Operations.Reading.Unchanged.{Any, Reads, Same}
use eventrail_ingestion.Operations.Session.{Database, Result, Session, ok}
use eventrail_ingestion.Operations.Session.Rules.{Ensures, done, stopped}

-- An explanation that passed the validation, or a refusal.
pub data IsReply : Reply ExplainResponse → Type 0 where
  explains : {r : ExplainResponse} → validate_explain_response r ≡ nil → IsReply (json 200 r)
  refuses : {n : ℕ} {m : String} → 400 ≤ n → IsReply (error_reply n m)
  is_missing : IsReply (bare 404)
  wrong_method : IsReply (not_allowed "POST")

not_built-IsReply : (e : Error) → IsReply (not_built e)
unfolding not_built
not_built-IsReply e =
    if_cases IsReply (is_error e event_not_found) (bare 404) _ (λ _. is_missing)
      (λ _.
        if_cases IsReply (is_error e event_not_ready) _ _ (λ _. refuses (omega arith))
          (λ _. refuses (omega arith)))

explained-IsReply :
    (x : Explanation)
    → (Explanation.error x ≡ nil → validate_explain_response (Explanation.response x) ≡ nil)
    → IsReply (explained x)
unfolding explained
explained-IsReply x h =
    if_cases IsReply (is_error x.error ai_invalid_response) _ _ (λ _. refuses (omega arith))
      (λ _.
        if_cases IsReply (failed x.error) _ _ (λ _. refuses (omega arith))
          (λ good. explains (h (nil_of_not_failed x.error good))))

module _ (client : ExplainRequest → Explanation)
    (validates : (q : ExplainRequest)
      → Explanation.error (client q) ≡ nil
      → validate_explain_response (Explanation.response (client q)) ≡ nil) where
  reply_to-IsReply :
      (s : Session) (p : Result ExplainRequest × Session)
      → Ensures (λ a s'. Any a × Same s s') (λ s'. Same s s') p
      → IsReply (reply_to client p).0 × Same s (reply_to client p).1
  unfolding reply_to
  reply_to-IsReply s _ (done {a = q} h) = (explained-IsReply (client q) (validates q), h.1)
  reply_to-IsReply s _ (stopped {e = e} h) = (not_built-IsReply e, h)

-- Whatever the AI service and PostgreSQL answer, the handler changes no table and hands nothing
-- over, and a reply that is no error is an explanation with status 200 that passed the validation.
pub event_explain_handler-IsReply :
    (db : Database) (to_lower : String → String) (decode : DecodeData)
    (decode_reply : List ℕ → Decoded) (service : ExplainRequest → AiReply) (r : Request)
    (s : Session)
    → IsReply
        (event_explain_handler db to_lower decode
          (some (λ q. explain decode_reply (service q)))
          r
          s).0
      × Same s
          (event_explain_handler db to_lower decode
            (some (λ q. explain decode_reply (service q)))
            r
            s).1
unfolding event_explain_handler explain_with require_method
event_explain_handler-IsReply db to_lower decode decode_reply service r s =
    let id : String = explain_event_id r.path in
    let Good : Reply ExplainResponse × Session → Type 0 = λ p. IsReply p.0 × Same s p.1 in
    if_cases Good (r.method == "POST") _ _
      (λ _.
        if_cases Good (valid_event_id id) _ _
          (λ _.
            reply_to-IsReply (λ q. explain decode_reply (service q))
              (λ q. explain-IsValidated decode_reply (service q)) s
              (explain_request_from_store db to_lower decode id s)
              (Reads.run (explain_request_from_store-Reads db to_lower decode id) s))
          (λ _. (refuses (omega arith), (refl, refl))))
      (λ _. (wrong_method, (refl, refl)))

explained-nil : (x : Explanation) → Explanation.error x ≡ nil → explained x ≡ json 200 x.response
unfolding explained is_error
explained-nil x h = rw h refl

-- A POST for a valid event id whose snapshot is built and whose explanation the client accepts is
-- answered with that explanation.
pub event_explain_handler-explains :
    (db : Database) (to_lower : String → String) (decode : DecodeData)
    (client : ExplainRequest → Explanation) (r : Request) (s s' : Session) (q : ExplainRequest)
    → (r.method == "POST") ≡ true
    → valid_event_id (explain_event_id r.path) ≡ true
    → explain_request_from_store db to_lower decode (explain_event_id r.path) s ≡ (ok q, s')
    → Explanation.error (client q) ≡ nil
    → event_explain_handler db to_lower decode (some client) r s
      ≡ (json 200 (Explanation.response (client q)), s')
unfolding event_explain_handler explain_with require_method reply_to
event_explain_handler-explains db to_lower decode client r s s' q post valid built fine =
    rw (post, valid, built, explained-nil (client q) fine) refl
