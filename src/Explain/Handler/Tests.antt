-- ===== src/Explain/Handler/Tests.antt =====
-- Ids of events, and a request whose id is none.
use eventrail_ingestion.Prelude.{
  List, String, [], false, none, pos, refl, some, trim_space, true, ℕ, ◌≡◌,
}
use eventrail_ingestion.AiClient.{AiReply, Decoded, answered, explain, malformed}
use eventrail_ingestion.Errors.{new}
use eventrail_ingestion.Explain.Handler.{event_explain_handler, explain_event_id, valid_event_id}
use eventrail_ingestion.Explain.Handler.Laws.{IsReply, event_explain_handler-IsReply}
use eventrail_ingestion.Explain.Snapshot.{ExplainRequest}
use eventrail_ingestion.Http.{Request}
use eventrail_ingestion.Http.Paths.{trim_prefix, trim_right_slash, trim_slash, trim_suffix}
use eventrail_ingestion.Http.Triage.{DecodeData}
use eventrail_ingestion.Operations.Reading.Unchanged.{Same}
use eventrail_ingestion.Operations.Samples.{before_redrive, healthy}

abbrev id : String
id = "3f2504E0-4f89-41d3-9a0c-0305e82c3301"

abbrev ask_for : String → Request
ask_for path = record { method = "POST"; path = path; query = λ k. ""; header = λ k. ""; body = [] }

ids :
    (valid_event_id id ≡ true)
    × (valid_event_id "3f2504e0-4f89-61d3-9a0c-0305e82c3301" ≡ false)
    × (valid_event_id "3f2504e0-4f89-41d3-9a0c-0305e82c33011" ≡ false)
    × (explain_event_id "/events/e1/explain/" ≡ "e1")
unfolding valid_event_id trim_space explain_event_id trim_slash trim_prefix trim_suffix
    trim_right_slash
ids = (refl, refl, refl, refl)

abbrev lowered : String → String
lowered s = s

abbrev no_data : DecodeData
no_data payload = none

abbrev unreadable : List ℕ → Decoded
unreadable body = malformed (new "unexpected EOF")

abbrev served : ExplainRequest → AiReply
served q = answered (pos 200) "200 OK" []

event_explain_handler-IsReply_example :
    IsReply
      (event_explain_handler healthy lowered no_data
        (some (λ q. explain unreadable (served q)))
        (ask_for "/events/3f2504E0-4f89-41d3-9a0c-0305e82c3301/explain")
        before_redrive).0
    × Same before_redrive
        (event_explain_handler healthy lowered no_data
          (some (λ q. explain unreadable (served q)))
          (ask_for "/events/3f2504E0-4f89-41d3-9a0c-0305e82c3301/explain")
          before_redrive).1
event_explain_handler-IsReply_example =
    event_explain_handler-IsReply healthy lowered no_data unreadable served
      (ask_for "/events/3f2504E0-4f89-41d3-9a0c-0305e82c3301/explain") before_redrive
