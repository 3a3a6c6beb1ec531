-- ===== src/AiClient/Triage/Tests.antt =====
-- Addresses of the AI service, and the triage of a dead letter that is there.
use eventrail_ingestion.Prelude.{List, [], none, pos, refl, some, ℕ, ◌∷◌, ◌≡◌}
use eventrail_ingestion.AiClient.{AiReply, answered}
use eventrail_ingestion.AiClient.Triage.{
  TriageResponse, explain_url, new_ai_triage_client, triage, triage_url,
}
use eventrail_ingestion.Http.{Request}
use eventrail_ingestion.Http.Dlq.{handle_dlq_triage}
use eventrail_ingestion.Http.Dlq.Triaged.{IsTriage, handle_dlq_triage-IsTriage}
use eventrail_ingestion.Http.Paths.{trim_right_slash}
use eventrail_ingestion.Http.Triage.{DecodeData, TriageRequest}
use eventrail_ingestion.Operations.Reading.Unchanged.{Same}
use eventrail_ingestion.Operations.Samples.{before_redrive, healthy}
use eventrail_ingestion.Operations.Session.{Result, ok}

addresses :
    (triage_url {C = ℕ} (new_ai_triage_client 10 "http://ai:8000//" none) ≡ "http://ai:8000/triage")
    × (explain_url {C = ℕ} (new_ai_triage_client 10 "http://ai:8000" (some 5))
        ≡ "http://ai:8000/explain")
unfolding triage_url explain_url new_ai_triage_client trim_right_slash
addresses = (refl, refl)

abbrev posted : Request
posted = record {
  method = "POST";
  path = "/dlq/e1/triage";
  query = λ k. "";
  header = λ k. "";
  body = [];
}

abbrev no_data : DecodeData
no_data payload = none

abbrev advice : TriageResponse
advice = record {
  category = "permanent_failure";
  summary = "The destination rejects the payload.";
  recommended_actions = "Fix the payload" ∷ [];
  redrive_recommendation = "after_fix";
  citations = [];
  analysis_mode = "rules";
  provider = "local";
  model = none;
}

abbrev readable : List ℕ → Result TriageResponse
readable body = ok advice

abbrev served : TriageRequest → AiReply
served q = answered (pos 200) "200 OK" []

handle_dlq_triage-IsTriage_example :
    IsTriage readable served healthy no_data "e1" before_redrive
      (handle_dlq_triage healthy no_data
        (some (λ q. triage readable (served q)))
        "e1"
        posted
        before_redrive).0
    × Same before_redrive
        (handle_dlq_triage healthy no_data
          (some (λ q. triage readable (served q)))
          "e1"
          posted
          before_redrive).1
handle_dlq_triage-IsTriage_example =
    handle_dlq_triage-IsTriage healthy no_data readable served "e1" posted before_redrive
