-- ===== src/AiClient/Triage.antt =====
-- internal/httpapi/ai_triage.go: the client of the AI service, and asking it for a triage.
mod Tests
use eventrail_ingestion.Prelude.{
  List, Option, String, [], code, concat, if◌then◌else◌, none, some, ℕ, ◌∷◌,
}
use eventrail_ingestion.AiClient.{
  AiReply, Citation, answered, is_successful, unbuildable, unencodable, unreached,
}
use eventrail_ingestion.Errors.{new, wrap}
use eventrail_ingestion.Http.Paths.{trim_right_slash}
use eventrail_ingestion.Operations.Session.{Result, err, ok}

-- `AITriageClient`, with the HTTP client as `C`.
pub record AiTriageClient (C : Type 0) : Type 0 where
  pub base_url : String
  pub http_client : C

some_client : {C : Type 0} → C → Option C → C
some_client ten_seconds none = ten_seconds
some_client ten_seconds (some c) = c

-- `NewAITriageClient`; an HTTP client that is nil is `none`, and the first argument is the one with
-- a timeout of ten seconds.
pub new_ai_triage_client : {C : Type 0} → C → String → Option C → AiTriageClient C
unfolding some_client
new_ai_triage_client ten_seconds base_url c = record {
  base_url = trim_right_slash base_url;
  http_client = some_client ten_seconds c;
}

-- The addresses that are called.
pub triage_url : {C : Type 0} → AiTriageClient C → String
triage_url c = concat (c.base_url ∷ "/triage" ∷ [])

pub explain_url : {C : Type 0} → AiTriageClient C → String
explain_url c = concat (c.base_url ∷ "/explain" ∷ [])

-- `triageResponse`.
pub record TriageResponse : Type 0 where
  pub category : String
  pub summary : String
  pub recommended_actions : List String
  pub redrive_recommendation : String
  pub citations : List Citation
  pub analysis_mode : String
  pub provider : String
  pub model : Option String

unfoldable pub triage_decoded : Result TriageResponse → Result TriageResponse
triage_decoded (ok r) = ok r
triage_decoded (err e) = err (wrap "decode AI triage response: " e "")

-- `AITriageClient.Triage`, from the answer of the service and the JSON decoder, which reads as much
-- of the body as it needs. The response is not validated.
unfoldable pub triage : (List ℕ → Result TriageResponse) → AiReply → Result TriageResponse
triage decode (unencodable e) = err (wrap "marshal triage request: " e "")
triage decode (unbuildable e) = err (wrap "create triage request: " e "")
triage decode (unreached e) = err (wrap "call AI triage service: " e "")
triage decode (answered code status body) =
    if is_successful code
    then triage_decoded (decode body)
    else err (new (concat ("AI triage service returned " ∷ status ∷ [])))
