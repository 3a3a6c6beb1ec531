-- ===== src/AiClient.antt =====
-- internal/httpapi/ai_triage.go: asking the AI service for an explanation, and the check of it.
pub mod Triage
pub mod Laws
mod Tests
use eventrail_ingestion.Prelude.{
  Bool, List, Option, String, [], any, code, concat, eqb, if◌then◌else◌, leb_ℤ, length, ltb, ltb_ℤ,
  none, not, pos, take, trim_space, ℕ, ℤ, ◌==◌, ◌||◌, ◌∷◌,
}
use eventrail_ingestion.Errors.{
  Error, ai_invalid_response, ai_unavailable, error_text, failed, new, nil, sentinel, wrap,
}
use eventrail_ingestion.Worker.Effects.{response}

pub record Citation : Type 0 where
  pub runbook_id : String
  pub chunk_id : String
  pub title : String
  pub source_path : String

pub record Evidence : Type 0 where
  pub kind : String
  pub description : String

-- `explainResponse`; the model's name is not checked.
pub record ExplainResponse : Type 0 where
  pub headline : String
  pub what_happened : String
  pub business_impact : String
  pub next_action : String
  pub recommended_actions : List String
  pub recovery_status : String
  pub evidence : List Evidence
  pub citations : List Citation
  pub analysis_mode : String
  pub provider : String
  pub model : Option String

pub is_blank : String → Bool
is_blank s = trim_space s == ""

pub is_supported_recovery_status : String → Bool
is_supported_recovery_status s =
    s == "not_needed" || s == "not_ready" || s == "review_required" || s == "completed"

pub is_supported_analysis_mode : String → Bool
is_supported_analysis_mode s =
    s == "deterministic_runbook" || s == "deterministic_fallback" || s == "llm_grounded"

pub is_supported_provider : String → Bool
is_supported_provider s = s == "deterministic" || s == "openai" || s == "ollama"

any_blank_field : ExplainResponse → Bool
any_blank_field r =
    is_blank r.headline
    || is_blank r.what_happened
    || is_blank r.business_impact
    || is_blank r.next_action
    || is_blank r.recovery_status
    || is_blank r.analysis_mode
    || is_blank r.provider

evidence_incomplete : Evidence → Bool
evidence_incomplete e = is_blank e.kind || is_blank e.description

citation_incomplete : Citation → Bool
citation_incomplete c =
    is_blank c.runbook_id || is_blank c.chunk_id || is_blank c.title || is_blank c.source_path

-- `validateExplainResponse`. The source ranges over a Go map for the blank fields, so which of them
-- its text names is not determined.
pub validate_explain_response : ExplainResponse → Error
validate_explain_response r =
    if any_blank_field r
    then new "a field is required"
    else if eqb (length r.recommended_actions) 0 || ltb 5 (length r.recommended_actions)
    then new "recommended_actions must contain 1 to 5 items"
    else if any is_blank r.recommended_actions
    then new "recommended_actions must be nonempty"
    else if not (is_supported_recovery_status r.recovery_status)
    then new "unsupported recovery_status"
    else if not (is_supported_analysis_mode r.analysis_mode)
    then new "unsupported analysis_mode"
    else if not (is_supported_provider r.provider)
    then new "unsupported provider"
    else if eqb (length r.evidence) 0 || ltb 10 (length r.evidence)
    then new "evidence must contain 1 to 10 items"
    else if any evidence_incomplete r.evidence
    then new "evidence entries must be complete"
    else if eqb (length r.citations) 0
    then new "citations are required"
    else if any citation_incomplete r.citations
    then new "citation entries must be complete"
    else nil

-- What `client.Do` and the steps before it give: a request that could not be encoded or built, a
-- call that failed, or a response with its status and the bytes of its body.
pub data AiReply : Type 0 where
  unencodable : Error → AiReply
  unbuildable : Error → AiReply
  unreached : Error → AiReply
  answered : ℤ → String → List ℕ → AiReply

pub data Decoded : Type 0 where
  malformed : Error → Decoded
  decoded : ExplainResponse → Decoded

pub record Explanation : Type 0 where
  pub response : ExplainResponse
  pub error : Error

abbrev no_response : ExplainResponse
no_response = record {
  headline = "";
  what_happened = "";
  business_impact = "";
  next_action = "";
  recommended_actions = [];
  recovery_status = "";
  evidence = [];
  citations = [];
  analysis_mode = "";
  provider = "";
  model = none;
}

abbrev pub refused : Error → Explanation
refused e = record { response = no_response; error = e }

-- 1 << 20.
abbrev max_ai_response_bytes : ℕ
max_ai_response_bytes = 1048576

pub is_successful : ℤ → Bool
is_successful code = not (ltb_ℤ code (pos 200) || leb_ℤ (pos 300) code)

-- The decoded response is returned if the validation accepts it.
accept_decoded : Decoded → Explanation
accept_decoded (malformed e) = refused (
    wrap "" (sentinel ai_invalid_response)
      (concat (": decode AI explain response: " ∷ error_text e ∷ [])))
accept_decoded (decoded r) =
    let e = validate_explain_response r in
    if failed e
    then refused (wrap "" (sentinel ai_invalid_response) (concat (": " ∷ error_text e ∷ [])))
    else record { response = r; error = nil }

-- `AITriageClient.Explain`, from the answer of the service and the JSON decoder, which reads at
-- most the first `max_ai_response_bytes` of the body.
pub explain : (List ℕ → Decoded) → AiReply → Explanation
explain decode (unencodable e) = refused (wrap "marshal explain request: " e "")
explain decode (unbuildable e) = refused (wrap "create explain request: " e "")
explain decode (unreached e) =
    refused (wrap "" (sentinel ai_unavailable) (concat (": " ∷ error_text e ∷ [])))
explain decode (answered code status body) =
    if is_successful code
    then accept_decoded (decode (take max_ai_response_bytes body))
    else refused (
        wrap "" (sentinel ai_unavailable) (concat (": AI explain service returned " ∷ status ∷ [])))
