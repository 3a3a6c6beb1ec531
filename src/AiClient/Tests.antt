-- ===== src/AiClient/Tests.antt =====
-- A complete explanation.
use eventrail_ingestion.Prelude.{[], refl, some, trim_space, ◌∷◌, ◌≡◌}
use eventrail_ingestion.AiClient.{
  ExplainResponse, any_blank_field, citation_incomplete, evidence_incomplete, is_blank,
  is_supported_analysis_mode, is_supported_provider, is_supported_recovery_status,
  validate_explain_response,
}
use eventrail_ingestion.Errors.{nil}

abbrev complete : ExplainResponse
complete = record {
  headline = "h";
  what_happened = "w";
  business_impact = "b";
  next_action = "n";
  recommended_actions = "check" ∷ [];
  recovery_status = "completed";
  evidence = record { kind = "status"; description = "d" } ∷ [];
  citations = record { runbook_id = "r"; chunk_id = "c"; title = "t"; source_path = "p" } ∷ [];
  analysis_mode = "llm_grounded";
  provider = "openai";
  model = some "m";
}

complete_accepted : validate_explain_response complete ≡ nil
unfolding validate_explain_response any_blank_field is_blank trim_space evidence_incomplete
    citation_incomplete is_supported_recovery_status is_supported_analysis_mode
    is_supported_provider
complete_accepted = refl
