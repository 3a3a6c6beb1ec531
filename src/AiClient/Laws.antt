-- ===== src/AiClient/Laws.antt =====
-- What an accepted explanation satisfies.
use eventrail_ingestion.Prelude.{
  Bool-cases, List, String, arith, false, inl, inr, length, not, refl, take, true, ℕ, ℤ, ◌<◌, ◌≡◌,
  ◌≤◌,
}
use eventrail_ingestion.AiClient.{
  AiReply, Decoded, ExplainResponse, Explanation, accept_decoded, answered, decoded, explain,
  is_successful, is_supported_analysis_mode, is_supported_provider, is_supported_recovery_status,
  malformed, max_ai_response_bytes, unbuildable, unencodable, unreached, validate_explain_response,
}
use eventrail_ingestion.Errors.{ai_unavailable, failed, is_error, nil}
use eventrail_ingestion.Errors.Laws.{nil_of_not_failed}

-- An accepted explanation has 1 to 5 recommended actions, 1 to 10 pieces of evidence, at least one
-- citation, and a recovery status, mode and provider that are supported.
pub validate_explain_response-bounds :
    (r : ExplainResponse)
    → validate_explain_response r ≡ nil
    → (0 < length r.recommended_actions)
      × (length r.recommended_actions ≤ 5)
      × (0 < length r.evidence)
      × (length r.evidence ≤ 10)
      × (0 < length r.citations)
      × (is_supported_recovery_status r.recovery_status ≡ true)
      × (is_supported_analysis_mode r.analysis_mode ≡ true)
      × (is_supported_provider r.provider ≡ true)
unfolding validate_explain_response
validate_explain_response-bounds r h = ground arith

accept_decoded-IsValidated :
    (d : Decoded)
    → Explanation.error (accept_decoded d) ≡ nil
    → validate_explain_response (Explanation.response (accept_decoded d)) ≡ nil
unfolding accept_decoded
accept_decoded-IsValidated (malformed e) = λ h. cc
accept_decoded-IsValidated (decoded r) = elim (Bool-cases (failed (validate_explain_response r))) [
  | inl bad ↦ rw bad (λ h. cc)
  | inr good ↦ rw good (λ h. nil_of_not_failed (validate_explain_response r) good)
]

accept_decoded-available :
    (d : Decoded) → is_error (Explanation.error (accept_decoded d)) ai_unavailable ≡ false
unfolding accept_decoded is_error
accept_decoded-available (malformed e) = refl
accept_decoded-available (decoded r) = elim (Bool-cases (failed (validate_explain_response r))) [
  | inl bad ↦ rw bad refl
  | inr good ↦ rw good refl
]

-- Whatever the service answers, a response that comes back without an error passes the validation.
pub explain-IsValidated :
    (decode : List ℕ → Decoded) (reply : AiReply)
    → Explanation.error (explain decode reply) ≡ nil
    → validate_explain_response (Explanation.response (explain decode reply)) ≡ nil
unfolding explain
explain-IsValidated decode (unencodable e) = λ h. cc
explain-IsValidated decode (unbuildable e) = λ h. cc
explain-IsValidated decode (unreached e) = λ h. cc
explain-IsValidated decode (answered code status body) = elim (Bool-cases (is_successful code)) [
  | inl good ↦ rw good (accept_decoded-IsValidated (decode (take max_ai_response_bytes body)))
  | inr bad ↦ rw bad (λ h. cc)
]

-- An answer of the service is reported as the service being unavailable exactly if its status is
-- not 200 to 299.
pub explain-unavailable :
    (decode : List ℕ → Decoded) (code : ℤ) (status : String) (body : List ℕ)
    → is_error (Explanation.error (explain decode (answered code status body))) ai_unavailable
      ≡ not (is_successful code)
unfolding explain is_error
explain-unavailable decode code status body = elim (Bool-cases (is_successful code)) [
  | inl good ↦ rw good (accept_decoded-available (decode (take max_ai_response_bytes body)))
  | inr bad ↦ rw bad refl
]
