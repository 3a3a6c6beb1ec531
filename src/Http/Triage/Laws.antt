-- ===== src/Http/Triage/Laws.antt =====
-- What a triage request always has.
use eventrail_ingestion.Prelude.{
  Bool-cases, List, Option, String, [], arith, eq_iff, if◌then◌else◌, inl, inr, none, pos, refl,
  some, trim_space, ◌==◌, ◌∷◌, ◌≡◌, ◌≢◌, ◌≤ℤ◌,
}
use eventrail_ingestion.Http.Triage.{
  DecodeData, TriageRequest, destination_from_payload, latest_attempt_error, latest_error, nonblank,
  some_or, text_or, triage_request,
}
use eventrail_ingestion.Operations.{AttemptRow}
use eventrail_ingestion.Operations.Reading.{DlqDetail}

text_or-ne :
    (s : String) (o : Option String)
    → s ≢ ""
    → ((t : String) → o ≡ some t → t ≢ "")
    → text_or s o ≢ ""
unfolding text_or
text_or-ne s none h k = h
text_or-ne s (some t) h k = k t refl

nonblank-ne : (o : Option String) (t : String) → nonblank o ≡ some t → t ≢ ""
unfolding nonblank
nonblank-ne none t = λ h. cc
nonblank-ne (some s) t = λ h e. ground (arith, eq_iff (trim_space s) "")

some_or-ne :
    (a b : Option String)
    → ((t : String) → a ≡ some t → t ≢ "")
    → ((t : String) → b ≡ some t → t ≢ "")
    → (t : String) → some_or a b ≡ some t
    → t ≢ ""
unfolding some_or
some_or-ne none b h k t e = k t e
some_or-ne (some s) b h k t e = h t e

latest_attempt_error-ne :
    (l : List AttemptRow) (t : String) → latest_attempt_error l ≡ some t → t ≢ ""
unfolding latest_attempt_error
latest_attempt_error-ne [] t h = cc
latest_attempt_error-ne (a ∷ l) t h =
    some_or-ne (latest_attempt_error l) (nonblank a.error) (latest_attempt_error-ne l)
      (nonblank-ne a.error) t h

latest_error-ne : (d : DlqDetail) → latest_error d ≢ ""
unfolding latest_error
latest_error-ne d =
    text_or-ne "Delivery failed" _ (λ e. cc)
      (some_or-ne (latest_attempt_error d.delivery_attempts) (nonblank d.dlq_entry.last_error)
        (latest_attempt_error-ne d.delivery_attempts) (nonblank-ne d.dlq_entry.last_error))

named-ne : (s : String) → (if s == "" then "Webhook destination" else s) ≢ ""
named-ne s = elim (Bool-cases (s == "")) [
  | inl empty ↦ rw empty (λ e. cc)
  | inr full ↦ rw full (λ e. cc ((eq_iff s "").1 e, full))
]

-- A triage request counts at least one attempt, and names a destination and an error.
pub triage_request-bounds :
    (decode : DecodeData) (detail : DlqDetail)
    → (pos 1 ≤ℤ TriageRequest.attempt_count (triage_request decode detail))
      × (TriageRequest.destination (triage_request decode detail) ≢ "")
      × (TriageRequest.error (triage_request decode detail) ≢ "")
unfolding triage_request
triage_request-bounds decode detail = (
  ground arith,
  named-ne (destination_from_payload decode detail.event.payload),
  latest_error-ne detail,
)
