-- ===== src/Http/Dlq/Triaged.antt =====
-- What the handler of dead letters answers with the triage of the AI service.
use eventrail_ingestion.Prelude.{
  Bool-cases, List, String, arith, code, if_cases, inl, inr, refl, some, true, ℕ, ℤ, ◌==◌, ◌≡◌, ◌≤◌,
}
use eventrail_ingestion.AiClient.{
  AiReply, answered, is_successful, unbuildable, unencodable, unreached,
}
use eventrail_ingestion.AiClient.Triage.{TriageResponse, triage, triage_decoded}
use eventrail_ingestion.Errors.{dlq_not_found, is_error}
use eventrail_ingestion.Http.{Reply, Request, bare, error_reply, json, not_allowed, require_method}
use eventrail_ingestion.Http.Dlq.{answer, handle_dlq_triage, missing_or, triage_reply, triage_with}
use eventrail_ingestion.Http.Triage.{DecodeData, TriageRequest, triage_request}
use eventrail_ingestion.Operations.Reading.{DlqDetail, dlq_detail}
use eventrail_ingestion.Operations.Reading.Unchanged.{Any, Reads, Same, dlq_detail-Reads}
use eventrail_ingestion.Operations.Session.{Database, Result, Session, err, ok}
use eventrail_ingestion.Operations.Session.Rules.{Ensures, asked, done, stopped}

module _ (decode_reply : List ℕ → Result TriageResponse) (service : TriageRequest → AiReply)
    (Asks : TriageRequest → Type 0) where
  -- What a successful answer of the service, to a request that is `Asks`, decodes to, or a refusal.
  pub data IsTriageOf : Reply TriageResponse → Type 0 where
    triages :
        {r : TriageResponse} (q : TriageRequest) (code : ℤ) (status : String) (body : List ℕ)
        → Asks q
        → service q ≡ answered code status body
        → is_successful code ≡ true
        → decode_reply body ≡ ok r
        → IsTriageOf (json 200 r)
    refuses : {n : ℕ} {m : String} → 400 ≤ n → IsTriageOf (error_reply n m)
    is_missing : IsTriageOf (bare 404)
    wrong_method : IsTriageOf (not_allowed "POST")

  decoded-IsTriage :
      (q : TriageRequest) (code : ℤ) (status : String) (body : List ℕ)
      → Asks q
      → service q ≡ answered code status body
      → is_successful code ≡ true
      → (o : Result TriageResponse) → decode_reply body ≡ o
      → IsTriageOf (triage_reply (triage_decoded o))
  unfolding triage_decoded triage_reply
  decoded-IsTriage q code status body asked served good (ok r) e =
      triages q code status body asked served good e
  decoded-IsTriage q code status body asked served good (err x) e = refuses (omega arith)

  triage-IsTriage :
      (q : TriageRequest) (a : AiReply)
      → Asks q
      → service q ≡ a
      → IsTriageOf (triage_reply (triage decode_reply a))
  unfolding triage triage_reply
  triage-IsTriage q (unencodable e) asked h = refuses (omega arith)
  triage-IsTriage q (unbuildable e) asked h = refuses (omega arith)
  triage-IsTriage q (unreached e) asked h = refuses (omega arith)
  triage-IsTriage q (answered code status body) asked h = elim (Bool-cases (is_successful code)) [
    | inl good ↦ rw good (decoded-IsTriage q code status body asked h good (decode_reply body) refl)
    | inr bad ↦ rw bad (refuses (omega arith))
  ]

module _ (decode_reply : List ℕ → Result TriageResponse) (service : TriageRequest → AiReply)
    (db : Database) (decode : DecodeData) (event_id : String) (s : Session) where
  -- The request that the event's own dead-letter record, attempts and payload make.
  abbrev pub Asks : TriageRequest → Type 0
  Asks q =
      (detail : DlqDetail) × (s' : Session) × (dlq_detail db event_id s ≡ (ok detail, s'))
      × (q ≡ triage_request decode detail)

  abbrev pub IsTriage : Reply TriageResponse → Type 0
  IsTriage reply = IsTriageOf decode_reply service Asks reply

  abbrev triaged : DlqDetail → Reply TriageResponse
  triaged detail = triage_reply (triage decode_reply (service (triage_request decode detail)))

  answer-IsTriage :
      (p : Result DlqDetail × Session)
      → dlq_detail db event_id s ≡ p
      → Ensures (λ a s'. Any a × Same s s') (λ s'. Same s s') p
      → IsTriage (answer triaged (missing_or dlq_not_found "failed to fetch DLQ record") p).0
        × Same s (answer triaged (missing_or dlq_not_found "failed to fetch DLQ record") p).1
  unfolding answer missing_or
  answer-IsTriage _ read (done {a = detail} {s = s'} h) = (
    triage-IsTriage decode_reply service Asks (triage_request decode detail)
        (service (triage_request decode detail)) (detail, s', read, refl) refl,
    h.1,
  )
  answer-IsTriage _ read (stopped {e = e} h) = (
    if_cases IsTriage (is_error e dlq_not_found) _ _ (λ _. is_missing) (λ _. refuses (omega arith)),
    h,
  )

-- Whatever PostgreSQL and the AI service answer, the request for a triage changes no table and hands
-- nothing over; status 200 carries what a successful answer of the service, to the request made of
-- the event's own dead-letter record, attempts and payload, decodes to, and every other reply is a
-- refusal.
pub handle_dlq_triage-IsTriage :
    (db : Database) (decode : DecodeData) (decode_reply : List ℕ → Result TriageResponse)
    (service : TriageRequest → AiReply) (event_id : String) (r : Request) (s : Session)
    → IsTriage decode_reply service db decode event_id s
        (handle_dlq_triage db decode (some (λ q. triage decode_reply (service q))) event_id r s).0
      × Same s
          (handle_dlq_triage db decode (some (λ q. triage decode_reply (service q))) event_id r s).1
unfolding handle_dlq_triage triage_with require_method
handle_dlq_triage-IsTriage db decode decode_reply service event_id r s =
    let Good : Reply TriageResponse × Session → Type 0 =
      λ p. IsTriage decode_reply service db decode event_id s p.0 × Same s p.1 in
    if_cases Good (r.method == "POST") _ _
      (λ _.
        answer-IsTriage decode_reply service db decode event_id s (dlq_detail db event_id s) refl
          (Reads.run (dlq_detail-Reads db event_id) s))
      (λ _. (wrong_method, (refl, refl)))
