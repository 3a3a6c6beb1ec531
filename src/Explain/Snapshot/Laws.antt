-- ===== src/Explain/Snapshot/Laws.antt =====
-- The snapshot against the checks of the AI service (explainer.py in ai-service, `ExplainRequest`).
use eventrail_ingestion.Prelude.{
  All, Bool-cases, List, Option, String, [], arith, eqb, false, inl, inr, length, none, pos, refl,
  some, subst, sym, true, ℕ, ℤ, ◌&&◌, ◌+◌, ◌<◌, ◌==◌, ◌||◌, ◌∙◌, ◌∷◌, ◌≡◌, ◌≤ℤ◌, ◌≤◌,
}
use eventrail_ingestion.Explain.{
  HistoryItem, bound_explain_attempts, bound_explain_history, explain_history, map_explain_status,
  max_explain_items, status_history_contains,
}
use eventrail_ingestion.Explain.Laws.{
  bound_explain_attempts-bounds, length-bound_explain_history-le,
}
use eventrail_ingestion.Explain.Snapshot.{
  AttemptItem, ExplainRequest, attempt_items, history_pairs, if_known, is_some, redrives,
  request_of, retry_entries, snapshot,
}
use eventrail_ingestion.Explain.Snapshot.Attempts.{
  HasBoundedError, IsNumbered, attempt_items-IsNumbered, attempt_items-errors,
  bounded_attempts-nonempty, kept_attempts, length-attempt_items, retry_count_from_history-pos,
}
use eventrail_ingestion.Explain.Snapshot.Statuses.{
  bound_explain_history-Lacks, bounded_history-nonempty, entered-none, explain_history-Lacks,
  map_explain_status-same, redrives-zero, rows-lack,
}
use eventrail_ingestion.Http.Triage.{DecodeData}
use eventrail_ingestion.Operations.Reading.{DlqDetail, EventStatus, current_status_of}
use eventrail_ingestion.Operations.Reading.Laws.{current_status_of-All}

-- What the AI service checks of a snapshot, but for the lengths of texts that pass unchanged, the
-- range of response codes and the names of statuses and outcomes.
pub record IsAccepted (r : ExplainRequest) : Type 0 where
  pub content : 0 < length r.status_history + length r.delivery_attempts
  pub short_history : length r.status_history ≤ max_explain_items
  pub short_attempts : length r.delivery_attempts ≤ max_explain_items
  pub numbered : (n : ℕ) × IsNumbered n r.delivery_attempts
  pub errors : All HasBoundedError r.delivery_attempts
  pub retries : pos 0 ≤ℤ r.retry_count
  pub is_delivered : r.delivered ≡ (r.current_status == "DELIVERED")
  pub never_dead :
      r.entered_dlq ≡ false
      → ((r.current_status == "DEAD_LETTERED") ≡ false)
        × All (λ h. (h.status == "DEAD_LETTERED") ≡ false) r.status_history
        × (r.redrive_count ≡ 0)

bounded-nonempty :
    (l : List HistoryItem) (k : List AttemptItem)
    → 0 < length l + length k
    → 0 < length (bound_explain_history l) + length (bound_explain_attempts k)
bounded-nonempty [] k h = omega (arith, bounded_attempts-nonempty k (omega arith))
bounded-nonempty (i ∷ l) k h = omega (arith, bounded_history-nonempty (i ∷ l) (omega arith))

module _ (to_lower : String → String) (format : ℤ → String) (decode : DecodeData)
    (status : EventStatus) (detail : Option DlqDetail)
    (latest : status.current_status ≡ current_status_of status.history)
    (recorded : status_history_contains (history_pairs format status.history) "REDRIVEN" ≡ true
      → is_some detail ≡ true) where
  request_of-never_dead :
      (current : String)
      → map_explain_status status.current_status ≡ some current
      → (is_some detail
          || status_history_contains (history_pairs format status.history) "DEAD_LETTERED")
        ≡ false
      → ((current == "DEAD_LETTERED") ≡ false)
        × All
            (λ h. (h.status == "DEAD_LETTERED") ≡ false)
            (bound_explain_history (explain_history (history_pairs format status.history)))
        × (redrives (history_pairs format status.history) detail ≡ 0)
  request_of-never_dead current named h =
      let pairs : List (String × Option String) = history_pairs format status.history in
      let (no_record, no_entry) =
        entered-none detail (status_history_contains pairs "DEAD_LETTERED") h in
      let same : current_status_of status.history ≡ current =
        sym latest ∙ map_explain_status-same status.current_status current named in
      (
        subst (λ c. (c == "DEAD_LETTERED") ≡ false) same
            (current_status_of-All (λ c. (c == "DEAD_LETTERED") ≡ false) status.history refl
              (rows-lack format "DEAD_LETTERED" status.history no_entry)),
        bound_explain_history-Lacks "DEAD_LETTERED" (explain_history pairs)
            (explain_history-Lacks "DEAD_LETTERED" pairs no_entry),
        subst (λ d. redrives pairs d ≡ 0) (sym no_record)
            (redrives-zero pairs (
              subst (λ d. status_history_contains pairs "REDRIVEN" ≡ true → is_some d ≡ true)
                no_record recorded)),
      )

  request_of-IsAccepted :
      (current : String)
      → map_explain_status status.current_status ≡ some current
      → 0
        < length (explain_history (history_pairs format status.history))
          + length status.delivery_attempts
      → IsAccepted (request_of to_lower format decode status detail current)
  unfolding request_of
  request_of-IsAccepted current named some_content =
      let history : List HistoryItem = explain_history (history_pairs format status.history) in
      let attempts : List AttemptItem = attempt_items to_lower format 0 status.delivery_attempts in
      let kept =
        kept_attempts attempts (attempt_items-IsNumbered to_lower format 0 status.delivery_attempts)
          (attempt_items-errors to_lower format 0 status.delivery_attempts) in
      record {
        content = bounded-nonempty history attempts (
            omega (
              arith,
              some_content,
              length-attempt_items to_lower format 0 status.delivery_attempts,
            ));
        short_history = length-bound_explain_history-le history;
        short_attempts = (bound_explain_attempts-bounds attempts).0;
        numbered = kept.0;
        errors = kept.1;
        retries = retry_count_from_history-pos (retry_entries status.history);
        is_delivered = refl;
        never_dead = request_of-never_dead current named;
      }

  if_known-IsAccepted :
      (o : Option String) (r : ExplainRequest)
      → map_explain_status status.current_status ≡ o
      → 0
        < length (explain_history (history_pairs format status.history))
          + length status.delivery_attempts
      → if_known o (request_of to_lower format decode status detail) ≡ some r
      → IsAccepted r
  unfolding if_known
  if_known-IsAccepted none r e c h = cc
  if_known-IsAccepted (some current) r e c h =
      let same : request_of to_lower format decode status detail current ≡ r = cc in
      subst IsAccepted same (request_of-IsAccepted current e c)

-- A snapshot of an event whose current status is the last of its history passes these checks of the
-- AI service, if an event with a REDRIVEN entry has a record of a dead letter: it has an entry or an
-- attempt and at most 20 of each, the attempts are numbered one after the other, their errors have 1
-- to 1000 code points, the retry count is not negative, it is delivered exactly if its status says
-- so, and if it never was a dead letter, no status of it says so and it was not redriven.
pub snapshot-IsAccepted :
    (to_lower : String → String) (format : ℤ → String) (decode : DecodeData) (status : EventStatus)
    (detail : Option DlqDetail) (r : ExplainRequest)
    → status.current_status ≡ current_status_of status.history
    → (status_history_contains (history_pairs format status.history) "REDRIVEN" ≡ true
        → is_some detail ≡ true)
    → snapshot to_lower format decode status detail ≡ some r
    → IsAccepted r
unfolding snapshot
snapshot-IsAccepted to_lower format decode status detail r latest recorded =
    let history : List HistoryItem = explain_history (history_pairs format status.history) in
    elim (Bool-cases (eqb (length history) 0 && eqb (length status.delivery_attempts) 0)) [
      | inl empty ↦ rw empty (λ h. cc)
      | inr full ↦ rw full (λ h.
          if_known-IsAccepted to_lower format decode status detail latest recorded
            (map_explain_status status.current_status) r refl (ground (arith, full)) h)
    ]
