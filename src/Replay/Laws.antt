-- ===== src/Replay/Laws.antt =====
-- What a replay answers, and what it handed over.
use eventrail_ingestion.Prelude.{
  All, Bool, Bool-cases, List, Option, [], arith, false, if_cases, inl, inr, leb, length, negsuc,
  none, pos, refl, some, subst, suc, true, ℕ, ℤ, ◌+◌, ◌==◌, ◌∷◌, ◌≡◌, ◌≤◌, ◌⊎◌,
}
use eventrail_ingestion.Errors.{Error, failed}
use eventrail_ingestion.Http.{Reply, Request, bare, error_reply, json, not_allowed, require_method}
use eventrail_ingestion.Http.Events.{
  DecodeResult, body_too_large, decode_json_request, decoded, extra_json_value, invalid_json,
  max_json_request_body_bytes,
}
use eventrail_ingestion.Operations.Session.{within}
use eventrail_ingestion.Replay.{
  Checked, Outcome, ReplayCursor, ReplayEvent, ReplayRequest, ReplayResponse, Rows, Services,
  Values, accepted, check_request, cursor_of, finish, refused, replay_decoded, replay_found,
  replay_handler, replay_limit, replay_query, replay_rows, values,
}

abbrev pub Promise : ℕ → ℕ → Reply ReplayResponse → Type 0
Promise limit sent (json n r) =
    (n ≡ 200)
    × (r.published ≡ sent)
    × (r.has_more ≡ true → sent ≡ limit)
    × (r.has_more ≡ false → r.next_cursor ≡ none)
Promise limit sent (error_reply n m) = (n ≡ 400) ⊎ (n ≡ 413) → sent ≡ 0
Promise limit sent (bare n) = sent ≡ 0
Promise limit sent (not_allowed m) = ⊥

-- What an answer promises of the messages that were handed over and taken.
abbrev pub ReportsTruly : ℕ → (Values → Bool) → Outcome → Type 0
ReportsTruly limit publish (sent, reply) =
    All (λ m. publish m ≡ true) sent × (length sent ≤ limit) × Promise limit (length sent) reply

-- The loop with `n` messages published before: at most the rest of the limit is handed over.
abbrev LoopReports : ℕ → ℕ → (Values → Bool) → Outcome → Type 0
LoopReports limit n publish (sent, reply) =
    All (λ m. publish m ≡ true) sent
    × (n + length sent ≤ limit)
    × Promise limit (n + length sent) reply

pub replay_limit-bounds : (l : ℤ) → (1 ≤ replay_limit l) × (replay_limit l ≤ 5000)
unfolding replay_limit
replay_limit-bounds (negsuc n) = (omega arith, omega arith)
replay_limit-bounds (pos n) = (ground arith, ground arith)

finish-LoopReports :
    (publish : Values → Bool) (e : Error) (limit n : ℕ) (more : Bool) (c : Option ReplayCursor)
    → n ≤ limit
    → (more ≡ true → n ≡ limit)
    → LoopReports limit n publish (finish e n more c)
unfolding finish
finish-LoopReports publish e limit n more c small full = elim (Bool-cases (failed e)) [
  | inl erring ↦ rw erring (tt, omega arith, (λ h. absurd (omega arith)))
  | inr whole ↦
      rw whole
        (tt, omega arith, (refl, omega arith, (λ h. omega (arith, full h)), (λ h. rw h refl)))
]

replay_rows-LoopReports :
    (v : Services) (limit : ℕ) (e : Error) (n : ℕ) (c : Option ReplayCursor)
    (rows : List (Option ReplayEvent))
    → n ≤ limit
    → LoopReports limit n v.publish (replay_rows v limit e n c rows)
unfolding replay_rows
replay_rows-LoopReports v limit e n c [] small =
    finish-LoopReports v.publish e limit n false c small (λ h. cc h)
replay_rows-LoopReports v limit e n c (none ∷ rows) small =
    (tt, omega arith, (λ h. absurd (omega arith)))
replay_rows-LoopReports v limit e n c (some row ∷ rows) small = elim (Bool-cases (leb limit n)) [
  | inl full ↦ rw full (finish-LoopReports v.publish e limit n true c small (λ h. ground arith))
  | inr room ↦ rw room (elim (Bool-cases (v.publish (values v.times row))) [
    | inr lost ↦ rw lost (tt, omega arith, (λ h. absurd (omega arith)))
    | inl taken ↦ rw taken (
        let next : Outcome = replay_rows v limit e (n + 1) (some (cursor_of v.times row)) rows in
        let (all_taken, within, promise) =
          replay_rows-LoopReports v limit e (n + 1) (some (cursor_of v.times row)) rows
            (ground arith) in
        let same : n + 1 + length next.0 ≡ n + suc (length next.0) = omega arith in
        ((taken, all_taken), omega arith, subst (λ k. Promise limit k next.1) same promise))
  ])
]

replay_found-ReportsTruly :
    (v : Services) (limit : ℕ) (found : Option Rows)
    → ReportsTruly limit v.publish (replay_found v limit found)
unfolding replay_found
replay_found-ReportsTruly v limit none = (tt, omega arith, (λ h. refl))
replay_found-ReportsTruly v limit (some rows) =
    let found : Outcome = replay_rows v limit rows.err 0 none rows.scanned in
    let (all_taken, within, promise) =
      replay_rows-LoopReports v limit rows.err 0 none rows.scanned (omega arith) in
    let same : 0 + length found.0 ≡ length found.0 = omega arith in
    (all_taken, omega arith, subst (λ k. Promise limit k found.1) same promise)

replay_query-ReportsTruly :
    (v : Services) (limit : ℕ) (c : Checked) → ReportsTruly limit v.publish (replay_query v limit c)
unfolding replay_query
replay_query-ReportsTruly v limit (refused m) = (tt, omega arith, (λ h. refl))
replay_query-ReportsTruly v limit (accepted q) =
    replay_found-ReportsTruly v limit (v.query_events q)

-- The limit that a body asks for; nothing can be replayed for a body that is refused.
abbrev pub limit_of : DecodeResult ReplayRequest → ℕ
limit_of (decoded req) = replay_limit req.limit
limit_of _ = 0

replay_decoded-ReportsTruly :
    (v : Services) (r : DecodeResult ReplayRequest)
    → (limit_of r ≤ 5000) × ReportsTruly (limit_of r) v.publish (replay_decoded v r)
unfolding replay_decoded
replay_decoded-ReportsTruly v (decoded req) = (
  (replay_limit-bounds req.limit).1,
  replay_query-ReportsTruly v (replay_limit req.limit) (check_request v.times req),
)
replay_decoded-ReportsTruly v body_too_large = (omega arith, (tt, omega arith, (λ h. refl)))
replay_decoded-ReportsTruly v extra_json_value = (omega arith, (tt, omega arith, (λ h. refl)))
replay_decoded-ReportsTruly v invalid_json = (omega arith, (tt, omega arith, (λ h. refl)))

-- Whatever the decoder, the database and Redis answer: every message that a replay counts was taken
-- by Redis, they are no more than the limit of the request, which is at most 5000, an answer in
-- JSON has status 200 and counts exactly those messages, says that there is more only after a whole
-- page, and gives no cursor unless there is more; a request that is refused with 400, 405 or 413
-- has handed over nothing.
pub replay_handler-ReportsTruly :
    (v : Services) (r : Request)
    → let body : DecodeResult ReplayRequest =
        decode_json_request v.decoder max_json_request_body_bytes r.body in
      (limit_of body ≤ 5000) × ReportsTruly (limit_of body) v.publish (replay_handler v r)
unfolding replay_handler require_method
replay_handler-ReportsTruly v r =
    let body : DecodeResult ReplayRequest =
      decode_json_request v.decoder max_json_request_body_bytes r.body in
    if_cases (λ o. (limit_of body ≤ 5000) × ReportsTruly (limit_of body) v.publish o)
      (r.method == "POST") (replay_decoded v body) ([], bare 405)
      (λ h. replay_decoded-ReportsTruly v body)
      (λ h. ((replay_decoded-ReportsTruly v body).0, (tt, omega arith, refl)))
