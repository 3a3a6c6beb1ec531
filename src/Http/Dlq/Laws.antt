-- ===== src/Http/Dlq/Laws.antt =====
-- The handlers against the store: what they refuse, the store would; and what a redrive answers is
-- what it did.
use eventrail_ingestion.Prelude.{
  Bool-cases, Option, String, arith, if◌then◌else◌, inl, inr, none, not, pos, some, trim_space,
  true, ℤ, ◌==◌, ◌≡◌, ◌≢◌, ◌≤ℤ◌,
}
use eventrail_ingestion.Errors.{nil}
use eventrail_ingestion.Go.Decimal.{atoi}
use eventrail_ingestion.Http.{Reply, Request, json, status_code}
use eventrail_ingestion.Http.Dlq.{asked_for, bad_query, known_status, list_query, with_limit}
use eventrail_ingestion.Operations.{status_open}
use eventrail_ingestion.Operations.Reading.{validate_list}
use eventrail_ingestion.Operations.Redrive.{RedriveResult}
use eventrail_ingestion.Operations.Redrive.Laws.{HandsOverOnce, Redriven}
use eventrail_ingestion.Operations.Session.{Database, Result, Session}
use eventrail_ingestion.Worker.{Values}

with_limit-asks :
    (given status : String) (o : Option ℤ) (limit : ℤ)
    → with_limit given o ≡ asked_for status limit
    → (given ≡ status) × (pos 1 ≤ℤ limit) × (limit ≤ℤ pos 200)
unfolding with_limit
with_limit-asks given status none limit h = cc
with_limit-asks given status (some n) limit h = ground arith

validated :
    (status : String) (limit : ℤ)
    → known_status status ≡ true
    → pos 1 ≤ℤ limit
    → limit ≤ℤ pos 200
    → validate_list status limit ≡ nil
unfolding known_status validate_list
validated status limit k low high = ground arith

asked_for_inj : (a b : String) (m n : ℤ) → asked_for a m ≡ asked_for b n → (a ≡ b) × (m ≡ n)
asked_for_inj a b m n h = (cc, cc)

asks_validly :
    (given raw status : String) (limit : ℤ)
    → (if not (known_status given)
        then bad_query "invalid DLQ status"
        else if raw == ""
        then asked_for given (pos 50)
        else with_limit given (atoi raw))
      ≡ asked_for status limit
    → validate_list status limit ≡ nil
asks_validly given raw status limit = elim (Bool-cases (known_status given)) [
  | inr unknown ↦ rw unknown (λ h. cc)
  | inl known ↦ rw known (elim (Bool-cases (raw == "")) [
    | inl no_limit ↦ rw no_limit (λ h.
        let (same, fifty) = asked_for_inj given status (pos 50) limit h in
        validated status limit (rw (← same) known) (rw (← fifty) (omega arith))
          (rw (← fifty) (omega arith)))
    | inr some_limit ↦ rw some_limit (λ h.
        let (same, low, high) = with_limit-asks given status (atoi raw) limit h in
        validated status limit (rw (← same) known) low high)
  ])
]

-- Whatever the query of a request, the list that the handler asks the store for passes the store's
-- own checks of status and limit: a query that would not is refused with 400 before.
pub list_query-IsAccepted :
    (r : Request) (status : String) (limit : ℤ)
    → list_query r ≡ asked_for status limit
    → validate_list status limit ≡ nil
unfolding list_query
list_query-IsAccepted r status limit h =
    let given : String = trim_space (r.query "status") in
    asks_validly (if given == "" then status_open else given) (trim_space (r.query "limit")) status
      limit h

-- What the answer to a redrive tells: 202 that it was done, any other status that no table changed.
pub data TellsTruly (db : Database) (publish : Values → Result String) (event_id : String)
    (s : Session) : Reply RedriveResult × Session → Type 0 where
  accepted :
      {result : RedriveResult} {s' : Session}
      → Redriven db publish event_id s result s'.tables s'.handed_over
      → TellsTruly db publish event_id s (json 202 result, s')
  refused :
      {reply : Reply RedriveResult} {s' : Session}
      → status_code reply ≢ 202
      → s'.tables ≡ s.tables
      → HandsOverOnce db event_id s.tables s.handed_over s'.handed_over
      → TellsTruly db publish event_id s (reply, s')
