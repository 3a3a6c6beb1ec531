-- ===== src/Outbox/Publisher/Laws.antt =====
-- What one call of the publisher changes, whatever the database and the broker answer.
use eventrail_ingestion.Prelude.{
  List, Option, String, [], ap, eqb, false, if_cases, if◌then◌else◌, map, none, not, refl, some,
  subst, sym, true, ℕ, ◌+◌, ◌∷◌, ◌≡◌,
}
use eventrail_ingestion.Errors.{Error, failed, is_error, nil, outbox_publish_failed, sentinel, wrap}
use eventrail_ingestion.Errors.Laws.{nil_of_not_failed}
use eventrail_ingestion.Outbox.{
  OutboxRow, Tables, mark_published, next_pending, pending, published, reschedule, rows_affected,
  update_row,
}
use eventrail_ingestion.Outbox.Order.{IsFirst, next_pending-IsFirst}
use eventrail_ingestion.Outbox.Publisher.{
  Answer, Connection, Database, Outcome, PublishConfig, after_failure, after_success, commit_failed,
  committed, in_transaction, insert_history, no_result, outcome, publish_claimed, publish_next,
  update_outbox, validate,
}
use eventrail_ingestion.Outbox.Stream.{publish}

-- The row with the id changes, every other one stays.
abbrev pub changed : ℕ → (OutboxRow → OutboxRow) → List OutboxRow → List OutboxRow
changed i f = map (λ s. if eqb s.id i then f s else s)

-- The tables with a row marked as published at a time, and its line of history.
abbrev pub with_published : ℕ → OutboxRow → Tables → Tables
with_published at r before = record {
  outbox =
      changed r.id (λ s. record s { status = published; published_at = some at; last_error = none })
        before.outbox;
  history = (r.event_id, "PUBLISHED") ∷ before.history;
}

-- The tables with a row put back for another attempt at a time after some delay, with an error.
abbrev pub with_retry : ℕ → OutboxRow → ℕ → String → Tables → Tables
with_retry at r delay message before = record before {
  outbox =
      changed r.id
        (λ s. record s {
          status = pending;
          attempt_count = s.attempt_count + 1;
          next_attempt_at = at + delay;
          last_error = some message;
          published_at = none;
        })
        before.outbox;
}

-- If the outcome reports a publication, the first free row went to the broker, which took it, and
-- exactly the mark on that row and one line of history were committed.
abbrev pub ReportsTruly : Database → (OutboxRow → Error) → ℕ → Tables → Outcome → Type 0
ReportsTruly db publish at before o =
    o.result.is_published ≡ true
    → (r : OutboxRow) × IsFirst db.locked at before.outbox r
      × (publish r ≡ nil)
      × (o.error ≡ nil)
      × (o.tables ≡ with_published at r before)
      × (o.handed_over ≡ r ∷ [])

-- All or nothing: the tables as before; or, after a commit that reported an error although the
-- server had committed, as after a publication or after a failed one.
pub data IsWhole (db : Database) (at : ℕ) (before : Tables) : Tables → Type 0 where
  unchanged : IsWhole db at before before
  committed_mark :
      (r : OutboxRow)
      → failed db.commit_error ≡ true
      → db.commit_applied ≡ true
      → IsFirst db.locked at before.outbox r
      → IsWhole db at before (with_published at r before)
  committed_retry :
      (r : OutboxRow) (delay : ℕ) (message : String)
      → failed db.commit_error ≡ true
      → db.commit_applied ≡ true
      → IsFirst db.locked at before.outbox r
      → IsWhole db at before (with_retry at r delay message before)

-- An error other than a failed publication means all or nothing.
abbrev pub AbortsCleanly : Database → ℕ → Tables → Outcome → Type 0
AbortsCleanly db at before o =
    failed o.error ≡ true
    → is_error o.error outbox_publish_failed ≡ false
    → IsWhole db at before o.tables

update_row-eq-changed :
    (i : ℕ) (f : OutboxRow → OutboxRow) (rows : List OutboxRow)
    → update_row i f rows ≡ changed i f rows
unfolding update_row
update_row-eq-changed i f [] = refl
update_row-eq-changed i f (r ∷ rows) =
    ap (λ l. (if eqb r.id i then f r else r) ∷ l) (update_row-eq-changed i f rows)

abbrev begun : Tables → OutboxRow → Connection
begun before r = record { durable = before; working = before; sent = r ∷ [] }

module _ (db : Database) (config : PublishConfig) (publish : OutboxRow → Error) (at : ℕ)
    (before : Tables) where
  marked-tables :
      (r : OutboxRow)
      → record {
        outbox = update_row r.id (mark_published at) before.outbox;
        history = (r.event_id, "PUBLISHED") ∷ before.history;
      }
        ≡ with_published at r before
  unfolding mark_published
  marked-tables r =
      ap (λ l. record { outbox = l; history = (r.event_id, "PUBLISHED") ∷ before.history })
        (update_row-eq-changed r.id (mark_published at) before.outbox)

  retried-tables :
      (r : OutboxRow) (delay : ℕ) (message : String)
      → record before { outbox = update_row r.id (reschedule at delay message) before.outbox }
        ≡ with_retry at r delay message before
  unfolding reschedule
  retried-tables r delay message =
      ap (λ l. record before { outbox = l })
        (update_row-eq-changed r.id (reschedule at delay message) before.outbox)

  -- An answer that reports a publication, and one with an error.
  abbrev Good : Outcome → Type 0
  Good o = ReportsTruly db publish at before o × AbortsCleanly db at before o

  -- Whatever was not committed, the tables are as before.
  stopped-Good :
      (e : Error) (w : Tables) (sent : List OutboxRow)
      → Good (outcome ((no_result, e), record { durable = before; working = w; sent = sent }))
  unfolding outcome
  stopped-Good e w sent = ((λ h. cc), (λ h k. unchanged))

  lost-Good :
      (e : Error) (w : Tables) (sent : List OutboxRow)
      → (db.commit_applied ≡ true → IsWhole db at before w)
      → Good (
          outcome (
            (no_result, e),
            commit_failed db (record { durable = before; working = w; sent = sent }),
          ))
  unfolding outcome
  lost-Good e w sent h =
      if_cases (λ c. Good (outcome ((no_result, e), c))) db.commit_applied _ _
        (λ done_all. ((λ k. cc), (λ k l. h done_all))) (λ lost. ((λ k. cc), (λ k l. unchanged)))

  published-Good :
      (r : OutboxRow)
      → IsFirst db.locked at before.outbox r
      → publish r ≡ nil
      → Good (
          outcome (
            (
              record { found = true; is_published = true; outbox_id = r.id; event_id = r.event_id },
              nil,
            ),
            committed (
                insert_history r.event_id
                  (update_outbox r.id (mark_published at) (begun before r))),
          ))
  unfolding outcome
  published-Good r first taken =
      ((λ h. (r, first, taken, refl, marked-tables r, refl)), (λ h k. cc))

  unpublished-Good :
      (r : OutboxRow) (c : Connection)
      → Good (
          outcome (
            (
              record {
                found = true;
                is_published = false;
                outbox_id = r.id;
                event_id = r.event_id;
              },
              wrap "" (sentinel outbox_publish_failed) ": outbox, event, attempt",
            ),
            c,
          ))
  unfolding outcome is_error
  unpublished-Good r c = ((λ h. cc), (λ h k. cc))

  after_success-Good :
      (r : OutboxRow)
      → IsFirst db.locked at before.outbox r
      → publish r ≡ nil
      → Good (outcome (after_success db at r (begun before r)))
  unfolding after_success
  after_success-Good r first taken =
      let P : Answer → Type 0 = λ a. Good (outcome a) in
      if_cases P (failed db.update_error) _ _ (λ _. stopped-Good _ _ _)
        (λ _.
          if_cases P (not (eqb (rows_affected r.id before.outbox) 1)) _ _ (λ _. stopped-Good _ _ _)
            (λ _.
              if_cases P (failed db.history_error) _ _ (λ _. stopped-Good _ _ _)
                (λ _.
                  if_cases P (failed db.commit_error) _ _
                    (λ bad. lost-Good _ _ _ (λ done_all.
                      subst (IsWhole db at before) (sym (marked-tables r))
                        (committed_mark r bad done_all first)))
                    (λ fine. published-Good r first taken))))

  after_failure-Good :
      (r : OutboxRow) (e : Error)
      → IsFirst db.locked at before.outbox r
      → Good (outcome (after_failure db config at r e (begun before r)))
  unfolding after_failure
  after_failure-Good r e first =
      let P : Answer → Type 0 = λ a. Good (outcome a) in
      if_cases P (failed db.update_error) _ _ (λ _. stopped-Good _ _ _)
        (λ _.
          if_cases P (not (eqb (rows_affected r.id before.outbox) 1)) _ _ (λ _. stopped-Good _ _ _)
            (λ _.
              if_cases P (failed db.commit_error) _ _
                (λ bad. lost-Good _ _ _ (λ done_all.
                  subst (IsWhole db at before) (sym (retried-tables r _ _))
                    (committed_retry r _ _ bad done_all first)))
                (λ fine. unpublished-Good r _)))

  publish_claimed-Good :
      (o : Option OutboxRow)
      → next_pending db.locked at before.outbox ≡ o
      → Good (
          outcome (
            publish_claimed db config publish at o
              (record { durable = before; working = before; sent = [] })))
  unfolding publish_claimed
  publish_claimed-Good none found =
      if_cases (λ a. Good (outcome a)) (failed db.rollback_error) _ _ (λ _. stopped-Good _ _ _)
        (λ _. stopped-Good _ _ _)
  publish_claimed-Good (some r) found =
      let first = next_pending-IsFirst db.locked at before.outbox r found in
      if_cases (λ a. Good (outcome a)) (failed (publish r)) _ _
        (λ bad. after_failure-Good r (publish r) first)
        (λ fine. after_success-Good r first (nil_of_not_failed (publish r) fine))

  publish_next-Good : Good (publish_next db config publish at before)
  unfolding publish_next in_transaction
  publish_next-Good =
      if_cases Good (failed (validate config)) _ _ (λ _. stopped-Good _ before [])
        (λ _.
          if_cases Good (failed db.begin_error) _ _ (λ _. stopped-Good _ before [])
            (λ _.
              if_cases (λ a. Good (outcome a)) (failed db.claim_error) _ _
                (λ _. stopped-Good _ before [])
                (λ _. publish_claimed-Good (next_pending db.locked at before.outbox) refl)))

  -- A call that reports a publication handed exactly one event to the broker, the first of the rows
  -- that are pending, due and not locked; the broker took it; the call returns no error; and it
  -- committed exactly the mark on that row, with the time and without an error, and one line of
  -- history.
  pub publish_next-ReportsTruly :
      ReportsTruly db publish at before (publish_next db config publish at before)
  publish_next-ReportsTruly = publish_next-Good.0

  -- A call that returns an error other than a failed publication leaves both tables as they were,
  -- wherever the database failed; but after a commit that reported an error although the server had
  -- committed, the tables are those of a whole publication, or of a whole failed one.
  pub publish_next-AbortsCleanly :
      AbortsCleanly db at before (publish_next db config publish at before)
  publish_next-AbortsCleanly = publish_next-Good.1
