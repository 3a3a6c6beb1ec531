-- ===== src/Operations/Redrive/Twice.antt =====
-- A record that was redriven stays closed.
use eventrail_ingestion.Prelude.{
  Bool-cases, List, String, [], ap, eq_iff, inl, inr, refl, some, subst, sym, true, ◌==◌, ◌∙◌, ◌∷◌,
  ◌≡◌, ◌≢◌,
}
use eventrail_ingestion.Errors.{Error}
use eventrail_ingestion.Operations.{DlqRow, Tables, find_dlq, status_open, status_redriven}
use eventrail_ingestion.Operations.Recording.{insert_history}
use eventrail_ingestion.Operations.Redrive.{RedriveResult, mark_redriven, redrive_dlq, update_dlq}
use eventrail_ingestion.Operations.Redrive.Laws.{HandsOverOnce, Redriven}
use eventrail_ingestion.Operations.Redrive.Safety.{redrive_dlq-IsSafe}
use eventrail_ingestion.Operations.Session.{Database, Result, Session, err, ok}
use eventrail_ingestion.Operations.Session.Rules.{Ensures, done, stopped}
use eventrail_ingestion.Worker.{Values}

find_dlq-update_dlq :
    (id : String) (f : DlqRow → DlqRow) (ds : List DlqRow) {r : DlqRow}
    → ((d : DlqRow) → (f d).event_id ≡ d.event_id)
    → find_dlq id ds ≡ some r
    → find_dlq id (update_dlq id f ds) ≡ some (f r)
unfolding find_dlq update_dlq
find_dlq-update_dlq id f [] k h = cc
find_dlq-update_dlq id f (d ∷ ds) {r} k h = elim (Bool-cases (d.event_id == id)) [
  | inl this ↦
      let first : some d ≡ some r = rw this at h in
      let found : d ≡ r = cc in
      let still : ((f d).event_id == id) ≡ true = ap (λ x. x == id) (k d) ∙ this in
      rw (this, still) (ap (λ x. some (f x)) found)
  | inr apart ↦ rw (apart, apart) (find_dlq-update_dlq id f ds k (rw apart at h))
]

redriven-ne-open : status_redriven ≢ status_open
redriven-ne-open same =
    let equal : (status_redriven == status_open) ≡ true =
      (eq_iff status_redriven status_open).1 same in
    cc equal

-- After a success the record of the event is closed.
closed_after :
    (db : Database) (publish : Values → Result String) (event_id : String) (s s' : Session)
    (result : RedriveResult) (id : String) (r : DlqRow) (p : Result RedriveResult × Session)
    → db.uuid event_id ≡ some id
    → find_dlq id s'.tables.dlq ≡ some r
    → Ensures
        (λ a x. Redriven db publish event_id s a x.tables x.handed_over)
        (λ x.
          HandsOverOnce db event_id s.tables s.handed_over x.handed_over × (x.tables ≡ s.tables))
        p
    → p ≡ (ok result, s')
    → r.status ≡ status_redriven
unfolding mark_redriven insert_history
closed_after db publish event_id s s' result id r _ valid found
      (done {s = x} (i, e, old, v, was, opened, known, taken, handed, one, tables)) h =
    let there : x ≡ s' = cc in
    let this : i ≡ id = cc in
    let dlq : s'.tables.dlq ≡ update_dlq id (mark_redriven db.now) s.tables.dlq =
      rw (← there, tables, this) refl in
    let marked : find_dlq id s'.tables.dlq ≡ some (mark_redriven db.now old) = rw dlq (
      find_dlq-update_dlq id (mark_redriven db.now) s.tables.dlq (λ d. refl)
        (subst (λ z. find_dlq z s.tables.dlq ≡ some old) this was)) in
    let row : r ≡ mark_redriven db.now old = cc in ap (λ (d : DlqRow). d.status) row
closed_after db publish event_id s s' result id r _ valid found (stopped x) h = cc

nothing_handed :
    (db : Database) (event_id : String) (t : Tables) (h h' : List Values)
    → ((id : String) (r : DlqRow)
        → db.uuid event_id ≡ some id
        → find_dlq id t.dlq ≡ some r
        → r.status ≡ status_redriven)
    → HandsOverOnce db event_id t h h'
    → h' ≡ h
nothing_handed db event_id t h h' closed (inl same) = same
nothing_handed db event_id t h h' closed (inr (id, e, r, valid, found, opened, known, one)) =
    absurd (redriven-ne-open (sym (closed id r valid found) ∙ opened))

-- After a redrive of an event that succeeded, another one of the same event, with any answers of
-- PostgreSQL that read the id as before and any publisher, returns an error, hands nothing to the
-- stream and changes no table.
pub redrive_dlq_twice :
    (db db' : Database) (publish publish' : Values → Result String) (event_id : String)
    (s s' : Session) (result : RedriveResult)
    → db'.uuid event_id ≡ db.uuid event_id
    → redrive_dlq db publish event_id s ≡ (ok result, s')
    → (e : Error) × (s'' : Session) × (redrive_dlq db' publish' event_id s' ≡ (err e, s''))
      × (s''.handed_over ≡ s'.handed_over)
      × (s''.tables ≡ s'.tables)
redrive_dlq_twice db db' publish publish' event_id s s' result same h =
    second (redrive_dlq db' publish' event_id s') (redrive_dlq-IsSafe db' publish' event_id s') refl
  where
    closed :
        (id : String) (r : DlqRow)
        → db'.uuid event_id ≡ some id
        → find_dlq id s'.tables.dlq ≡ some r
        → r.status ≡ status_redriven
    closed id r valid found =
        closed_after db publish event_id s s' result id r _ (sym same ∙ valid) found
          (redrive_dlq-IsSafe db publish event_id s) h

    second :
        (p : Result RedriveResult × Session)
        → Ensures
            (λ a x. Redriven db' publish' event_id s' a x.tables x.handed_over)
            (λ x.
              HandsOverOnce db' event_id s'.tables s'.handed_over x.handed_over
              × (x.tables ≡ s'.tables))
            p
        → redrive_dlq db' publish' event_id s' ≡ p
        → (e : Error) × (s'' : Session) × (redrive_dlq db' publish' event_id s' ≡ (err e, s''))
          × (s''.handed_over ≡ s'.handed_over)
          × (s''.tables ≡ s'.tables)
    second _ (done (id, e, r, valid, found, opened, known, taken, handed, one, tables)) this =
        absurd (redriven-ne-open (sym (closed id r valid found) ∙ opened))
    second _ (stopped {e = e} {s = x} (once, kept)) this = (
      e,
      x,
      this,
      nothing_handed db' event_id s'.tables s'.handed_over x.handed_over closed once,
      kept,
    )
