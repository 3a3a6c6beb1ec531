-- ===== src/Operations/Redrive/Laws.antt =====
-- What each step of `RedriveDLQ` ensures.
use eventrail_ingestion.Prelude.{
  List, String, [], ap, arith, concat, eq_iff, inr, refl, some, subst, sym, ℕ, ◌∙◌, ◌∷◌, ◌≡◌, ◌⊎◌,
}
use eventrail_ingestion.Errors.{nil, wrap}
use eventrail_ingestion.Operations.{
  Details, DlqRow, EventMetadata, Tables, detail_text, find_dlq, find_event, references_event,
  status_open, status_redriven,
}
use eventrail_ingestion.Operations.Invariant.{
  IsDlqRow, IsValid, update_dlq-All, update_dlq-IsDistinct,
}
use eventrail_ingestion.Operations.Recording.{insert_history, insert_status_history}
use eventrail_ingestion.Operations.Recording.Laws.{insert_status_history-Ensures}
use eventrail_ingestion.Operations.Redrive.{
  RedriveResult, affected_one, dlq_rows, fetch_event, finish_redrive, hand_over, lock_record,
  mark_record, mark_redriven, redrive_values, require_open, store_redriven, update_dlq,
}
use eventrail_ingestion.Operations.Session.{
  Database, Result, Session, Tx, ask, cast, err, get_tables, ok, one_row, pure, within, ◌>>=◌, ◌>>◌,
}
use eventrail_ingestion.Operations.Session.Rules.{
  Ensures, ask-Ensures, asked, cast-Ensures, check_alone, done, on_error-Ensures, row-Ensures,
  row_alone, stopped, then-Ensures, valid_alone, weaken,
}
use eventrail_ingestion.Worker.{Values}

-- Nothing or one message was handed over since `h`, and a message only while the record was open.
abbrev pub HandsOverOnce : Database → String → Tables → List Values → List Values → Type 0
HandsOverOnce db event_id t h h' =
    (h' ≡ h)
    ⊎ ((id : String) × (e : EventMetadata) × (r : DlqRow) × (db.uuid event_id ≡ some id)
        × (find_dlq id t.dlq ≡ some r)
        × (r.status ≡ status_open)
        × (find_event id t.events ≡ some e)
        × (h' ≡ redrive_values db e ∷ h))

-- The tables after the record of `id` is marked, and the line of history is written.
abbrev pub redriven_tables : Database → String → String → Tables → Tables
redriven_tables db id stream_id t =
    insert_history db.now id status_redriven (("stream_id", detail_text stream_id) ∷ [])
      (record t { dlq = update_dlq id (mark_redriven db.now) t.dlq })

-- What a successful call has done.
abbrev pub Redriven :
    Database
    → (Values → Result String)
    → String
    → Session
    → RedriveResult
    → Tables
    → List Values
    → Type 0
Redriven db publish event_id s result t handed =
    (id : String) × (e : EventMetadata) × (r : DlqRow) × (db.uuid event_id ≡ some id)
    × (find_dlq id s.tables.dlq ≡ some r)
    × (r.status ≡ status_open)
    × (find_event id s.tables.events ≡ some e)
    × (publish (redrive_values db e) ≡ ok result.stream_id)
    × (handed ≡ redrive_values db e ∷ s.handed_over)
    × (dlq_rows id s.tables.dlq ≡ 1)
    × (t ≡ redriven_tables db id result.stream_id s.tables)

pub lock_record-Ensures :
    (db : Database) (event_id : String) (s : Session)
    → Ensures
        (λ status s'.
          (id : String) × (r : DlqRow) × (db.uuid event_id ≡ some id)
          × (find_dlq id s.tables.dlq ≡ some r)
          × (r.status ≡ status)
          × (s' ≡ asked s))
        (λ s'. s'.handed_over ≡ s.handed_over)
        (lock_record db event_id s)
unfolding lock_record
lock_record-Ensures db event_id s =
    let reading : String → Tx String =
      λ u. (do t ← get_tables; row ← one_row (find_dlq u t.dlq); pure row.status) in
    on_error-Ensures (ask db >> (cast db event_id >>= reading)) _ s (
      ask-Ensures db (cast db event_id >>= reading) s
        (cast-Ensures db event_id reading (asked s)
          (λ u valid.
            row-Ensures (find_dlq u s.tables.dlq) (λ row. pure row.status) (asked s)
              (λ row found. done (u, row, valid, found, refl, refl)) refl)
          refl)
        refl)

pub fetch_event-Ensures :
    (db : Database) (event_id : String) (s : Session)
    → Ensures
        (λ e s'.
          (id : String) × (db.uuid event_id ≡ some id)
          × (find_event id s.tables.events ≡ some e)
          × (s' ≡ asked s))
        (λ s'. s'.handed_over ≡ s.handed_over)
        (fetch_event db event_id s)
unfolding fetch_event
fetch_event-Ensures db event_id s =
    let reading : String → Tx EventMetadata =
      λ u. (do t ← get_tables; one_row (find_event u t.events)) in
    on_error-Ensures (ask db >> (cast db event_id >>= reading)) _ s (
      ask-Ensures db (cast db event_id >>= reading) s
        (cast-Ensures db event_id reading (asked s)
          (λ u valid.
            row_alone (find_event u s.tables.events) (asked s) (λ e found. (u, valid, found, refl))
              refl)
          refl)
        refl)

one_of_check : (n : ℕ) → affected_one n ≡ nil → n ≡ 1
unfolding affected_one
one_of_check n h = ground arith

-- The rows of the record are marked, and there was one.
abbrev Marked : Database → String → Session → Session → Type 0
Marked db id s s' =
    (dlq_rows id s.tables.dlq ≡ 1)
    × (s'.tables ≡ record s.tables { dlq = update_dlq id (mark_redriven db.now) s.tables.dlq })
    × (s'.handed_over ≡ s.handed_over)

mark_record-Ensures :
    (db : Database) (id : String) (s : Session)
    → Ensures
        (λ _ s'. Marked db id s s')
        (λ s'. s'.handed_over ≡ s.handed_over)
        (mark_record db.now id s)
unfolding mark_record
mark_record-Ensures db id s =
    let marked : Session = record s {
      tables = record s.tables { dlq = update_dlq id (mark_redriven db.now) s.tables.dlq };
    } in
    weaken
      (check_alone {E = λ s'. s'.handed_over ≡ s.handed_over}
        (affected_one (dlq_rows id s.tables.dlq)) marked refl)
      (λ _ s' q. (
        one_of_check (dlq_rows id s.tables.dlq) q.1,
        ap (λ (z : Session). z.tables) q.0,
        ap (λ (z : Session). z.handed_over) q.0,
      ))
      (λ s' e. e)

store_redriven-Ensures :
    (db : Database) (event_id id : String) (s : Session)
    → db.uuid event_id ≡ some id
    → Ensures
        (λ _ s'. Marked db id s s')
        (λ s'. s'.handed_over ≡ s.handed_over)
        (store_redriven db event_id s)
unfolding store_redriven
store_redriven-Ensures db event_id id s valid =
    let context : String = concat ("mark DLQ record redriven for event " ∷ event_id ∷ ": " ∷ []) in
    then-Ensures {Q = λ u s'. (u ≡ id) × (s' ≡ asked s)}
      (within context (ask db >> cast db event_id)) (mark_record db.now) s
      (on_error-Ensures (ask db >> cast db event_id) (λ e. wrap context e "") s
        (ask-Ensures db (cast db event_id) s
          (valid_alone (db.uuid event_id) (asked s) (λ u found. (cc, refl)) refl) refl))
      (λ u s' q.
        subst
          (λ z.
            Ensures (λ _ s''. Marked db id s s'') (λ s''. s''.handed_over ≡ s.handed_over)
              (mark_record db.now z s'))
          (sym q.0)
          (subst
            (λ z.
              Ensures (λ _ s''. Marked db id s s'') (λ s''. s''.handed_over ≡ s.handed_over)
                (mark_record db.now id z))
            (sym q.1) (mark_record-Ensures db id (asked s))))

pub open_of_check : (status : String) → require_open status ≡ nil → status ≡ status_open
unfolding require_open
open_of_check status h = ground (arith, eq_iff status status_open)

pub hand_over-Ensures :
    (publish : Values → Result String) (v : Values) (s : Session)
    → Ensures
        (λ id s'. (publish v ≡ ok id) × (s' ≡ record s { handed_over = v ∷ s.handed_over }))
        (λ s'. s'.handed_over ≡ v ∷ s.handed_over)
        (hand_over publish v s)
unfolding hand_over
hand_over-Ensures publish v s = answered (publish v) refl
  where
    answered :
        (r : Result String)
        → publish v ≡ r
        → Ensures
            (λ id s'. (publish v ≡ ok id) × (s' ≡ record s { handed_over = v ∷ s.handed_over }))
            (λ s'. s'.handed_over ≡ v ∷ s.handed_over)
            (r, record s { handed_over = v ∷ s.handed_over })
    answered (ok id) same = done (same, refl)
    answered (err e) same = stopped refl

pub finish_redrive-Ensures :
    (db : Database) (event_id stream_id id : String) (s : Session)
    → db.uuid event_id ≡ some id
    → Ensures
        (λ result s'.
          (result.stream_id ≡ stream_id)
          × (dlq_rows id s.tables.dlq ≡ 1)
          × (s'.tables ≡ redriven_tables db id stream_id s.tables)
          × (s'.handed_over ≡ s.handed_over))
        (λ s'. s'.handed_over ≡ s.handed_over)
        (finish_redrive db event_id stream_id s)
unfolding finish_redrive
finish_redrive-Ensures db event_id stream_id id s valid =
    let details : Details = ("stream_id", detail_text stream_id) ∷ [] in
    let result : RedriveResult = record {
      event_id = event_id;
      status = status_redriven;
      stream_id = stream_id;
    } in
    let writing : Tx RedriveResult =
      insert_status_history db event_id status_redriven details >> pure result in
    then-Ensures (store_redriven db event_id) (λ _. writing) s
      (store_redriven-Ensures db event_id id s valid)
      (λ _ s' m.
        then-Ensures (insert_status_history db event_id status_redriven details) (λ _. pure result)
          s'
          (weaken {E' = λ s''. s''.handed_over ≡ s.handed_over}
            (insert_status_history-Ensures db event_id status_redriven details s') (λ _ s'' w. w)
            (λ s'' q. q ∙ m.2))
          (λ _ s'' w.
            let same : w.0 ≡ id = cc in
            done (
              refl,
              m.0,
              w.3
                  ∙ ap (λ u. insert_history db.now u status_redriven details s'.tables) same
                  ∙ ap (insert_history db.now id status_redriven details) m.1,
              w.4 ∙ m.2,
            )))

-- The invariant survives a redrive.
pub redriven_tables-IsValid :
    (db : Database) (id stream_id : String) (t : Tables)
    → references_event t.events id ≡ nil
    → IsValid t
    → IsValid (redriven_tables db id stream_id t)
unfolding insert_history mark_redriven
redriven_tables-IsValid db id stream_id t known v = record {
  history_refs = (known, v.history_refs);
  attempt_refs = v.attempt_refs;
  dlq_rows =
      update_dlq-All (IsDlqRow t.events) id (mark_redriven db.now) t.dlq
        (λ r k. (inr (refl, (db.now, refl)), k.1, k.2)) v.dlq_rows;
  dlq_distinct = update_dlq-IsDistinct id (mark_redriven db.now) t.dlq (λ r. refl) v.dlq_distinct;
}
