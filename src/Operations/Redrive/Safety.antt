-- ===== src/Operations/Redrive/Safety.antt =====
-- `RedriveDLQ` as a whole: what a success and an error mean for the tables and the stream.
use eventrail_ingestion.Prelude.{
  List, String, [], ap, concat, inl, inr, refl, some, subst, sym, ◌∙◌, ◌∷◌, ◌≡◌,
}
use eventrail_ingestion.Errors.{wrap}
use eventrail_ingestion.Operations.{DlqRow, EventMetadata, find_dlq, find_event, status_open}
use eventrail_ingestion.Operations.Redrive.{
  RedriveResult, dlq_rows, fetch_event, finish_redrive, hand_over, lock_record, publish_event,
  redrive_body, redrive_dlq, redrive_values, require_open,
}
use eventrail_ingestion.Operations.Redrive.Laws.{
  HandsOverOnce, Redriven, fetch_event-Ensures, finish_redrive-Ensures, hand_over-Ensures,
  lock_record-Ensures, open_of_check, redriven_tables,
}
use eventrail_ingestion.Operations.Session.{
  Database, Result, Session, Tx, check, ok, within, ◌>>=◌, ◌>>◌,
}
use eventrail_ingestion.Operations.Session.Rules.{
  Ensures, asked, check-Ensures, on_error-Ensures, then-Ensures, transaction-Ensures, weaken,
}
use eventrail_ingestion.Worker.{Values}

module _ (db : Database) (publish : Values → Result String) (event_id : String) (s : Session) where
  -- What is known of the session between the statements.
  abbrev pub Once : Session → Type 0
  Once s' = HandsOverOnce db event_id s.tables s.handed_over s'.handed_over

  abbrev pub Success : RedriveResult → Session → Type 0
  Success result s' = Redriven db publish event_id s result s'.tables s'.handed_over

  publish_event-Ensures :
      (id : String) (e : EventMetadata) (r : DlqRow) (s' : Session)
      → db.uuid event_id ≡ some id
      → find_dlq id s.tables.dlq ≡ some r
      → r.status ≡ status_open
      → find_event id s.tables.events ≡ some e
      → s'.tables ≡ s.tables
      → s'.handed_over ≡ s.handed_over
      → Ensures Success Once (publish_event db publish event_id e s')
  unfolding publish_event
  publish_event-Ensures id e r s' valid found opened known same quiet =
      let v : Values = redrive_values db e in
      let context : String = concat ("publish redrive event " ∷ event_id ∷ ": " ∷ []) in
      let once : (h : List Values)
          → h ≡ v ∷ s'.handed_over
          → HandsOverOnce db event_id s.tables s.handed_over h =
        λ h new_one. inr (id, e, r, valid, found, opened, known, new_one ∙ ap (λ l. v ∷ l) quiet) in
      then-Ensures (within context (hand_over publish v)) (finish_redrive db event_id) s'
        (on_error-Ensures (hand_over publish v) (λ x. wrap context x "") s'
          (weaken (hand_over-Ensures publish v s') (λ _ z q. q) (λ z q. once z.handed_over q)))
        (λ stream_id z q.
          weaken (finish_redrive-Ensures db event_id stream_id id z valid)
            (λ result z' w.
              let tables_same : z.tables ≡ s.tables = ap (λ (x : Session). x.tables) q.1 ∙ same in
              (
                id,
                e,
                r,
                valid,
                found,
                opened,
                known,
                q.0 ∙ ap ok (sym w.0),
                w.3 ∙ ap (λ (x : Session). x.handed_over) q.1 ∙ ap (λ l. v ∷ l) quiet,
                subst (λ t. dlq_rows id t.dlq ≡ 1) tables_same w.1,
                w.2
                    ∙ ap (redriven_tables db id stream_id) tables_same
                    ∙ ap (λ i. redriven_tables db id i s.tables) (sym w.0),
              ))
            (λ z' w. once z'.handed_over (w ∙ ap (λ (x : Session). x.handed_over) q.1)))

  redrive_body-Ensures :
      (s' : Session)
      → s'.tables ≡ s.tables
      → s'.handed_over ≡ s.handed_over
      → Ensures Success Once (redrive_body db publish event_id s')
  unfolding redrive_body
  redrive_body-Ensures s' same quiet =
      let fetching : Tx RedriveResult =
        fetch_event db event_id >>= publish_event db publish event_id in
      then-Ensures (lock_record db event_id) (λ status. check (require_open status) >> fetching) s'
        (weaken (lock_record-Ensures db event_id s') (λ _ z q. q) (λ z q. inl (q ∙ quiet)))
        (λ status z (id, r, valid, found, this, kept).
          check-Ensures (require_open status) fetching z
            (λ passed.
              then-Ensures (fetch_event db event_id) (publish_event db publish event_id) z
                (weaken (fetch_event-Ensures db event_id z) (λ _ y q. q)
                  (λ y q. inl (q ∙ ap (λ (x : Session). x.handed_over) kept ∙ quiet)))
                (λ e y (id', valid', known, kept').
                  let same_id : id' ≡ id = cc in
                  let tables_same : z.tables ≡ s.tables =
                    ap (λ (x : Session). x.tables) kept ∙ same in
                  publish_event-Ensures id e r y valid
                    (subst (λ t. find_dlq id t.dlq ≡ some r) same found)
                    (this ∙ open_of_check status passed)
                    (subst (λ t. find_event id t.events ≡ some e) tables_same
                      (subst (λ i. find_event i z.tables.events ≡ some e) same_id known))
                    (ap (λ (x : Session). x.tables) kept' ∙ tables_same)
                    (ap (λ (x : Session). x.handed_over) kept'
                      ∙ ap (λ (x : Session). x.handed_over) kept
                      ∙ quiet)))
            (inl (ap (λ (x : Session). x.handed_over) kept ∙ quiet)))

  pub redrive_dlq-IsSafe :
      Ensures Success (λ s'. Once s' × (s'.tables ≡ s.tables)) (redrive_dlq db publish event_id s)
  unfolding redrive_dlq
  redrive_dlq-IsSafe =
      transaction-Ensures (Redriven db publish event_id s)
        (HandsOverOnce db event_id s.tables s.handed_over) db "begin redrive transaction: "
        (concat ("commit redrive event " ∷ event_id ∷ ": " ∷ [])) (redrive_body db publish event_id)
        s (inl refl)
        (λ result t h (id, e, r, valid, found, opened, known, taken, handed, one, rest).
          inr (id, e, r, valid, found, opened, known, handed))
        (redrive_body-Ensures (asked s) refl refl)
