-- ===== src/Http/Events/Laws.antt =====
-- What the answer to a creation tells of the tables.
use eventrail_ingestion.Prelude.{
  Option, String, ap, false, if_cases, inl, inr, refl, some, sym, trim_space, true, ◌==◌, ◌||◌, ◌≡◌,
  ◌⊎◌,
}
use eventrail_ingestion.Errors.{failed, idempotency_conflict, is_error}
use eventrail_ingestion.Http.{Reply, Request, json, require_method}
use eventrail_ingestion.Http.Events.{
  CreateEventResponse, DecodeResult, Decoder, body_too_large, create_decoded, create_event_handler,
  decode_json_request, decoded, extra_json_value, invalid_json, is_missing_json_payload,
  max_json_request_body_bytes, persisted_reply,
}
use eventrail_ingestion.Ingestion.{Answers, EventInput, EventRow, Store, find_event, persist_event}
use eventrail_ingestion.Ingestion.Outcomes.{given_key, persist_event_cases, with_event}

module _ (request_hash : EventInput → Option String) (db : Answers) (decoder : Decoder EventInput)
    (r : Request) (before : Store) where
  -- The body is one value of this input.
  abbrev pub IsInput : EventInput → Type 0
  IsInput input = decode_json_request decoder max_json_request_body_bytes r.body ≡ decoded input

  -- The tables with the event of the request more: its type, source and payload, the key of the
  -- header, the hash and the id that the database generated, with an outbox row and two lines.
  abbrev pub HasEvent : Store → Type 0
  HasEvent after =
      (input : EventInput) × (hash : String) × IsInput input
      × (request_hash input ≡ some hash)
      × (after ≡ with_event input (given_key (r.header "Idempotency-Key")) hash db.new_id before)

  -- 201 is answered for the event of the request, under the id of the answer, and 200 for the event
  -- that has the key of the request; any other answer leaves the tables, but for a commit that
  -- reported an error although the server had committed.
  abbrev pub TellsTruly : Reply CreateEventResponse × Store → Type 0
  TellsTruly (json n x, after) =
      ((n ≡ 201) × (x.created ≡ true) × (x.id ≡ db.new_id) × HasEvent after)
      ⊎ ((n ≡ 200)
          × (x.created ≡ false)
          × (after ≡ before)
          × ((input : EventInput) × (row : EventRow) × IsInput input
              × (find_event input.source (trim_space (r.header "Idempotency-Key")) before.events
                  ≡ some row)
              × (x.id ≡ row.id)))
  TellsTruly (_, after) =
      (after ≡ before)
      ⊎ ((failed db.commit_error ≡ true) × (db.commit_applied ≡ true) × HasEvent after)

  persisted-TellsTruly :
      (input : EventInput)
      → IsInput input
      → TellsTruly (
          persisted_reply (persist_event request_hash db input (r.header "Idempotency-Key") before))
  unfolding persisted_reply
  persisted-TellsTruly input body =
      let key : String = r.header "Idempotency-Key" in
      persist_event_cases request_hash db input key before (λ p. TellsTruly (persisted_reply p))
        (λ e.
          if_cases (λ reply. TellsTruly (reply, before)) (is_error e idempotency_conflict) _ _
            (λ _. inl refl) (λ _. inl refl))
        (λ hash row hashed _ found _. inr (refl, refl, refl, (input, row, body, found, refl)))
        (λ k hash given hashed fresh. inl (
          refl,
          refl,
          refl,
          (
            input,
            hash,
            body,
            hashed,
            ap (λ o. with_event input o hash db.new_id before) (sym given),
          ),
        ))
        (λ e k hash given hashed fresh lost applied.
          let whole : HasEvent (with_event input k hash db.new_id before) = (
            input,
            hash,
            body,
            hashed,
            ap (λ o. with_event input o hash db.new_id before) (sym given),
          ) in
          if_cases (λ reply. TellsTruly (reply, with_event input k hash db.new_id before))
            (is_error e idempotency_conflict) _ _ (λ _. inr (lost, applied, whole))
            (λ _. inr (lost, applied, whole)))

  create_decoded-TellsTruly :
      (body : DecodeResult EventInput)
      → decode_json_request decoder max_json_request_body_bytes r.body ≡ body
      → TellsTruly (create_decoded (persist_event request_hash db) r before body)
  unfolding create_decoded
  create_decoded-TellsTruly (decoded input) this =
      if_cases TellsTruly
        (input.event_type == "" || input.source == "" || is_missing_json_payload input.payload) _ _
        (λ lacking. inl refl) (λ complete. persisted-TellsTruly input this)
  create_decoded-TellsTruly body_too_large this = inl refl
  create_decoded-TellsTruly extra_json_value this = inl refl
  create_decoded-TellsTruly invalid_json this = inl refl

  -- Whatever the decoder and the database answer to a request to create an event: 201 is answered
  -- only where exactly the event of the body was stored, with the trimmed key of the header, its hash,
  -- its outbox row and its two lines of history, under the id of the answer; 200 only with the id of
  -- the event that has the key, and no table changed. With any other answer no table has changed,
  -- unless the commit reported an error although the server had committed: then exactly that event
  -- was stored.
  pub create_event_handler-TellsTruly :
      TellsTruly (create_event_handler decoder (persist_event request_hash db) r before)
  unfolding create_event_handler require_method
  create_event_handler-TellsTruly =
      if_cases TellsTruly (r.method == "POST") _ _
        (λ posted.
          create_decoded-TellsTruly (decode_json_request decoder max_json_request_body_bytes r.body)
            refl)
        (λ other_method. inl refl)
