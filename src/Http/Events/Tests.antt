-- ===== src/Http/Events/Tests.antt =====
-- A creation that succeeds.
use eventrail_ingestion.Prelude.{[], some, true}
use eventrail_ingestion.Errors.{nil}
use eventrail_ingestion.Http.{Request}
use eventrail_ingestion.Http.Events.{Decoder, create_event_handler, end_of_input, value}
use eventrail_ingestion.Http.Events.Laws.{TellsTruly, create_event_handler-TellsTruly}
use eventrail_ingestion.Ingestion.{Answers, EventInput, Store, persist_event}

abbrev working : Answers
working = record {
  new_id = "e1";
  begin_error = nil;
  insert_error = nil;
  lookup_error = nil;
  outbox_error = nil;
  stored_error = nil;
  pending_error = nil;
  commit_error = nil;
  commit_applied = true;
}

abbrev nothing_stored : Store
nothing_stored = record { events = []; outbox = []; history = [] }

abbrev creation : Request
creation = record {
  method = "POST";
  path = "/events";
  query = λ k. "";
  header = λ k. "";
  body = [];
}

abbrev gives_order : Decoder EventInput
gives_order = λ bytes cut.
    (value (record { event_type = "paid"; source = "billing"; payload = "{}" }), end_of_input)

create_event_handler-TellsTruly_example :
    TellsTruly
      (λ req. some req.payload)
      working
      gives_order
      creation
      nothing_stored
      (create_event_handler gives_order
        (persist_event (λ req. some req.payload) working)
        creation
        nothing_stored)
create_event_handler-TellsTruly_example =
    create_event_handler-TellsTruly (λ req. some req.payload) working gives_order creation
      nothing_stored
