-- ===== src/Operations/Samples.antt =====
-- A store with one event whose delivery failed for good, for the tests.
use eventrail_ingestion.Prelude.{String, [], eqb, if◌then◌else◌, inl, none, pos, refl, some, ◌∷◌}
use eventrail_ingestion.Errors.{new, nil}
use eventrail_ingestion.Operations.{
  EventMetadata, Tables, detail_int, detail_text, find_event, positive_int4, references_event,
}
use eventrail_ingestion.Operations.Invariant.{IsValid}
use eventrail_ingestion.Operations.Redrive.{RedriveResult, redrive_values}
use eventrail_ingestion.Operations.Session.{Database, Result, Session, ok}
use eventrail_ingestion.Worker.{DeadLetterRecord, Values}

abbrev pub healthy : Database
healthy = record {
  answer = λ n. nil;
  uuid = λ s. some s;
  now = 70;
  marshal_error = λ d. nil;
  format_time = λ t. "time";
  format_nano = λ t. "time";
}

-- The commit of a redrive is the sixth statement.
abbrev pub broken_commit : Database
broken_commit = record healthy { answer = λ n. if eqb n 5 then new "connection lost" else nil }

abbrev pub invoice : EventMetadata
invoice = record {
  event_id = "e1";
  event_type = "webhook";
  source = "billing";
  payload = "{}";
  created_at = 5;
}

abbrev pub empty : Session
empty = record {
  tables = record {
    events = invoice ∷ [];
    outbox = [];
    history = [];
    attempts = [];
    dlq = [];
    next_history_id = 1;
    next_attempt_id = 1;
  };
  statements = 0;
  handed_over = [];
}

abbrev pub rejected : DeadLetterRecord
rejected = record {
  attempt = record {
    event_id = "e1";
    stream_id = "7-0";
    attempt_number = pos 3;
    response_code = some (pos 422);
    error = new "rejected";
    started_at = pos 60;
    completed_at = pos 61;
  };
  original_stream_id = " ";
}

abbrev pub accepting : Values → Result String
accepting v = ok "8-0"

abbrev pub buried_tables : Tables
buried_tables = record empty.tables {
  history =
      record {
        id = 1;
        event_id = "e1";
        status = "DEAD_LETTERED";
        details = ("stream_id", detail_text "7-0") ∷ ("retry", detail_int (pos 2)) ∷ [];
        created_at = 70;
      }
      ∷ [];
  attempts =
      record {
        id = 1;
        event_id = "e1";
        attempt_number = pos 3;
        outcome = "FAILED";
        response_code = some (pos 422);
        error = some "rejected";
        started_at = pos 60;
        completed_at = pos 61;
      }
      ∷ [];
  dlq =
      record {
        event_id = "e1";
        original_stream_id = "7-0";
        attempt_count = pos 3;
        last_error = some "rejected";
        status = "OPEN";
        dead_lettered_at = 70;
        redriven_at = none;
        updated_at = 70;
      }
      ∷ [];
  next_history_id = 2;
  next_attempt_id = 2;
}

abbrev pub before_redrive : Session
before_redrive = record empty { tables = buried_tables }

abbrev pub redriven : RedriveResult
redriven = record { event_id = "e1"; status = "REDRIVEN"; stream_id = "8-0" }

pub buried_tables-IsValid : IsValid buried_tables
unfolding references_event find_event positive_int4
buried_tables-IsValid = record {
  history_refs = (refl, tt);
  attempt_refs = ((refl, refl), tt);
  dlq_rows = ((inl (refl, refl), refl, refl), tt);
  dlq_distinct = (tt, tt);
}

-- The session that `redriven` leaves.
abbrev pub after_redrive : Session
after_redrive = record {
  tables = record buried_tables {
    history =
        record {
          id = 2;
          event_id = "e1";
          status = "REDRIVEN";
          details = ("stream_id", detail_text "8-0") ∷ [];
          created_at = 70;
        }
        ∷ buried_tables.history;
    dlq =
        record {
          event_id = "e1";
          original_stream_id = "7-0";
          attempt_count = pos 3;
          last_error = some "rejected";
          status = "REDRIVEN";
          dead_lettered_at = 70;
          redriven_at = some 70;
          updated_at = 70;
        }
        ∷ [];
    next_history_id = 3;
  };
  statements = 6;
  handed_over = redrive_values healthy invoice ∷ [];
}

abbrev pub lost_commit : Session
lost_commit = record before_redrive {
  statements = 6;
  handed_over = redrive_values broken_commit invoice ∷ [];
}
