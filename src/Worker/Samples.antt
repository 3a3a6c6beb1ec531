-- ===== src/Worker/Samples.antt =====
-- Surroundings of a worker for tests: a recorder and a Redis that always succeed, and a destination
-- that answers every request with one reply.
use eventrail_ingestion.Prelude.{pos, some, ◌*◌}
use eventrail_ingestion.Errors.{nil}
use eventrail_ingestion.Worker.{Config}
use eventrail_ingestion.Worker.Effects.{Env, HttpReply, webhook}

abbrev pub quiet : HttpReply → Env
quiet reply = record {
  answer = λ t c. nil;
  http = λ t r. reply;
  clock = λ t. pos 0;
  decode_webhook = λ s. webhook "http://receipts";
  marshal_data = λ s. some "{}";
  new_request = λ url. nil;
  marshal = λ values. some "{}";
  format_time = λ t. "1970-01-01T00:00:00Z";
}

abbrev pub settings : Config
settings = record {
  stream = "eventrail.events";
  consumer_group = "eventrail.cg";
  dlq_stream = "eventrail.events.dlq";
  retry_zset = "eventrail.events.retry";
  max_retries = pos 5;
  base_backoff = pos (500 * 1000 * 1000);
}
