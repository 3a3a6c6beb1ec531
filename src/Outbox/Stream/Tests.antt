-- ===== src/Outbox/Stream/Tests.antt =====
-- One event to a stream whose name has space around it.
use eventrail_ingestion.Prelude.{String, [], false, refl, some, trim_space, ℕ, ◌∷◌, ◌≡◌}
use eventrail_ingestion.Errors.{failed, nil}
use eventrail_ingestion.Outbox.Stream.{
  Client, OutboxEvent, made, new_publisher, new_publisher-publish, publish, xadd_args,
}

abbrev sample : OutboxEvent
sample = record {
  outbox_id = "1";
  event_id = "2";
  event_type = "order";
  source = "shop";
  payload = "{}";
  created_at = 0;
}

abbrev accepting : Client
accepting a = ("1-0", nil)

abbrev clock : ℕ → String
clock t = "1970-01-01T00:00:00Z"

new_publisher-publish_example :
    (new_publisher (some accepting) " events "
      ≡ made (record { client = some accepting; stream = "events" }))
    × ((publish clock (some (record { client = some accepting; stream = "events" })) sample).1
        ≡ xadd_args clock "events" sample ∷ [])
    × (failed
          (publish clock (some (record { client = some accepting; stream = "events" })) sample).0
        ≡ false)
unfolding trim_space xadd_args
new_publisher-publish_example = new_publisher-publish clock accepting " events " sample refl
