-- ===== src/Config/Tests.antt =====
-- An environment with only the two required settings.
use eventrail_ingestion.Prelude.{
  if◌then◌else◌, inr, none, pos, refl, some, trim_space, ◌*◌, ◌<ℤ◌, ◌==◌, ◌≡◌, ◌≢◌,
}
use eventrail_ingestion.Config.{
  Settings, Variables, getenv, load, optional_positive_int, optional_string, read_positive,
  required_string,
}
use eventrail_ingestion.Config.Laws.{load-IsUsable}
use eventrail_ingestion.Go.Words.{mul_int}

abbrev minimal : Variables
minimal key =
    if key == "POSTGRES_DSN"
    then some " postgres://db "
    else if key == "REDIS_ADDR"
    then some "redis:6379"
    else none

abbrev defaults : Settings
defaults = record {
  postgres_dsn = "postgres://db";
  redis_addr = "redis:6379";
  ai_service_url = "http://127.0.0.1:8090";
  ai_service_timeout = pos (10 * 1000 * 1000 * 1000);
  consumer_name = "api-1";
  max_retries = pos 5;
  base_backoff = pos (500 * 1000 * 1000);
  outbox_poll_interval = pos (250 * 1000 * 1000);
}

minimal_run : load minimal ≡ inr defaults
unfolding load required_string optional_string optional_positive_int read_positive getenv trim_space
    mul_int
minimal_run = refl

load-IsUsable_example :
    (defaults.postgres_dsn ≢ "") × (defaults.redis_addr ≢ "") × (pos 0 <ℤ defaults.max_retries)
load-IsUsable_example = load-IsUsable minimal defaults minimal_run
