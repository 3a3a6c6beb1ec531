-- ===== src/Config.antt =====
-- internal/config/config.go: the settings, read from the environment's variables.
mod Tests
pub mod Laws
use eventrail_ingestion.Prelude.{
  Option, String, [], concat, if◌then◌else◌, inl, inr, leb_ℤ, none, pos, some, trim_space, ℕ, ℤ,
  ◌*◌, ◌==◌, ◌∷◌, ◌⊎◌,
}
use eventrail_ingestion.Errors.{Error, new}
use eventrail_ingestion.Go.Decimal.{atoi}
use eventrail_ingestion.Go.Words.{mul_int}

-- `os.LookupEnv`: a variable that is not set is `none`; `os.Getenv` reads it as empty.
abbrev pub Variables : Type 0
Variables = String → Option String

abbrev pub Loaded : Type 0 → Type 0
Loaded A = Error ⊎ A

infixl 5 ◌>>=◌
abbrev pub ◌>>=◌ : {A B : Type 0} → Loaded A → (A → Loaded B) → Loaded B
inl e >>= f = inl e
inr a >>= f = f a

getenv : Option String → String
getenv none = ""
getenv (some s) = s

-- Durations are nanoseconds, with the wrap-around of `time.Duration`.
pub record Settings : Type 0 where
  pub postgres_dsn : String
  pub redis_addr : String
  pub ai_service_url : String
  pub ai_service_timeout : ℤ
  pub consumer_name : String
  pub max_retries : ℤ
  pub base_backoff : ℤ
  pub outbox_poll_interval : ℤ

required_string : Variables → String → Loaded String
required_string env key =
    let value = trim_space (getenv (env key)) in
    if value == "" then inl (new (concat (key ∷ " is required" ∷ []))) else inr value

optional_string : Variables → String → String → String
optional_string env key default =
    let value = trim_space (getenv (env key)) in if value == "" then default else value

check_positive : String → Option ℤ → Loaded ℤ
check_positive key none = inl (new (concat (key ∷ " must be a valid integer" ∷ [])))
check_positive key (some n) =
    if leb_ℤ n (pos 0) then inl (new (concat (key ∷ " must be greater than zero" ∷ []))) else inr n

read_positive : String → ℕ → Option String → Loaded ℤ
read_positive key default none = inr (pos default)
read_positive key default (some raw) = check_positive key (atoi (trim_space raw))

optional_positive_int : Variables → String → ℕ → Loaded ℤ
optional_positive_int env key default = read_positive key default (env key)

abbrev millisecond : ℤ
millisecond = pos (1000 * 1000)

pub load : Variables → Loaded Settings
load env = do
  postgres_dsn ← required_string env "POSTGRES_DSN"
  redis_addr ← required_string env "REDIS_ADDR"
  max_retries ← optional_positive_int env "MAX_RETRIES" 5
  base_backoff ← optional_positive_int env "BASE_BACKOFF_MS" 500
  poll_interval ← optional_positive_int env "OUTBOX_POLL_INTERVAL_MS" 250
  ai_timeout ← optional_positive_int env "AI_SERVICE_TIMEOUT_MS" 10000
  inr (record {
    postgres_dsn = postgres_dsn;
    redis_addr = redis_addr;
    ai_service_url = optional_string env "AI_SERVICE_URL" "http://127.0.0.1:8090";
    ai_service_timeout = mul_int ai_timeout millisecond;
    consumer_name = optional_string env "CONSUMER_NAME" "api-1";
    max_retries = max_retries;
    base_backoff = mul_int base_backoff millisecond;
    outbox_poll_interval = mul_int poll_interval millisecond;
  })
