-- ===== src/Config/Laws.antt =====
-- What a configuration that loads guarantees.
use eventrail_ingestion.Prelude.{
  Option, String, arith, eq_iff, inl, inr, none, pos, refl, some, subst, trim_space, ℕ, ℤ, ◌<ℤ◌,
  ◌<◌, ◌≡◌, ◌≢◌,
}
use eventrail_ingestion.Config.{
  Loaded, Settings, Variables, check_positive, getenv, load, optional_positive_int, read_positive,
  required_string, ◌>>=◌,
}
use eventrail_ingestion.Go.Decimal.{atoi}

bind-eq-inr :
    {A B : Type 0} (m : Loaded A) (f : A → Loaded B) {b : B}
    → (m >>= f) ≡ inr b
    → (a : A) × (m ≡ inr a) × (f a ≡ inr b)
bind-eq-inr (inl e) f h = cc
bind-eq-inr (inr a) f h = (a, refl, h)

required_string-ne : (env : Variables) (key s : String) → required_string env key ≡ inr s → s ≢ ""
unfolding required_string
required_string-ne env key s h = ground (arith, eq_iff (trim_space (getenv (env key))) "")

read_positive-pos :
    (key : String) (default : ℕ) (o : Option String) (n : ℤ)
    → 0 < default
    → read_positive key default o ≡ inr n
    → pos 0 <ℤ n
unfolding read_positive check_positive
read_positive-pos key default none n d h = ground arith
read_positive-pos key default (some raw) n d h = go (atoi (trim_space raw)) h
  where
    go : (o : Option ℤ) → check_positive key o ≡ inr n → pos 0 <ℤ n
    go none e = cc
    go (some k) e = ground arith

-- A configuration that loads has a database and a Redis address that are not empty, and a positive
-- number of retries.
pub load-IsUsable :
    (env : Variables) (c : Settings)
    → load env ≡ inr c
    → (c.postgres_dsn ≢ "") × (c.redis_addr ≢ "") × (pos 0 <ℤ c.max_retries)
unfolding load optional_positive_int
load-IsUsable env c h =
    let (dsn, e1, h1) = bind-eq-inr (required_string env "POSTGRES_DSN") _ h in
    let (addr, e2, h2) = bind-eq-inr (required_string env "REDIS_ADDR") _ h1 in
    let (retries, e3, h3) = bind-eq-inr (read_positive "MAX_RETRIES" 5 (env "MAX_RETRIES")) _ h2 in
    let (backoff, e4, h4) =
      bind-eq-inr (read_positive "BASE_BACKOFF_MS" 500 (env "BASE_BACKOFF_MS")) _ h3 in
    let (poll, e5, h5) =
      bind-eq-inr (read_positive "OUTBOX_POLL_INTERVAL_MS" 250 (env "OUTBOX_POLL_INTERVAL_MS")) _
        h4 in
    let (timeout, e6, h6) =
      bind-eq-inr (read_positive "AI_SERVICE_TIMEOUT_MS" 10000 (env "AI_SERVICE_TIMEOUT_MS")) _
        h5 in
    let same_dsn : dsn ≡ c.postgres_dsn = cc h6 in
    let same_addr : addr ≡ c.redis_addr = cc h6 in
    let same_retries : retries ≡ c.max_retries = cc h6 in
    (
      subst (λ s. s ≢ "") same_dsn (required_string-ne env "POSTGRES_DSN" dsn e1),
      subst (λ s. s ≢ "") same_addr (required_string-ne env "REDIS_ADDR" addr e2),
      subst (λ n. pos 0 <ℤ n) same_retries
          (read_positive-pos "MAX_RETRIES" 5 (env "MAX_RETRIES") retries (omega arith) e3),
    )
