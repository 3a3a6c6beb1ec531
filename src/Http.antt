-- ===== src/Http.antt =====
-- internal/httpapi: requests, replies and the handlers of operations.go. The routes of the store's
-- handlers and of ingestion are the children.
pub mod Paths
pub mod Triage
pub mod Dlq
pub mod Events
use eventrail_ingestion.Prelude.{
  List, Option, String, if◌then◌else◌, none, not, some, ℕ, ◌==◌, ◌||◌,
}
use eventrail_ingestion.Errors.{Error, failed}

-- What the handlers read of a request: the query and the headers are functions, empty where nothing
-- is set, and the body is its bytes.
pub record Request : Type 0 where
  pub method : String
  pub path : String
  pub query : String → String
  pub header : String → String
  pub body : List ℕ

-- A reply: a JSON value with its status, an error text (`http.Error`, or
-- the member `error` of a JSON object), a bare status, or 405 with the
-- method that is allowed.
pub data Reply (A : Type 0) : Type 0 where
  json : ℕ → A → Reply A
  error_reply : ℕ → String → Reply A
  bare : ℕ → Reply A
  not_allowed : String → Reply A

abbrev pub status_code : {A : Type 0} → Reply A → ℕ
status_code (json n a) = n
status_code (error_reply n m) = n
status_code (bare n) = n
status_code (not_allowed m) = 405

-- `requireGet`, and the same for POST: the rest runs for that method only.
unfoldable pub require_method {ℓ} : {A : Type ℓ} → String → Request → A → A → A
require_method allowed r refuse rest = if r.method == allowed then rest else refuse

pub record Readiness : Type 0 where
  pub status : String
  pub postgres : String
  pub redis : String

-- `dependencyStatus`; `none` is no check at all.
pub dependency_status : Option Error → String
dependency_status none = "ok"
dependency_status (some e) = if failed e then "error" else "ok"

readiness : String → String → Reply Readiness
readiness pg redis =
    if not (pg == "ok") || not (redis == "ok")
    then json 503 (record { status = "degraded"; postgres = pg; redis = redis })
    else json 200 (record { status = "ok"; postgres = pg; redis = redis })

-- `NewReadinessHandler`, with what its two checks return.
pub readiness_handler : Option Error → Option Error → Request → Reply Readiness
readiness_handler postgres_check redis_check r =
    require_method "GET" r (not_allowed "GET")
      (readiness (dependency_status postgres_check) (dependency_status redis_check))

pub liveness_handler : Request → Reply String
liveness_handler r = require_method "GET" r (not_allowed "GET") (json 200 "ok")

pub record Version : Type 0 where
  pub service : String
  pub version : String
  pub commit : String
  pub built_at : String

pub version_handler : Version → Request → Reply Version
version_handler v r = require_method "GET" r (not_allowed "GET") (json 200 v)
