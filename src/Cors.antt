-- ===== src/Cors.antt =====
-- internal/httpapi/cors.go: which origins get the CORS headers, and the answers to preflights.
pub mod Laws
mod Tests
use eventrail_ingestion.Prelude.{
  Bool, List, Option, String, [], false, if◌then◌else◌, none, not, some, trim_space, ℕ, ◌&&◌, ◌==◌,
  ◌||◌, ◌∷◌,
}

-- What happens to a request: whether the headers are set, and a status, or `none` where it goes on.
pub record CorsDecision : Type 0 where
  pub allow_headers : Bool
  pub answer : Option ℕ

-- The set of allowed origins: trimmed, without empty ones.
pub allowed_origins : List String → List String
allowed_origins [] = []
allowed_origins (o ∷ l) =
    if trim_space o == "" then allowed_origins l else trim_space o ∷ allowed_origins l

pub is_member : String → List String → Bool
is_member s [] = false
is_member s (o ∷ l) = o == s || is_member s l

-- `WithCORS`, for the method and the `Origin` header of a request.
pub with_cors : List String → String → String → CorsDecision
with_cors origins method header =
    let origin = trim_space header in
    let known = is_member origin (allowed_origins origins) in
    record {
      allow_headers = known;
      answer =
          if method == "OPTIONS"
          then (if not (origin == "") && not known then some 403 else some 204)
          else none;
    }
