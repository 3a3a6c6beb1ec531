-- ===== src/Cors/Tests.antt =====
-- A preflight from the dashboard.
use eventrail_ingestion.Prelude.{[], not, some, trim_space, ◌&&◌, ◌==◌, ◌∷◌, ◌≡◌}
use eventrail_ingestion.Cors.{with_cors}
use eventrail_ingestion.Cors.Laws.{has_origin, with_cors-preflight}

with_cors-preflight_example :
    ((with_cors (" http://a" ∷ []) "OPTIONS" "http://a ").allow_headers ≡ (
      not (trim_space "http://a " == "") && has_origin (trim_space "http://a ") (" http://a" ∷ [])))
    × ((with_cors (" http://a" ∷ []) "OPTIONS" "http://a ").answer ≡ some 204)
unfolding trim_space
with_cors-preflight_example = with_cors-preflight (" http://a" ∷ []) "OPTIONS" "http://a "
