-- ===== src/Cors/Laws.antt =====
-- The empty origin is never allowed, and the answers to preflights.
use eventrail_ingestion.Prelude.{
  Bool, Bool-cases, List, String, [], any, ap, arith, eq_iff, false, if◌then◌else◌, inl, inr, none,
  not, refl, some, trim_space, ◌&&◌, ◌==◌, ◌||◌, ◌∙◌, ◌∷◌, ◌≡◌,
}
use eventrail_ingestion.Cors.{allowed_origins, is_member, with_cors}

empty_not_member : (l : List String) → is_member "" (allowed_origins l) ≡ false
unfolding is_member allowed_origins
empty_not_member [] = refl
empty_not_member (o ∷ l) = elim (Bool-cases (trim_space o == "")) [
  | inl blank ↦ rw blank (empty_not_member l)
  | inr kept ↦ rw kept (rw kept (empty_not_member l))
]

-- The origins, trimmed, have this one.
abbrev pub has_origin : String → List String → Bool
has_origin origin origins = any (λ o. trim_space o == origin) origins

member-has_origin :
    (origin : String) (l : List String)
    → (origin == "") ≡ false
    → is_member origin (allowed_origins l) ≡ has_origin origin l
unfolding is_member allowed_origins
member-has_origin origin [] h = refl
member-has_origin origin (o ∷ l) h = elim (Bool-cases (trim_space o == "")) [
  | inl blank ↦
      let other : (trim_space o == origin) ≡ false =
        ground
          (arith, h, eq_iff (trim_space o) "", eq_iff (trim_space o) origin, eq_iff origin "") in
      rw (blank, other) (member-has_origin origin l h)
  | inr kept ↦ rw (kept, member-has_origin origin l h) refl
]

known_origin :
    (origin : String) (l : List String)
    → is_member origin (allowed_origins l) ≡ (not (origin == "") && has_origin origin l)
known_origin origin l = elim (Bool-cases (origin == "")) [
  | inl blank ↦
      rw blank (
        ap (λ s. is_member s (allowed_origins l)) ((eq_iff origin "").0 blank) ∙ empty_not_member l)
  | inr given ↦ rw (given, member-has_origin origin l given) refl
]

-- The headers are set exactly for an origin that, trimmed, is not empty and is one of the origins,
-- trimmed, whatever the method. A preflight is answered with 204 if its origin is such a one or is
-- empty, and with 403 otherwise; a request of another method goes on.
pub with_cors-preflight :
    (origins : List String) (method header : String)
    → ((with_cors origins method header).allow_headers
        ≡ (not (trim_space header == "") && has_origin (trim_space header) origins))
      × ((with_cors origins method header).answer ≡ (
          if method == "OPTIONS"
          then (if trim_space header == "" || has_origin (trim_space header) origins
              then some 204
              else some 403)
          else none))
unfolding with_cors
with_cors-preflight origins method header =
    let known = known_origin (trim_space header) origins in (known, rw known (ground arith))
