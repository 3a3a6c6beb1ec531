-- ===== src/Replay/Tests.antt =====
-- Replays of a few events, with times in unary and ids that are ordered by their length.
use eventrail_ingestion.Prelude.{
  Bool, Bool-cases, Char, List, Option, Orders, String, [], ap, arith, eq_iff, false, inl, inr,
  insert_by, leb, map, none, not, order_by, pos, refl, some, suc, trim_space, true, zero, ℕ, ◌==◌,
  ◌∷◌, ◌≡◌, ◌≤◌,
}
use eventrail_ingestion.Errors.{nil}
use eventrail_ingestion.Http.{Request, json}
use eventrail_ingestion.Http.Events.{
  decode_json_request, decoded, end_of_input, max_json_request_body_bytes, value,
}
use eventrail_ingestion.Replay.{
  ReplayCursor, ReplayEvent, ReplayRequest, Services, Times, condition, in_range, is_after,
  is_blank_cursor, ordered_events, parse_cursor, query_of, replay_decoded, replay_handler,
  replay_limit, same_or_any, select_events, sorts_before, values,
}
use eventrail_ingestion.Replay.Following.{KeepsInstants, replay_decoded-following}
use eventrail_ingestion.Replay.Laws.{ReportsTruly, limit_of, replay_handler-ReportsTruly}
use eventrail_ingestion.Replay.Pages.{page}

abbrev size : String → ℕ
size String.[] = 0
size (String.◌∷◌ c s) = suc (size s)

abbrev ticks : ℕ → String
ticks zero = ""
ticks (suc n) = String.◌∷◌ "x" (ticks n)

abbrev parse : String → Option ℕ
parse String.[] = none
parse (String.◌∷◌ c s) = some (size s)

abbrev unary_times : Times
unary_times = record {
  parse = parse;
  seconds = λ t. String.◌∷◌ "T" (ticks t);
  nano = λ t. String.◌∷◌ "T" (ticks t);
}

size-ticks : (n : ℕ) → size (ticks n) ≡ n
size-ticks zero = refl
size-ticks (suc n) = ap suc (size-ticks n)

cons-empty : (c : Char) (s : String) → (String.◌∷◌ c s == "") ≡ false
cons-empty c s = elim (Bool-cases (String.◌∷◌ c s == "")) [
  | inl same ↦
      let sizes : suc (size s) ≡ 0 = ap size ((eq_iff (String.◌∷◌ c s) "").0 same) in
      absurd (omega (arith, sizes))
  | inr apart ↦ apart
]

unary_times-KeepsInstants : KeepsInstants unary_times
unfolding trim_space
unary_times-KeepsInstants t early = (ap some (size-ticks t), cons-empty "T" _)

abbrev shorter : String → String → Bool
shorter a b = leb (size a) (size b)

shorter-Orders : Orders shorter
shorter-Orders = record { trans = λ a b c h k. ground arith; total = λ a b h. ground arith }

abbrev event : String → ℕ → ReplayEvent
event id at = record {
  id = id;
  event_type = "order";
  source = "shop";
  payload = "{}";
  created_at = at;
}

abbrev three_events : List ReplayEvent
three_events = event "iii" 4 ∷ event "ii" 1 ∷ event "i" 1 ∷ []

abbrev two_at_once : ReplayRequest
two_at_once = record {
  from_time = "T";
  to_time = "Txxxxx";
  source = "shop";
  event_type = "";
  limit = pos 2;
  cursor = none;
}

abbrev services : Services
services = record {
  times = unary_times;
  decoder = λ bytes cut. (value two_at_once, end_of_input);
  query_events =
      λ q. some (record { scanned = map some (select_events shorter q three_events); err = nil });
  publish = λ m. true;
}

-- The texts that cast to an id.
abbrev not_empty : String → Bool
not_empty i = not (i == "")

abbrev post : Request
post = record { method = "POST"; path = "/replay"; query = λ k. ""; header = λ k. ""; body = [] }

replay_handler-ReportsTruly_example :
    (limit_of (decode_json_request services.decoder max_json_request_body_bytes []) ≤ 5000)
    × ReportsTruly
        (limit_of (decode_json_request services.decoder max_json_request_body_bytes []))
        services.publish
        (replay_handler services post)
replay_handler-ReportsTruly_example = replay_handler-ReportsTruly services post

replay_decoded-following_example :
    (c : ReplayCursor) × (replay_decoded services (decoded two_at_once) ≡ (
      map (values unary_times) (event "i" 1 ∷ event "ii" 1 ∷ []),
      json 200 (record { published = 2; has_more = true; next_cursor = some c }),
    ))
    × (replay_decoded services (decoded (record two_at_once { cursor = some c }))
        ≡ page unary_times 2 0 none (event "iii" 4 ∷ []))
unfolding ordered_events in_range is_after sorts_before query_of replay_limit is_blank_cursor
    parse_cursor order_by insert_by trim_space same_or_any condition
replay_decoded-following_example =
    replay_decoded-following not_empty shorter services three_events two_at_once 0 5 none
      shorter-Orders (λ q casts. refl) (λ m. refl) unary_times-KeepsInstants
      ((refl, (refl, tt)), ((refl, tt), (tt, tt)))
      ((refl, refl, refl), ((refl, refl, refl), ((refl, refl, refl), tt))) tt
      (refl, refl, refl, refl, refl) refl
