-- ===== src/Replay/Following.antt =====
-- A replay and the one that its cursor asks for, from the requests on.
use eventrail_ingestion.Prelude.{
  All, All-kept, All-order_by, All-take, Bool, List, Option, Orders, String, ap, arith, drop, false,
  keep_if, last?, last?-All, length, length-take, ltb, map, none, order_by, refl, some, suc, take,
  trim_space, true, ℕ, ◌*◌, ◌+◌, ◌==◌, ◌||◌, ◌∙◌, ◌≡◌,
}
use eventrail_ingestion.Errors.{nil}
use eventrail_ingestion.Http.{json}
use eventrail_ingestion.Http.Events.{decoded}
use eventrail_ingestion.Replay.{
  ReplayCursor, ReplayEvent, ReplayQuery, ReplayRequest, Services, Times, Values, accepted,
  check_request, cursor_of, in_range, is_after, is_blank_cursor, ordered_events, parse_cursor,
  parse_times, query_of, replay_decoded, replay_found, replay_limit, replay_query, select_events,
  sorts_before, values,
}
use eventrail_ingestion.Replay.Laws.{replay_limit-bounds}
use eventrail_ingestion.Replay.Pages.{
  answer, cursor_after, cursor_after-last, last?-take, page, page-take, published_as,
  replay_rows-page,
}
use eventrail_ingestion.Replay.Paging.{AreDistinct, ordered_events-following}
use eventrail_ingestion.Worker.Loop.Order.{ids}

-- A request that passes the checks, with its times and its cursor as they are parsed.
abbrev pub IsAccepted : Times → ReplayRequest → ℕ → ℕ → Option (ℕ × String) → Type 0
IsAccepted times req from_t to_t after =
    ((req.from_time == "" || req.to_time == "") ≡ false)
    × (is_blank_cursor req.cursor ≡ false)
    × (times.parse req.from_time ≡ some from_t)
    × (times.parse req.to_time ≡ some to_t)
    × (parse_cursor times req.cursor ≡ some after)

-- The beginning of the year 10000, behind which RFC 3339 prints no instant: 3652425 days.
abbrev pub year_10000 : ℕ
year_10000 = 3652425 * 86400 * 1000000000

-- A printed time of the years that RFC 3339 knows is not blank, and is parsed as the instant it was
-- printed from.
abbrev pub KeepsInstants : Times → Type 0
KeepsInstants times =
    (t : ℕ)
    → ltb t year_10000 ≡ true
    → (times.parse (times.nano t) ≡ some t) × ((trim_space (times.nano t) == "") ≡ false)

-- The id of a cursor casts to `uuid`; without a cursor there is nothing to cast.
abbrev pub Casts : (String → Bool) → Option (ℕ × String) → Type 0
Casts is_uuid none = Unit
Casts is_uuid (some (t, i)) = is_uuid i ≡ true

-- The database holds the events and gives what a query asks for whose cursor it can cast.
abbrev pub Holds : (String → Bool) → (String → String → Bool) → Services → List ReplayEvent → Type 0
Holds is_uuid uuid_leb v events =
    (q : ReplayQuery)
    → Casts is_uuid q.after
    → v.query_events q
      ≡ some (record { scanned = map some (select_events uuid_leb q events); err = nil })

-- The id is that of a column of type `uuid`, so not blank, and the time lies before the year 10000.
abbrev pub IsStored : (String → Bool) → ReplayEvent → Type 0
IsStored is_uuid e =
    (is_uuid e.id ≡ true) × ((trim_space e.id == "") ≡ false) × (ltb e.created_at year_10000 ≡ true)

check_request-accepted :
    (times : Times) (req : ReplayRequest) (from_t to_t : ℕ) (after : Option (ℕ × String))
    → IsAccepted times req from_t to_t after
    → check_request times req ≡ accepted (query_of req from_t to_t after)
unfolding check_request parse_times
check_request-accepted times req from_t to_t after (given, full, from_e, to_e, cursor_e) =
    rw (given, full, parse_times, from_e, to_e, cursor_e) refl

next_request-IsAccepted :
    (is_uuid : String → Bool) (times : Times) (req : ReplayRequest) (from_t to_t : ℕ)
    (after : Option (ℕ × String)) (x : ReplayEvent)
    → KeepsInstants times
    → IsStored is_uuid x
    → IsAccepted times req from_t to_t after
    → IsAccepted times
        (record req { cursor = some (cursor_of times x) })
        from_t
        to_t
        (some (x.created_at, x.id))
unfolding is_blank_cursor parse_cursor cursor_of
next_request-IsAccepted is_uuid times req from_t to_t after x instants (casts, id_e, early)
      (given, full, from_e, to_e, cursor_e) =
    let (parsed, shown) = instants x.created_at early in
    (given, rw (shown, id_e) refl, from_e, to_e, rw (parse_cursor, parsed) refl)

page-IsStored :
    (is_uuid : String → Bool) (uuid_leb : String → String → Bool) (q : ReplayQuery)
    (events : List ReplayEvent) (n : ℕ) (x : ReplayEvent)
    → All (IsStored is_uuid) events
    → last? (take n (ordered_events uuid_leb q events)) ≡ some x
    → IsStored is_uuid x
unfolding ordered_events
page-IsStored is_uuid uuid_leb q events n x ids last =
    let among : List ReplayEvent = keep_if (in_range uuid_leb q) events in
    let rows : List ReplayEvent = keep_if (is_after uuid_leb q.after) among in
    last?-All (IsStored is_uuid) (take n (order_by (sorts_before uuid_leb) rows)) x
      (All-take (IsStored is_uuid) n (order_by (sorts_before uuid_leb) rows) (
        All-order_by (sorts_before uuid_leb) (IsStored is_uuid) rows (
          All-kept (IsStored is_uuid) (is_after uuid_leb q.after) among
            (All-kept (IsStored is_uuid) (in_range uuid_leb q) events ids))))
      last

-- An accepted request hands over the first rows of the query.
replay_decoded-page :
    (is_uuid : String → Bool) (uuid_leb : String → String → Bool) (v : Services)
    (events : List ReplayEvent) (req : ReplayRequest) (from_t to_t : ℕ)
    (after : Option (ℕ × String))
    → Holds is_uuid uuid_leb v events
    → ((m : Values) → v.publish m ≡ true)
    → Casts is_uuid after
    → IsAccepted v.times req from_t to_t after
    → replay_decoded v (decoded req)
      ≡ page v.times
          (replay_limit req.limit)
          0
          none
          (ordered_events uuid_leb (query_of req from_t to_t after) events)
unfolding replay_decoded replay_query replay_found select_events query_of
replay_decoded-page is_uuid uuid_leb v events req from_t to_t after holds taken casts accepts =
    let q : ReplayQuery = query_of req from_t to_t after in
    let rows : List ReplayEvent = ordered_events uuid_leb q events in
    let limit : ℕ = replay_limit req.limit in
    let one_more : limit + 1 ≡ suc limit = omega arith in
    rw (check_request-accepted v.times req from_t to_t after accepts, holds q casts)
      (replay_rows-page v limit limit 0 none (take (limit + 1) rows) taken (omega arith)
        ∙ ap (λ k. page v.times limit 0 none (take k rows)) one_more
        ∙ page-take v.times limit 0 none rows)

-- For a database that gives what a query asks for whose cursor casts to `uuid`, Redis taking every
-- message, distinct rows with ids of type `uuid` from before the year 10000, and times of those years
-- that are printed without loss: where more rows are in the range than the limit, the answer counts a
-- whole page, says that there is more and has a cursor; the same request with that cursor hands over
-- the page of the rows behind the first one, in the same order.
pub replay_decoded-following :
    (is_uuid : String → Bool) (uuid_leb : String → String → Bool) (v : Services)
    (events : List ReplayEvent) (req : ReplayRequest) (from_t to_t : ℕ)
    (after : Option (ℕ × String))
    → Orders uuid_leb
    → Holds is_uuid uuid_leb v events
    → ((m : Values) → v.publish m ≡ true)
    → KeepsInstants v.times
    → AreDistinct uuid_leb events
    → All (IsStored is_uuid) events
    → Casts is_uuid after
    → IsAccepted v.times req from_t to_t after
    → let rows : List ReplayEvent =
        ordered_events uuid_leb (query_of req from_t to_t after) events in
      let limit : ℕ = replay_limit req.limit in
      ltb limit (length rows) ≡ true
      → (c : ReplayCursor) × (replay_decoded v (decoded req) ≡ (
        map (values v.times) (take limit rows),
        json 200 (record { published = limit; has_more = true; next_cursor = some c }),
      ))
        × (replay_decoded v (decoded (record req { cursor = some c }))
            ≡ page v.times limit 0 none (drop limit rows))
unfolding query_of
replay_decoded-following is_uuid uuid_leb v events req from_t to_t after o holds taken instants
      distinct ids casts accepts more =
    let q : ReplayQuery = query_of req from_t to_t after in
    let rows : List ReplayEvent = ordered_events uuid_leb q events in
    let limit : ℕ = replay_limit req.limit in
    let (x, last) = last?-take limit rows (replay_limit-bounds req.limit).0 more in
    let id_x : IsStored is_uuid x = page-IsStored is_uuid uuid_leb q events limit x ids last in
    let whole : 0 + length (take limit rows) ≡ limit = ground (arith, length-take limit rows) in
    (
      cursor_of v.times x,
      replay_decoded-page is_uuid uuid_leb v events req from_t to_t after holds taken casts accepts
          ∙ ap (answer v.times 0 none (take limit rows)) more
          ∙ published_as (map (values v.times) (take limit rows)) (0 + length (take limit rows))
              limit true true (cursor_after v.times none (take limit rows))
              (some (cursor_of v.times x)) whole refl
              (cursor_after-last v.times none (take limit rows) x last),
      replay_decoded-page is_uuid uuid_leb v events
            (record req { cursor = some (cursor_of v.times x) }) from_t to_t
            (some (x.created_at, x.id)) holds taken id_x.0
            (next_request-IsAccepted is_uuid v.times req from_t to_t after x instants id_x accepts)
          ∙ ap (page v.times limit 0 none)
              (ordered_events-following uuid_leb o q events limit x distinct last),
    )
