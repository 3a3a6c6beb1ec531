-- ===== src/Replay/Pages.antt =====
-- Two replays after one another, over a database that answers the query and Redis taking every
-- message: what a page hands over, and where the next one begins.
use eventrail_ingestion.Prelude.{
  Bool, List, Option, Option-cases, [], ap, arith, false, if◌then◌else◌, inl, inr, last?, leb,
  length, length-take, ltb, map, none, refl, some, suc, take, true, zero, ℕ, ◌+◌, ◌∙◌, ◌∷◌, ◌≡◌,
  ◌≤◌,
}
use eventrail_ingestion.Errors.{nil}
use eventrail_ingestion.Http.{json}
use eventrail_ingestion.Replay.{
  Outcome, ReplayCursor, ReplayEvent, Services, Times, Values, cursor_of, finish, replay_rows,
  values,
}

-- The cursor after a list of rows that were published.
abbrev pub cursor_after : Times → Option ReplayCursor → List ReplayEvent → Option ReplayCursor
cursor_after times c [] = c
cursor_after times c (e ∷ l) = cursor_after times (some (cursor_of times e)) l

-- The answer for the rows `shown`, `n` having been published before them.
abbrev pub answer : Times → ℕ → Option ReplayCursor → List ReplayEvent → Bool → Outcome
answer times n c shown more = (
  map (values times) shown,
  json 200 (record {
    published = n + length shown;
    has_more = more;
    next_cursor = if more then cursor_after times c shown else none;
  }),
)

-- The page of at most `limit` rows.
abbrev pub page : Times → ℕ → ℕ → Option ReplayCursor → List ReplayEvent → Outcome
page times limit n c rows = answer times n c (take limit rows) (ltb limit (length rows))

pub published_as :
    (m : List Values) (a b : ℕ) (h k : Bool) (c d : Option ReplayCursor)
    → a ≡ b
    → h ≡ k
    → c ≡ d
    → ◌≡◌ {A = Outcome}
        (m, json 200 (record { published = a; has_more = h; next_cursor = c }))
        (m, json 200 (record { published = b; has_more = k; next_cursor = d }))
published_as m a b h k c d e f g = rw (e, f, g) refl

ltb-suc : (m n : ℕ) → ltb m n ≡ ltb (suc m) (suc n)
ltb-suc m n = ground arith

ltb_to_zero : (n : ℕ) → false ≡ ltb n 0
ltb_to_zero n = ground arith

zero_below : (n : ℕ) → true ≡ ltb 0 (suc n)
zero_below n = ground arith

pub replay_rows-page :
    (v : Services) (limit room n : ℕ) (c : Option ReplayCursor) (rows : List ReplayEvent)
    → ((m : Values) → v.publish m ≡ true)
    → n + room ≡ limit
    → replay_rows v limit nil n c (map some rows) ≡ page v.times room n c rows
unfolding replay_rows finish
replay_rows-page v limit zero n c [] taken e =
    published_as [] n (n + 0) false (ltb 0 0) none none (omega arith) (ltb_to_zero 0) refl
replay_rows-page v limit (suc room) n c [] taken e =
    published_as [] n (n + 0) false (ltb (suc room) 0) none (if ltb (suc room) 0 then c else none)
      (omega arith) (ltb_to_zero (suc room))
      (ap (λ b. if b then c else none) (ltb_to_zero (suc room)))
replay_rows-page v limit zero n c (x ∷ rows) taken e =
    let full : leb limit n ≡ true = ground arith in
    let more : true ≡ ltb 0 (suc (length rows)) = zero_below (length rows) in
    rw full (
      published_as [] n (n + 0) true (ltb 0 (suc (length rows))) c
        (if ltb 0 (suc (length rows)) then c else none) (omega arith) more
        (ap (λ b. if b then c else none) more))
replay_rows-page v limit (suc room) n c (x ∷ rows) taken e =
    let space : leb limit n ≡ false = ground arith in
    let here : Option ReplayCursor = some (cursor_of v.times x) in
    let later : replay_rows v limit nil (n + 1) here (map some rows)
        ≡ page v.times room (n + 1) here rows =
      replay_rows-page v limit room (n + 1) here rows taken (omega arith) in
    let more : ltb room (length rows) ≡ ltb (suc room) (suc (length rows)) =
      ltb-suc room (length rows) in
    let last : Option ReplayCursor = cursor_after v.times here (take room rows) in
    rw (space, taken (values v.times x))
      (ap (λ (o : Outcome). (values v.times x ∷ o.0, o.1)) later
        ∙ published_as (values v.times x ∷ map (values v.times) (take room rows))
            (n + 1 + length (take room rows)) (n + suc (length (take room rows)))
            (ltb room (length rows)) (ltb (suc room) (suc (length rows)))
            (if ltb room (length rows) then last else none)
            (if ltb (suc room) (suc (length rows)) then last else none) (omega arith) more
            (ap (λ b. if b then last else none) more))

take-take : (n : ℕ) (rows : List ReplayEvent) → take n (take (suc n) rows) ≡ take n rows
take-take zero rows = refl
take-take (suc n) [] = refl
take-take (suc n) (x ∷ rows) = ap (λ r. x ∷ r) (take-take n rows)

has_more-take :
    (n : ℕ) (rows : List ReplayEvent) → ltb n (length (take (suc n) rows)) ≡ ltb n (length rows)
has_more-take n rows = ground (arith, length-take (suc n) rows)

-- One row more than the page is enough to tell whether there is more.
pub page-take :
    (times : Times) (limit n : ℕ) (c : Option ReplayCursor) (rows : List ReplayEvent)
    → page times limit n c (take (suc limit) rows) ≡ page times limit n c rows
page-take times limit n c rows =
    ap (λ shown. answer times n c shown (ltb limit (length (take (suc limit) rows))))
      (take-take limit rows)
    ∙ ap (answer times n c (take limit rows)) (has_more-take limit rows)

pub cursor_after-last :
    (times : Times) (c : Option ReplayCursor) (l : List ReplayEvent) (x : ReplayEvent)
    → last? l ≡ some x
    → cursor_after times c l ≡ some (cursor_of times x)
cursor_after-last times c [] x e = cc
cursor_after-last times c (y ∷ []) x e = let same : y ≡ x = cc in rw same refl
cursor_after-last times c (y ∷ z ∷ l) x e =
    cursor_after-last times (some (cursor_of times y)) (z ∷ l) x e

length-last? : (l : List ReplayEvent) → last? l ≡ none → length l ≡ 0
length-last? [] e = refl
length-last? (x ∷ []) e = cc
length-last? (x ∷ y ∷ l) e = absurd (omega (arith, length-last? (y ∷ l) e))

pub last?-take :
    (n : ℕ) (l : List ReplayEvent)
    → 1 ≤ n
    → ltb n (length l) ≡ true
    → (x : ReplayEvent) × (last? (take n l) ≡ some x)
last?-take n l h more = elim (Option-cases (last? (take n l))) [
  | inl nothing ↦ absurd (ground (arith, length-take n l, length-last? (take n l) nothing))
  | inr found ↦ found
]
