-- ===== src/Ingestion/Invariant.antt =====
-- The tables that ingestion writes, over every sequence of requests.
use eventrail_ingestion.Prelude.{
  All, Bool-cases, List, Option, String, [], ap, arith, false, inl, inr, map, none, some, ◌==◌, ◌∷◌,
  ◌≡◌,
}
use eventrail_ingestion.Ingestion.{
  Answers, EventInput, EventRow, Store, find_event, has_id, has_key, persist_event, store_of,
}
use eventrail_ingestion.Ingestion.Outcomes.{IsFresh, persist_event_cases, with_event}

-- The line of history and the outbox row of each event, by the list of events.
abbrev pub history_of_events : List EventRow → List (String × String)
history_of_events [] = []
history_of_events (r ∷ rows) =
    (r.id, "PENDING_PUBLICATION") ∷ (r.id, "STORED") ∷ history_of_events rows

abbrev HasOtherKey : EventRow → Option String → List EventRow → Type 0
HasOtherKey r none rows = Unit
HasOtherKey r (some key) rows =
    ((key == "") ≡ false) × All (λ q. has_key r.source key q ≡ false) rows

-- No two events have the same id, and no two events of a source the same key.
abbrev pub AreDistinct : List EventRow → Type 0
AreDistinct [] = Unit
AreDistinct (r ∷ rows) =
    All (λ q. (q.id == r.id) ≡ false) rows × HasOtherKey r r.idempotency_key rows × AreDistinct rows

pub record IsValid (s : Store) : Type 0 where
  pub distinct : AreDistinct s.events
  pub outbox_rows : s.outbox ≡ map (λ r. r.id) s.events
  pub history_lines : s.history ≡ history_of_events s.events

find_event-none :
    (source key : String) (rows : List EventRow)
    → find_event source key rows ≡ none
    → All (λ r. has_key source key r ≡ false) rows
unfolding find_event
find_event-none source key [] h = tt
find_event-none source key (r ∷ rows) h = elim (Bool-cases (has_key source key r)) [
  | inl this ↦ cc (h, this)
  | inr apart ↦ (apart, find_event-none source key rows (rw apart at h))
]

has_id-none :
    (i : String) (rows : List EventRow)
    → has_id i rows ≡ false
    → All (λ q. (q.id == i) ≡ false) rows
unfolding has_id
has_id-none i [] h = tt
has_id-none i (r ∷ rows) h = (ground arith, has_id-none i rows (ground arith))

with_event-IsValid :
    (input : EventInput) (key : Option String) (hash i : String) (s : Store)
    → IsFresh i input key s
    → IsValid s
    → IsValid (with_event input key hash i s)
with_event-IsValid input none hash i s fresh v = record {
  distinct = (has_id-none i s.events fresh, tt, v.distinct);
  outbox_rows = ap (λ l. i ∷ l) v.outbox_rows;
  history_lines = ap (λ l. (i, "PENDING_PUBLICATION") ∷ (i, "STORED") ∷ l) v.history_lines;
}
with_event-IsValid input (some key) hash i s (free, keyed, h) v = record {
  distinct = (
    has_id-none i s.events free,
    (keyed, find_event-none input.source key s.events h),
    v.distinct,
  );
  outbox_rows = ap (λ l. i ∷ l) v.outbox_rows;
  history_lines = ap (λ l. (i, "PENDING_PUBLICATION") ∷ (i, "STORED") ∷ l) v.history_lines;
}

-- A request with its key, and what the database answers to it.
pub record Submission : Type 0 where
  pub answers : Answers
  pub input : EventInput
  pub key : String

module _ (request_hash : EventInput → Option String) where
  persist_event-IsValid :
      (db : Answers) (input : EventInput) (key : String) (s : Store)
      → IsValid s
      → IsValid (store_of (persist_event request_hash db input key s))
  persist_event-IsValid db input key s v =
      persist_event_cases request_hash db input key s (λ p. IsValid (store_of p)) (λ e. v)
        (λ hash row _ _ _ _. v)
        (λ k hash _ _ fresh. with_event-IsValid input k hash db.new_id s fresh v)
        (λ e k hash _ _ fresh _ _. with_event-IsValid input k hash db.new_id s fresh v)

  abbrev pub submit_all : List Submission → Store → Store
  submit_all [] s = s
  submit_all (r ∷ rs) s =
      submit_all rs (store_of (persist_event request_hash r.answers r.input r.key s))

  -- Over every sequence of requests, whatever the database answers and whatever ids it generates: no
  -- two events have the same id, no two events of a source the same key, each event has exactly one
  -- outbox row, and its history is STORED and PENDING_PUBLICATION; no other row or line is written.
  pub submit_all-IsValid :
      (rs : List Submission) (s : Store) → IsValid s → IsValid (submit_all rs s)
  submit_all-IsValid [] s v = v
  submit_all-IsValid (r ∷ rs) s v =
      submit_all-IsValid rs (store_of (persist_event request_hash r.answers r.input r.key s))
        (persist_event-IsValid r.answers r.input r.key s v)
