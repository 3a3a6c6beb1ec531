-- ===== src/Operations/Reading/Laws.antt =====
-- The reading operations agree with one another, and the list of dead letters keeps its limit.
use eventrail_ingestion.Prelude.{
  All, Bool, IsOrdered, List, Mem, Option, String, [], arith, count_if, inl, inr, keep_if, last?,
  last?-All, length, min, none, pos_part, refl, some, true, ℤ, ◌++◌, ◌+◌, ◌==◌, ◌∷◌, ◌≡◌, ◌≤◌,
}
use eventrail_ingestion.Operations.{
  DlqRow, EventMetadata, HistoryRow, Tables, status_open, status_redriven,
}
use eventrail_ingestion.Operations.Invariant.{IsConsistent, IsDlqRow, IsValid}
use eventrail_ingestion.Operations.Reading.{
  DlqRecord, MetricsSummary, current_status_of, is_latest, join_events, last_status, listed_before,
  summarise,
}
use eventrail_ingestion.Operations.Session.{Session, ◌>>=◌}

last_status-All :
    (P : String → Type 0) (rows : List HistoryRow) (o : Option HistoryRow)
    → P ""
    → last? rows ≡ o
    → All (λ r. P r.status) rows
    → P (last_status o)
unfolding last_status
last_status-All P rows none p e h = p
last_status-All P rows (some r) p e h = last?-All (λ x. P x.status) rows r h e

-- What holds of the status of every row, and of no status, holds of the current one.
pub current_status_of-All :
    (P : String → Type 0) (rows : List HistoryRow)
    → P ""
    → All (λ r. P r.status) rows
    → P (current_status_of rows)
unfolding current_status_of
current_status_of-All P rows none_yet h = last_status-All P rows (last? rows) none_yet refl h

-- A row of the event that no row of the event follows.
abbrev pub IsLatestOf : String → List HistoryRow → HistoryRow → Type 0
IsLatestOf id rows r = Mem r rows × ((r.event_id == id) ≡ true) × (is_latest rows r ≡ true)

counts_all :
    (ds : List DlqRow)
    → All IsConsistent ds
    → count_if (λ r. r.status == status_open) ds + count_if (λ r. r.status == status_redriven) ds
      ≡ length ds
counts_all [] h = omega arith
counts_all (d ∷ ds) (inl (opened, at), h) = rw opened (omega (arith, counts_all ds h))
counts_all (d ∷ ds) (inr (closed, at), h) = rw closed (omega (arith, counts_all ds h))

rows-IsConsistent :
    (events : List EventMetadata) (ds : List DlqRow)
    → All (IsDlqRow events) ds
    → All IsConsistent ds
rows-IsConsistent events [] h = tt
rows-IsConsistent events (d ∷ ds) (k, h) = (k.0, rows-IsConsistent events ds h)

-- In valid tables every dead-letter record is counted once, as open or as redriven.
pub summarise-dlq :
    (t : Tables)
    → IsValid t
    → MetricsSummary.open_dlq (summarise t) + MetricsSummary.redriven (summarise t) ≡ length t.dlq
unfolding summarise
summarise-dlq t v = counts_all t.dlq (rows-IsConsistent t.events t.dlq v.dlq_rows)

-- What a list of dead letters is: the beginning, as long as the limit allows, of an ordered list that
-- has each record of the status asked for as often as the table has it, and no other.
abbrev pub IsListing : (String → String → Bool) → String → ℤ → Tables → List DlqRecord → Type 0
IsListing uuid_leb status limit t l =
    (rest : List DlqRecord) × IsOrdered (listed_before uuid_leb) (l ++ rest)
    × ((p : DlqRecord → Bool)
        → count_if p (l ++ rest)
          ≡ count_if p (keep_if (λ r. r.status == status) (join_events t.events t.dlq)))
    × (length l
        ≡ min (pos_part limit) (count_if (λ r. r.status == status) (join_events t.events t.dlq)))
    × (length l ≤ 200)
