-- ===== src/Operations/Invariant.antt =====
-- What holds of the tables between calls, and the changes of the store that keep it.
use eventrail_ingestion.Prelude.{
  All, Bool-cases, List, String, [], arith, eq_iff, false, if_cases, inl, inr, none, refl, some,
  subst, sym, ℕ, ◌==◌, ◌∷◌, ◌≡◌, ◌⊎◌,
}
use eventrail_ingestion.Errors.{nil}
use eventrail_ingestion.Operations.{
  DlqRow, EventMetadata, Tables, positive_int4, references_event, status_open, status_redriven,
}
use eventrail_ingestion.Operations.Recording.{upsert_dlq}
use eventrail_ingestion.Operations.Redrive.{update_dlq}

-- A dead-letter record is open and was not redriven since, or is redriven and has the time of it.
abbrev pub IsConsistent : DlqRow → Type 0
IsConsistent r =
    ((r.status ≡ status_open) × (r.redriven_at ≡ none))
    ⊎ ((r.status ≡ status_redriven) × ((at : ℕ) × (r.redriven_at ≡ some at)))

abbrev pub IsDlqRow : List EventMetadata → DlqRow → Type 0
IsDlqRow events r =
    IsConsistent r
    × (references_event events r.event_id ≡ nil)
    × (positive_int4 r.attempt_count ≡ nil)

abbrev IsOther : String → DlqRow → Type 0
IsOther id r = (r.event_id == id) ≡ false

-- No event has two dead-letter records.
abbrev pub IsDistinct : List DlqRow → Type 0
IsDistinct [] = Unit
IsDistinct (r ∷ rs) = All (IsOther r.event_id) rs × IsDistinct rs

pub record IsValid (t : Tables) : Type 0 where
  pub history_refs : All (λ r. references_event t.events r.event_id ≡ nil) t.history
  pub attempt_refs :
      All
        (λ r. (references_event t.events r.event_id ≡ nil) × (positive_int4 r.attempt_number ≡ nil))
        t.attempts
  pub dlq_rows : All (IsDlqRow t.events) t.dlq
  pub dlq_distinct : IsDistinct t.dlq

module _ {κ} (P : DlqRow → Type κ) where
  pub upsert_dlq-All : (r : DlqRow) (ds : List DlqRow) → P r → All P ds → All P (upsert_dlq r ds)
  unfolding upsert_dlq
  upsert_dlq-All r [] p h = (p, tt)
  upsert_dlq-All r (d ∷ ds) p (q, h) = elim (Bool-cases (d.event_id == r.event_id)) [
    | inl same ↦ rw same (p, h)
    | inr apart ↦ rw apart (q, upsert_dlq-All r ds p h)
  ]

  pub update_dlq-All :
      (id : String) (f : DlqRow → DlqRow) (ds : List DlqRow)
      → ((r : DlqRow) → P r → P (f r))
      → All P ds
      → All P (update_dlq id f ds)
  unfolding update_dlq
  update_dlq-All id f [] k h = tt
  update_dlq-All id f (d ∷ ds) k (q, h) =
      (if_cases P (d.event_id == id) (f d) d (λ _. k d q) (λ _. q), update_dlq-All id f ds k h)

pub upsert_dlq-IsDistinct :
    (r : DlqRow) (ds : List DlqRow) → IsDistinct ds → IsDistinct (upsert_dlq r ds)
unfolding upsert_dlq
upsert_dlq-IsDistinct r [] h = (tt, tt)
upsert_dlq-IsDistinct r (d ∷ ds) (others, h) = elim (Bool-cases (d.event_id == r.event_id)) [
  | inl same ↦
      rw same (subst (λ id. All (IsOther id) ds) ((eq_iff d.event_id r.event_id).0 same) others, h)
  | inr apart ↦ rw apart (
    upsert_dlq-All (IsOther d.event_id) r ds
        (ground (arith, eq_iff d.event_id r.event_id, eq_iff r.event_id d.event_id)) others,
    upsert_dlq-IsDistinct r ds h,
  )
]

pub update_dlq-IsDistinct :
    (id : String) (f : DlqRow → DlqRow) (ds : List DlqRow)
    → ((r : DlqRow) → (f r).event_id ≡ r.event_id)
    → IsDistinct ds
    → IsDistinct (update_dlq id f ds)
unfolding update_dlq
update_dlq-IsDistinct id f [] k h = tt
update_dlq-IsDistinct id f (d ∷ ds) k (others, h) = (
  subst (λ x. All (IsOther x) (update_dlq id f ds))
      (if_cases (λ (x : DlqRow). d.event_id ≡ x.event_id) (d.event_id == id) (f d) d
        (λ _. sym (k d)) (λ _. refl))
      (update_dlq-All (IsOther d.event_id) id f ds (λ r o. rw (k r) o) others),
  update_dlq-IsDistinct id f ds k h,
)
