-- ===== src/Explain/Snapshot/Statuses.antt =====
-- The statuses of a snapshot, of an event that never was a dead letter and of any event.
use eventrail_ingestion.Prelude.{
  All, Bool, Bool-cases, List, Option, String, [], arith, false, inl, inr, leb, length, none, refl,
  some, subst, suc, true, zero, ℕ, ℤ, ◌<◌, ◌==◌, ◌||◌, ◌∷◌, ◌≡◌,
}
use eventrail_ingestion.Explain.{
  HistoryItem, bound_explain_history, collect, explain_history, keep_known, map_explain_status,
  max_explain_items, status_history_contains,
}
use eventrail_ingestion.Explain.Laws.{
  bound_explain_history-bounds, head_item, status_history_contains_iff,
}
use eventrail_ingestion.Explain.Snapshot.{history_pairs, is_some, redrives, was_redriven}
use eventrail_ingestion.Operations.{HistoryRow}
use eventrail_ingestion.Operations.Reading.{DlqDetail}

-- No entry has the status.
abbrev pub Lacks : String → List HistoryItem → Type 0
Lacks s l = All (λ h. (h.status == s) ≡ false) l

collect-Lacks :
    (s : String) (n : ℕ) (bs : List Bool) (l : List HistoryItem)
    → Lacks s l
    → Lacks s (collect n bs l)
unfolding collect
collect-Lacks s zero bs l h = tt
collect-Lacks s (suc n) [] l h = tt
collect-Lacks s (suc n) (b ∷ bs) [] h = tt
collect-Lacks s (suc n) (true ∷ bs) (i ∷ l) (p, h) = (p, collect-Lacks s n bs l h)
collect-Lacks s (suc n) (false ∷ bs) (i ∷ l) (p, h) = collect-Lacks s (suc n) bs l h

pub bound_explain_history-Lacks :
    (s : String) (l : List HistoryItem) → Lacks s l → Lacks s (bound_explain_history l)
unfolding bound_explain_history
bound_explain_history-Lacks s l h = elim (Bool-cases (leb (length l) max_explain_items)) [
  | inl short ↦ rw short h
  | inr long ↦ rw long (collect-Lacks s max_explain_items _ l h)
]

pub map_explain_status-same : (s t : String) → map_explain_status s ≡ some t → s ≡ t
unfolding map_explain_status
map_explain_status-same s t h = ground arith

keep_known-Lacks :
    (s t : String) (at : Option String) (l : List HistoryItem)
    → (t == s) ≡ false
    → Lacks s l
    → (o : Option String) → map_explain_status t ≡ o
    → Lacks s (keep_known o at l)
unfolding keep_known
keep_known-Lacks s t at l p h none e = h
keep_known-Lacks s t at l p h (some u) e =
    (subst (λ v. (v == s) ≡ false) (map_explain_status-same t u e) p, h)

pub explain_history-Lacks :
    (s : String) (l : List (String × Option String))
    → status_history_contains l s ≡ false
    → Lacks s (explain_history l)
unfolding explain_history status_history_contains
explain_history-Lacks s [] h = tt
explain_history-Lacks s ((t, at) ∷ l) h =
    keep_known-Lacks s t at (explain_history l) (ground arith)
      (explain_history-Lacks s l (ground arith)) (map_explain_status t) refl

-- The rows of a history without the status.
pub rows-lack :
    (format : ℤ → String) (s : String) (rows : List HistoryRow)
    → status_history_contains (history_pairs format rows) s ≡ false
    → All (λ r. (r.status == s) ≡ false) rows
unfolding history_pairs status_history_contains
rows-lack format s [] h = tt
rows-lack format s (r ∷ rs) h = (ground arith, rows-lack format s rs (ground arith))

-- No record of a dead letter, and no such entry.
pub entered-none :
    (detail : Option DlqDetail) (b : Bool)
    → (is_some detail || b) ≡ false
    → (detail ≡ none) × (b ≡ false)
entered-none none b h = (refl, h)
entered-none (some d) b h = cc

pub redrives-zero :
    (pairs : List (String × Option String))
    → (status_history_contains pairs "REDRIVEN" ≡ true → is_some {A = DlqDetail} none ≡ true)
    → redrives pairs none ≡ 0
unfolding redrives was_redriven
redrives-zero pairs h = elim (Bool-cases (status_history_contains pairs "REDRIVEN")) [
  | inl there ↦ let bad : false ≡ true = h there in cc
  | inr absent ↦ ground (arith, absent, (status_history_contains_iff pairs "REDRIVEN").1)
]

head-nonempty : (l : List HistoryItem) (h : HistoryItem) → head_item l ≡ some h → 0 < length l
head-nonempty [] h e = cc
head-nonempty (i ∷ l) h e = omega arith

pub bounded_history-nonempty :
    (l : List HistoryItem) → 0 < length l → 0 < length (bound_explain_history l)
bounded_history-nonempty [] h = absurd (omega arith)
bounded_history-nonempty (i ∷ l) h =
    head-nonempty (bound_explain_history (i ∷ l)) i (bound_explain_history-bounds i l).1
