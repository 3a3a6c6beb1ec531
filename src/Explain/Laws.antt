-- ===== src/Explain/Laws.antt =====
-- The bounds of the snapshot, and the outcomes of attempts.
use eventrail_ingestion.Prelude.{
  Bool, Bool-cases, List, Option, String, [], arith, false, inl, inr, leb, length, length-drop, ltb,
  none, refl, some, suc, true, zero, ℕ, ◌-◌, ◌<◌, ◌↔◌, ◌∷◌, ◌≡◌, ◌≤◌,
}
use eventrail_ingestion.Explain.{
  HistoryItem, bound_explain_attempts, bound_explain_history, collect, count_status, fill, marked,
  marks, max_explain_items, status_history_contains,
}

length-collect : (n : ℕ) (bs : List Bool) (l : List HistoryItem) → length (collect n bs l) ≤ n
unfolding collect
length-collect zero bs l = omega arith
length-collect (suc n) [] l = omega arith
length-collect (suc n) (b ∷ bs) [] = omega arith
length-collect (suc n) (true ∷ bs) (h ∷ l) = omega (arith, length-collect n bs l)
length-collect (suc n) (false ∷ bs) (h ∷ l) = length-collect (suc n) bs l

-- The bounded history has at most 20 entries.
pub length-bound_explain_history-le :
    (l : List HistoryItem) → length (bound_explain_history l) ≤ max_explain_items
unfolding bound_explain_history
length-bound_explain_history-le l = elim (Bool-cases (leb (length l) max_explain_items)) [
  | inl short ↦ rw short (ground arith)
  | inr long ↦ rw long (length-collect max_explain_items _ l)
]

abbrev pub head_item : List HistoryItem → Option HistoryItem
head_item [] = none
head_item (h ∷ l) = some h

fill-first : (n : ℕ) (bs : List Bool) → (rest : List Bool) × ((fill n (true ∷ bs)).0 ≡ true ∷ rest)
unfolding fill
fill-first n bs = elim (Bool-cases (ltb (fill n bs).1 max_explain_items)) [
  | inl room ↦ ((fill n bs).0, rw room refl)
  | inr full ↦ ((fill n bs).0, rw full refl)
]

-- The bounded history has at most 20 entries and begins with the first entry of the history.
pub bound_explain_history-bounds :
    (h : HistoryItem) (l : List HistoryItem)
    → (length (bound_explain_history (h ∷ l)) ≤ max_explain_items)
      × (head_item (bound_explain_history (h ∷ l)) ≡ some h)
unfolding bound_explain_history marks collect
bound_explain_history-bounds h l = (
  length-bound_explain_history-le (h ∷ l),
  elim (Bool-cases (leb (length (h ∷ l)) max_explain_items)) [
    | inl short ↦ rw short refl
    | inr long ↦
        let (rest, e) = fill-first (marked (marks true (h ∷ l))) (marks false l) in
        rw (long, e, collect) refl
  ],
)

-- The bounded attempts are at most 20, and all of them if there are no more than that.
pub bound_explain_attempts-bounds :
    {A : Type 0} (l : List A)
    → (length (bound_explain_attempts l) ≤ max_explain_items)
      × (length l ≤ max_explain_items → bound_explain_attempts l ≡ l)
unfolding bound_explain_attempts
bound_explain_attempts-bounds l = elim (Bool-cases (leb (length l) max_explain_items)) [
  | inl short ↦ rw short (ground arith, λ h. refl)
  | inr long ↦
      rw long
        (ground (arith, length-drop (length l - max_explain_items) l), λ h. absurd (ground arith))
]

-- A status occurs in the history exactly if it is counted at least once.
pub status_history_contains_iff :
    (l : List (String × Option String)) (s : String)
    → (status_history_contains l s ≡ true) ↔ (0 < count_status l s)
unfolding status_history_contains count_status
status_history_contains_iff [] s = ground arith
status_history_contains_iff ((t, at) ∷ l) s = ground (arith, status_history_contains_iff l s)
