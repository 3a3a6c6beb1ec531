-- ===== src/Explain/Tests.antt =====
-- Snapshots of small histories.
use eventrail_ingestion.Prelude.{
  List, String, [], none, pos, refl, some, suc, true, zero, ℕ, ◌<◌, ◌↔◌, ◌∷◌, ◌≡◌,
}
use eventrail_ingestion.Explain.{
  HistoryItem, bound_explain_history, collect, count_retries, count_status, fill, is_marker, marked,
  marks, raise_both, raise_to, retry_count_from_history, status_history_contains,
}
use eventrail_ingestion.Explain.Laws.{status_history_contains_iff}

abbrev item : String → HistoryItem
item s = record { status = s; occurred_at = none }

retry_count_run :
    retry_count_from_history
      (("STORED", none) ∷ ("RETRYING", some (some (pos 0), some (pos 1))) ∷ [])
    ≡ pos 1
unfolding retry_count_from_history count_retries raise_both raise_to
retry_count_run = refl

status_history_contains_iff_example :
    (status_history_contains (("REDRIVEN", none) ∷ []) "REDRIVEN" ≡ true)
    ↔ (0 < count_status (("REDRIVEN", none) ∷ []) "REDRIVEN")
status_history_contains_iff_example =
    status_history_contains_iff (("REDRIVEN", none) ∷ []) "REDRIVEN"

copies : ℕ → HistoryItem → List HistoryItem → List HistoryItem
copies zero i l = l
copies (suc n) i l = i ∷ copies n i l

-- Of a history with 20 markers before the newest transition, that one is left out.
newest_left_out :
    bound_explain_history (copies 20 (item "REDRIVEN") (item "DELIVERED" ∷ []))
    ≡ copies 20 (item "REDRIVEN") []
unfolding bound_explain_history copies marks is_marker marked fill collect
newest_left_out = refl
