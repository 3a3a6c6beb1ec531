-- ===== src/Outbox/Publisher/Tests.antt =====
-- The publisher on two rows.
use eventrail_ingestion.Prelude.{
  Bool, [], arith, eqb, false, min, none, pos, refl, some, true, ℕ, ◌*◌, ◌+◌, ◌^◌, ◌∷◌, ◌≡◌,
}
use eventrail_ingestion.Errors.{Error, failed, is_error, new, nil, outbox_publish_failed}
use eventrail_ingestion.Outbox.{
  OutboxRow, Tables, comes_before, earlier, is_claimable, is_due, mark_published, next_pending,
  pending, rows_affected, update_row,
}
use eventrail_ingestion.Outbox.Backoff.{outbox_backoff, outbox_backoff-eq-min}
use eventrail_ingestion.Outbox.Order.{IsFirst, next_pending-IsFirst}
use eventrail_ingestion.Outbox.Publisher.{
  Database, PublishConfig, after_success, in_transaction, outcome, publish_claimed, publish_next,
  validate,
}
use eventrail_ingestion.Outbox.Publisher.Laws.{
  IsWhole, publish_next-AbortsCleanly, publish_next-ReportsTruly, with_published,
}

abbrev row : ℕ → ℕ → OutboxRow
row i due = record {
  id = i;
  event_id = "e";
  status = pending;
  attempt_count = 0;
  next_attempt_at = due;
  published_at = none;
  last_error = none;
  created_at = i;
}

abbrev two : Tables
two = record { outbox = row 1 7 ∷ row 2 5 ∷ []; history = [] }

abbrev sound : Database
sound = record {
  begin_error = nil;
  claim_error = nil;
  update_error = nil;
  history_error = nil;
  commit_error = nil;
  commit_applied = false;
  rollback_error = nil;
  locked = λ i. false;
}

abbrev lost_commit : Database
lost_commit = record sound { commit_error = new "connection reset"; commit_applied = true }

abbrev delays : PublishConfig
delays = record { base_backoff = pos 500000000; max_backoff = pos 30000000000 }

published_second : (publish_next sound delays (λ r. nil) 9 two).result.is_published ≡ true
unfolding publish_next validate next_pending is_due is_claimable earlier comes_before
    publish_claimed after_success in_transaction outcome update_row rows_affected mark_published
published_second = refl

publish_next-ReportsTruly_example :
    (r : OutboxRow) × IsFirst sound.locked 9 two.outbox r
    × (◌≡◌ {A = Error} nil nil)
    × ((publish_next sound delays (λ s. nil) 9 two).error ≡ nil)
    × ((publish_next sound delays (λ s. nil) 9 two).tables ≡ with_published 9 r two)
    × ((publish_next sound delays (λ s. nil) 9 two).handed_over ≡ r ∷ [])
publish_next-ReportsTruly_example =
    publish_next-ReportsTruly sound delays (λ s. nil) 9 two published_second

failed_commit : failed (publish_next lost_commit delays (λ r. nil) 9 two).error ≡ true
unfolding publish_next validate next_pending is_due is_claimable earlier comes_before
    publish_claimed after_success in_transaction outcome update_row rows_affected mark_published
failed_commit = refl

other_error :
    is_error (publish_next lost_commit delays (λ r. nil) 9 two).error outbox_publish_failed ≡ false
unfolding publish_next validate next_pending is_due is_claimable earlier comes_before
    publish_claimed after_success in_transaction outcome update_row rows_affected mark_published
    is_error
other_error = refl

publish_next-AbortsCleanly_example :
    IsWhole lost_commit 9 two (publish_next lost_commit delays (λ r. nil) 9 two).tables
publish_next-AbortsCleanly_example =
    publish_next-AbortsCleanly lost_commit delays (λ r. nil) 9 two failed_commit other_error

-- The first of two rows is locked.
abbrev first_locked : ℕ → Bool
first_locked i = eqb i 2

second_claimed : next_pending first_locked 9 two.outbox ≡ some (row 1 7)
unfolding next_pending is_due is_claimable earlier comes_before
second_claimed = refl

next_pending-IsFirst_example : IsFirst first_locked 9 two.outbox (row 1 7)
next_pending-IsFirst_example =
    next_pending-IsFirst first_locked 9 two.outbox (row 1 7) second_claimed

outbox_backoff-eq-min_example :
    outbox_backoff (pos 500) (pos 30000) (3 + 1) ≡ pos (min (500 * 2 ^ 3) 30000)
outbox_backoff-eq-min_example = outbox_backoff-eq-min 500 30000 3 (omega arith) (omega arith)
