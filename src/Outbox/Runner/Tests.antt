-- ===== src/Outbox/Runner/Tests.antt =====
-- A loop that publishes once, idles once, and then finds its context done.
use eventrail_ingestion.Prelude.{[], count_if, eqb, false, leb, pos, refl, true, ℕ, ◌∷◌, ◌≡◌, ◌≤◌}
use eventrail_ingestion.Errors.{failed, is_error, nil}
use eventrail_ingestion.Outbox.Runner.{
  Round, after, after_call, is_call, new_runner, publish_call, report_error, run, run-returns,
  wait_for_context, waited,
}

abbrev rounds : ℕ → Round
rounds n = record {
  done_before = leb 2 n;
  result = record { found = eqb n 0; is_published = true; outbox_id = n; event_id = "e" };
  error = nil;
  done_after = false;
  timer_fires = true;
}

run-returns_example : ((run 3 rounds 0).1 ≡ true) × (count_if is_call (run 3 rounds 0).0 ≤ 2)
run-returns_example = run-returns 2 rounds 0 refl

run_acts : run 3 rounds 0 ≡ (publish_call ∷ publish_call ∷ waited ∷ [], true)
unfolding run after_call after wait_for_context is_error report_error
run_acts = refl

new_runner_runs : (new_runner true (pos 1) ≡ nil) × (failed (new_runner true (pos 0)) ≡ true)
unfolding new_runner
new_runner_runs = (refl, refl)
