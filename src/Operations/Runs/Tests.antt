-- ===== src/Operations/Runs/Tests.antt =====
-- A redrive whose commit fails, and a redrive that succeeds.
use eventrail_ingestion.Prelude.{List, [], refl, ◌∷◌, ◌≡◌}
use eventrail_ingestion.Errors.{new, wrap}
use eventrail_ingestion.Operations.Invariant.{IsValid}
use eventrail_ingestion.Operations.Redrive.Tests.{redrive_fails}
use eventrail_ingestion.Operations.Runs.{
  Operation, apply, apply_all, apply_all-IsValid, redrive, refused,
}
use eventrail_ingestion.Operations.Samples.{
  accepting, before_redrive, broken_commit, buried_tables-IsValid, healthy, lost_commit,
}
use eventrail_ingestion.Operations.Session.{Database}

abbrev retry_twice : List (Database × Operation)
retry_twice = (broken_commit, redrive accepting "e1") ∷ (healthy, redrive accepting "e1") ∷ []

apply_all-IsValid_example : IsValid (apply_all retry_twice before_redrive).tables
apply_all-IsValid_example = apply_all-IsValid retry_twice before_redrive buried_tables-IsValid

commit_fails :
    apply broken_commit (redrive accepting "e1") before_redrive
    ≡ refused (wrap "commit redrive event e1: " (new "connection lost") "") lost_commit
unfolding apply
commit_fails = rw redrive_fails refl
