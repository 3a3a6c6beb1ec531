-- ===== src/Errors/Laws.antt =====
-- `errors.Is` and `errors.As` on wrapped errors.
use eventrail_ingestion.Prelude.{String, false, refl, ◌≡◌}
use eventrail_ingestion.Errors.{
  Error, Sentinel, as_failure, failed, failure, is_error, new, nil, sentinel, wrap,
}

pub as_failure-wrap :
    (before after : String) (e : Error) → as_failure (wrap before e after) ≡ as_failure e
unfolding as_failure
as_failure-wrap before after e = refl

pub is_error-wrap :
    (before after : String) (e : Error) (s : Sentinel)
    → is_error (wrap before e after) s ≡ is_error e s
unfolding is_error
is_error-wrap before after e s = refl

pub nil_of_not_failed : (e : Error) → failed e ≡ false → e ≡ nil
nil_of_not_failed nil h = refl
nil_of_not_failed (new m) h = cc
nil_of_not_failed (sentinel s) h = cc
nil_of_not_failed (wrap b e a) h = cc
nil_of_not_failed (failure k s c) h = cc
