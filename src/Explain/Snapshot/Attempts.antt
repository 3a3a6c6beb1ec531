-- ===== src/Explain/Snapshot/Attempts.antt =====
-- The attempts of a snapshot: their numbers, their errors, and how many retries there were.
use eventrail_ingestion.Prelude.{
  All, Bool-cases, List, Option, String, [], arith, char_count, drop, false, inl, inr, leb, length,
  length-drop, none, pos, refl, some, suc, zero, ℕ, ℤ, ◌-◌, ◌<◌, ◌==◌, ◌∷◌, ◌≡◌, ◌≤ℤ◌, ◌≤◌,
}
use eventrail_ingestion.Explain.{
  RetryDetails, bound_explain_attempts, max_explain_items, raise_both, raise_to,
  retry_count_from_history,
}
use eventrail_ingestion.Explain.SafeError.{max_explain_error_length}
use eventrail_ingestion.Explain.SafeError.Laws.{safe_explain_error-bounds}
use eventrail_ingestion.Explain.Snapshot.{AttemptItem, attempt_items}
use eventrail_ingestion.Operations.{AttemptRow}

-- The attempts have the numbers after `n`, one after the other.
pub IsNumbered : ℕ → List AttemptItem → Type 0
IsNumbered n [] = Unit
IsNumbered n (a ∷ l) = (a.attempt_number ≡ suc n) × IsNumbered (suc n) l

-- Every error that is told is a text of 1 to 1000 code points.
abbrev pub HasBoundedError : AttemptItem → Type 0
HasBoundedError a =
    (m : String)
    → a.error ≡ some m
    → (char_count m ≤ max_explain_error_length) × ((m == "") ≡ false)

module _ (to_lower : String → String) (format : ℤ → String) where
  pub length-attempt_items :
      (n : ℕ) (l : List AttemptRow) → length (attempt_items to_lower format n l) ≡ length l
  unfolding attempt_items
  length-attempt_items n [] = refl
  length-attempt_items n (a ∷ l) = omega (arith, length-attempt_items (suc n) l)

  pub attempt_items-IsNumbered :
      (n : ℕ) (l : List AttemptRow) → IsNumbered n (attempt_items to_lower format n l)
  unfolding attempt_items IsNumbered
  attempt_items-IsNumbered n [] = tt
  attempt_items-IsNumbered n (a ∷ l) = (refl, attempt_items-IsNumbered (suc n) l)

  pub attempt_items-errors :
      (n : ℕ) (l : List AttemptRow) → All HasBoundedError (attempt_items to_lower format n l)
  unfolding attempt_items
  attempt_items-errors n [] = tt
  attempt_items-errors n (a ∷ l) =
      (safe_explain_error-bounds to_lower a.error, attempt_items-errors (suc n) l)

IsNumbered-drop :
    (k n : ℕ) (l : List AttemptItem) → IsNumbered n l → (m : ℕ) × IsNumbered m (drop k l)
unfolding IsNumbered
IsNumbered-drop zero n l h = (n, h)
IsNumbered-drop (suc k) n [] h = (n, tt)
IsNumbered-drop (suc k) n (a ∷ l) (e, h) = IsNumbered-drop k (suc n) l h

All-drop : {A : Type 0} (P : A → Type 0) (n : ℕ) (l : List A) → All P l → All P (drop n l)
All-drop P zero l h = h
All-drop P (suc n) [] h = tt
All-drop P (suc n) (a ∷ l) (p, h) = All-drop P n l h

-- The attempts that are kept are numbered and bounded as all of them are.
pub kept_attempts :
    (l : List AttemptItem)
    → IsNumbered 0 l
    → All HasBoundedError l
    → ((n : ℕ) × IsNumbered n (bound_explain_attempts l))
      × All HasBoundedError (bound_explain_attempts l)
unfolding bound_explain_attempts
kept_attempts l h e = elim (Bool-cases (leb (length l) max_explain_items)) [
  | inl short ↦ rw short ((0, h), e)
  | inr long ↦ rw long (
    IsNumbered-drop (length l - max_explain_items) 0 l h,
    All-drop HasBoundedError (length l - max_explain_items) l e,
  )
]

raised-pos : (o : Option ℤ) (m : ℤ) → pos 0 ≤ℤ m → pos 0 ≤ℤ raise_to o m
unfolding raise_to
raised-pos none m h = h
raised-pos (some n) m h = ground arith

raise_both-pos : (d : RetryDetails) (m : ℤ) → pos 0 ≤ℤ m → pos 0 ≤ℤ raise_both d m
unfolding raise_both
raise_both-pos none m h = h
raise_both-pos (some (a, b)) m h = raised-pos a (raise_to b m) (raised-pos b m h)

-- The retry count is not negative, whatever the details say.
pub retry_count_from_history-pos :
    (l : List (String × RetryDetails)) → pos 0 ≤ℤ retry_count_from_history l
unfolding retry_count_from_history
retry_count_from_history-pos l = ground arith

pub bounded_attempts-nonempty :
    (l : List AttemptItem) → 0 < length l → 0 < length (bound_explain_attempts l)
unfolding bound_explain_attempts
bounded_attempts-nonempty l h = elim (Bool-cases (leb (length l) max_explain_items)) [
  | inl short ↦ rw short h
  | inr long ↦ rw long (ground (arith, length-drop (length l - max_explain_items) l))
]
