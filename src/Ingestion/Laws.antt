-- ===== src/Ingestion/Laws.antt =====
-- Atomicity of ingestion.
use eventrail_ingestion.Prelude.{Option, String, false, none, some, subst, true, ◌≡◌}
use eventrail_ingestion.Errors.{Error, failed}
use eventrail_ingestion.Ingestion.{Answers, EventInput, Store, err, has_id, persist_event}
use eventrail_ingestion.Ingestion.Outcomes.{IsFresh, given_key, persist_event_cases, with_event}

module _ (request_hash : EventInput → Option String) (db : Answers) (req : EventInput)
    (key : String) (before : Store) where
  -- Nothing changed; or the commit reported an error although the server had committed, and the
  -- tables have the whole event, with its outbox row and its two lines of history.
  pub data IsWhole : Store → Type 0 where
    unchanged : IsWhole before
    committed_event :
        (hash : String)
        → request_hash req ≡ some hash
        → failed db.commit_error ≡ true
        → db.commit_applied ≡ true
        → has_id db.new_id before.events ≡ false
        → IsWhole (with_event req (given_key key) hash db.new_id before)

  id_is_free :
      (k : Option String) → IsFresh db.new_id req k before → has_id db.new_id before.events ≡ false
  id_is_free none fresh = fresh
  id_is_free (some k) fresh = fresh.0

  -- A call that returns an error, whichever statement failed or for a conflict of keys, has changed no
  -- table; but after a commit that reported an error although the server had committed, the tables
  -- have exactly the whole event more: its row, under a new id, its outbox row and two lines.
  pub persist_event-IsWhole :
      (e : Error) (s : Store) → persist_event request_hash db req key before ≡ err e s → IsWhole s
  persist_event-IsWhole e s =
      persist_event_cases request_hash db req key before (λ p. p ≡ err e s → IsWhole s)
        (λ x h. let same : before ≡ s = cc in subst IsWhole same unchanged)
        (λ hash row a b c d h. cc) (λ k hash a b c h. cc)
        (λ x k hash given hashed fresh lost applied h.
          let same : with_event req k hash db.new_id before ≡ s = cc in
          subst IsWhole same (
            subst (λ o. IsWhole (with_event req o hash db.new_id before)) given
              (committed_event hash hashed lost applied (id_is_free k fresh))))
