-- ===== src/Worker/Loop/Order.antt =====
-- The order in which the stream worker's loop handles the messages that Redis gives it.
use eventrail_ingestion.Prelude.{
  Bool, List, String, [], ap, append-nil, append_assoc, if_cases, map, refl, suc, sym, zero, ℕ,
  ◌&&◌, ◌++◌, ◌+◌, ◌∙◌, ◌∷◌, ◌≡◌,
}
use eventrail_ingestion.Errors.{failed}
use eventrail_ingestion.Worker.{Config}
use eventrail_ingestion.Worker.Effects.{Env, now}
use eventrail_ingestion.Worker.Loop.{
  Handled, Message, Progress, RedisReply, Round, Status, after_claim, after_read, all_messages,
  go_on, handle_one, panicked, process_each, reclaim_pending_messages, redis_error, redis_nil,
  replied, returned, run_round, run_stream_worker, running,
}

-- The ids of messages, the last one first, before those of `past`.
abbrev reversed : List Message → List String → List String
reversed [] past = past
reversed (m ∷ ms) past = reversed ms (m.id ∷ past)

abbrev pub ids : List Handled → List String
ids = map (λ h. h.id)

reversed-append :
    (a b : List Message) (past : List String)
    → reversed (a ++ b) past ≡ reversed b (reversed a past)
reversed-append [] b past = refl
reversed-append (m ∷ a) b past = reversed-append a b (m.id ∷ past)

-- Of the messages `ms` a first part was handled, each once and in order, and all of them if the loop
-- goes on.
abbrev pub HandlesInOrder : List Message → List Handled → Progress → Type 0
HandlesInOrder ms past p =
    (handled : List Message) × (left : List Message) × (ms ≡ handled ++ left)
    × (ids p.1 ≡ reversed handled (ids past))
    × (p.0 ≡ running → left ≡ [])

abbrev messages_read : RedisReply (List (List Message)) → List Message
messages_read (replied streams) = all_messages streams
messages_read _ = []

-- The messages that Redis offers in a round, and in so many rounds.
abbrev pub offered : Round → List Message
offered r = (reclaim_pending_messages r.claimed).0 ++ messages_read r.read

abbrev pub all_offered : ℕ → (ℕ → Round) → ℕ → List Message
all_offered zero rounds i = []
all_offered (suc fuel) rounds i = offered (rounds i) ++ all_offered fuel rounds (i + 1)

none_handled :
    (ms : List Message) (past : List Handled) (s : Status)
    → (s ≡ running → ms ≡ [])
    → HandlesInOrder ms past (s, past)
none_handled ms past s h = ([], ms, refl, refl, h)

go_on-HandlesInOrder :
    (ms ms' : List Message) (past : List Handled) (p : Progress) (rest : List Handled → Progress)
    → HandlesInOrder ms past p
    → ((past' : List Handled) → HandlesInOrder ms' past' (rest past'))
    → HandlesInOrder (ms ++ ms') past (go_on p rest)
go_on-HandlesInOrder ms ms' past (running, now) rest (handled, left, e, order, whole) later =
    let (handled', left', e', order', whole') = later now in
    (
      handled ++ handled',
      left',
      rw (e, whole refl, e') (simp (append-nil, append_assoc)),
      order' ∙ ap (reversed handled') order ∙ sym (reversed-append handled handled' (ids past)),
      whole',
    )
go_on-HandlesInOrder ms ms' past (returned, now) rest (handled, left, e, order, whole) later =
    (handled, left ++ ms', rw e (simp append_assoc), order, (λ h. cc h))
go_on-HandlesInOrder ms ms' past (panicked, now) rest (handled, left, e, order, whole) later =
    (handled, left ++ ms', rw e (simp append_assoc), order, (λ h. cc h))

module _ (env : Env) (config : Config) where
  handle_one-HandlesInOrder :
      (m : Message) (past : List Handled)
      → HandlesInOrder (m ∷ []) past (handle_one env config m past)
  unfolding handle_one
  handle_one-HandlesInOrder m past = (m ∷ [], [], refl, refl, (λ h. refl))

  process_each-HandlesInOrder :
      (is_done : ℕ → Bool) (k : ℕ) (ms : List Message) (past : List Handled)
      → HandlesInOrder ms past (process_each env config is_done k ms past)
  unfolding process_each
  process_each-HandlesInOrder is_done k [] past = none_handled [] past running (λ h. refl)
  process_each-HandlesInOrder is_done k (m ∷ ms) past =
      if_cases (HandlesInOrder (m ∷ ms) past) (is_done k) _ _
        (λ stop. none_handled (m ∷ ms) past returned (λ h. cc h))
        (λ go.
          go_on-HandlesInOrder (m ∷ []) ms past (handle_one env config m past)
            (process_each env config is_done (suc k) ms) (handle_one-HandlesInOrder m past)
            (λ past'. process_each-HandlesInOrder is_done (suc k) ms past'))

  after_read-HandlesInOrder :
      (r : Round) (reply : RedisReply (List (List Message))) (past : List Handled)
      → HandlesInOrder (messages_read reply) past (after_read env config r reply past)
  unfolding after_read
  after_read-HandlesInOrder r (replied streams) past =
      process_each-HandlesInOrder r.done_at_read 0 (all_messages streams) past
  after_read-HandlesInOrder r redis_nil past = none_handled [] past _ (λ h. refl)
  after_read-HandlesInOrder r (redis_error streams e) past = none_handled [] past _ (λ h. refl)

  run_round-HandlesInOrder :
      (r : Round) (past : List Handled)
      → HandlesInOrder (offered r) past (run_round env config r past)
  unfolding run_round after_claim
  run_round-HandlesInOrder r past =
      let (messages, e) = reclaim_pending_messages r.claimed in
      if_cases (HandlesInOrder (offered r) past) r.done_before _ _
        (λ stop. none_handled (offered r) past returned (λ h. cc h))
        (λ go.
          if_cases (HandlesInOrder (offered r) past) (failed e && r.done_after_claim) _ _
            (λ stop. none_handled (offered r) past returned (λ h. cc h))
            (λ on.
              go_on-HandlesInOrder messages (messages_read r.read) past
                (process_each env config r.done_at_claimed 0 messages past)
                (after_read env config r r.read)
                (process_each-HandlesInOrder r.done_at_claimed 0 messages past)
                (after_read-HandlesInOrder r r.read)))

  -- The loop handles the messages that it reclaims and reads in their order, each once: a first part
  -- of them where it stops, and all of them while it goes on.
  pub run_stream_worker-HandlesInOrder :
      (fuel : ℕ) (rounds : ℕ → Round) (i : ℕ) (past : List Handled)
      → HandlesInOrder
          (all_offered fuel rounds i)
          past
          (run_stream_worker env config fuel rounds i past)
  unfolding run_stream_worker
  run_stream_worker-HandlesInOrder zero rounds i past = none_handled [] past running (λ h. refl)
  run_stream_worker-HandlesInOrder (suc fuel) rounds i past =
      go_on-HandlesInOrder (offered (rounds i)) (all_offered fuel rounds (i + 1)) past
        (run_round env config (rounds i) past) (run_stream_worker env config fuel rounds (i + 1))
        (run_round-HandlesInOrder (rounds i) past)
        (λ past'. run_stream_worker-HandlesInOrder fuel rounds (i + 1) past')
