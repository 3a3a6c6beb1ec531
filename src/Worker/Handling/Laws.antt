-- ===== src/Worker/Handling/Laws.antt =====
-- The order of the worker's calls: every run of `processStreamMessage` obeys the automaton of
-- Worker/Protocol.antt, whatever the recorder, Redis and the destination answer.
use eventrail_ingestion.Prelude.{
  Bool-cases, List, Option, String, [], ap, concat, eq_refl, inl, inr, none, refl, some, subst, sym,
  true, ℤ, ◌+ℤ◌, ◌∙◌, ◌∷◌, ◌≡◌, ◌≢◌,
}
use eventrail_ingestion.Delivery.{FailureAction, dead_letter, decide_failure_action, retry}
use eventrail_ingestion.Errors.{Error, failed, failure, new, nil, sentinel, wrap}
use eventrail_ingestion.Outbox.Runner.{run}
use eventrail_ingestion.Worker.{
  Call, Config, DeliveryAttemptRecord, Values, record_dead_lettered, record_delivered,
  record_processing, record_retrying, xack, xadd, zadd,
}
use eventrail_ingestion.Worker.Effects.{Act, Env, Event, World, now, perform, pure, ◌>>=◌}
use eventrail_ingestion.Worker.Handling.{
  acknowledge, acknowledge_delivered, acknowledge_failure, act_on, add_member, bury, conclude,
  handle_delivery_failure, move_to_dlq, process_stream_message, retry_after, schedule_retry,
  unless_failed,
}
use eventrail_ingestion.Worker.Protocol.{
  Phase, acknowledged, advance, broken, moved, phase, processing, recorded, scheduled, step,
  stopped,
}
use eventrail_ingestion.Worker.Webhook.{Delivered, process_message}
use eventrail_ingestion.Worker.Webhook.Laws.{AtMostOneCall, process_message-AtMostOneCall}

-- The rest runs only after a success; after a failure the world stays.
pub after_unless :
    (P : World → Type 0) (context : String) (e : Error) (rest : Act Error) (w : World)
    → (e ≡ nil → P (rest w).1)
    → (failed e ≡ true → P w)
    → P (unless_failed context e rest w).1
unfolding unless_failed
after_unless P context nil rest w good bad = good refl
after_unless P context (new m) rest w good bad = bad refl
after_unless P context (sentinel s) rest w good bad = bad refl
after_unless P context (wrap b e a) rest w good bad = bad refl
after_unless P context (failure k s c) rest w good bad = bad refl

advance-eq-stopped : (e : Error) (p : Phase) → failed e ≡ true → advance e p ≡ stopped
advance-eq-stopped nil p h = cc
advance-eq-stopped (new m) p h = refl
advance-eq-stopped (sentinel s) p h = refl
advance-eq-stopped (wrap b e a) p h = refl
advance-eq-stopped (failure k s c) p h = refl

advance-ne-broken : (e : Error) (p : Phase) → p ≢ broken → advance e p ≢ broken
advance-ne-broken nil p h = h
advance-ne-broken (new m) p h = cc
advance-ne-broken (sentinel s) p h = cc
advance-ne-broken (wrap b e a) p h = cc
advance-ne-broken (failure k s c) p h = cc

bind-eq :
    {A B : Type 0} (m : Act A) (f : A → Act B) (w : World) {a : A} {w' : World}
    → m w ≡ (some a, w')
    → (m >>= f) w ≡ f a w'
bind-eq {A} {B} m f w e =
    ap (λ (r : Option A × World). elim r.0 [ none ↦ (none, r.1) | some b ↦ f b r.1 ]) e

module _ (env : Env) (config : Config) (id : String) where
  abbrev AtPhase : Phase → World → Type 0
  AtPhase p w = phase config id w.trace ≡ p

  IsLegal : World → Type 0
  IsLegal w = phase config id w.trace ≢ broken

  -- A failed call ends the handling; a successful one leads to `q`.
  stopped-IsLegal :
      (e : Error) (q : Phase) (w : World) → AtPhase (advance e q) w → failed e ≡ true → IsLegal w
  unfolding IsLegal
  stopped-IsLegal e q w h bad b = cc (advance-eq-stopped e q bad, h, b)

  entered : (e : Error) (q : Phase) (w : World) → AtPhase (advance e q) w → e ≡ nil → AtPhase q w
  entered e q w h good = h ∙ ap (λ x. advance x q) good

  -- A call that the automaton takes to `q`, and the rest of the handling after a success.
  after_call :
      (c : Call) (q : Phase) (context : String) (e : Error) (rest : Act Error) (t : List Event)
      (values : Values)
      → ((x : Error) → step config id (phase config id t) c x ≡ advance x q)
      → (AtPhase q (record { values = values; trace = record { call = c; error = e } ∷ t })
          → IsLegal
              (rest (record { values = values; trace = record { call = c; error = e } ∷ t })).1)
      → IsLegal
          (unless_failed context e rest
            (record { values = values; trace = record { call = c; error = e } ∷ t })).1
  after_call c q context e rest t values legal later =
      let w' : World = record { values = values; trace = record { call = c; error = e } ∷ t } in
      after_unless IsLegal context e rest w' (λ good. later (entered e q w' (legal e) good))
        (stopped-IsLegal e q w' (legal e))

  acknowledged-IsLegal : (w : World) → AtPhase acknowledged w → IsLegal w
  unfolding IsLegal
  acknowledged-IsLegal w h b = cc (h, b)

  processing-IsLegal : (w : World) → AtPhase processing w → IsLegal w
  unfolding IsLegal
  processing-IsLegal w h b = cc (h, b)

  acknowledge_failure-IsLegal :
      (w : World) → AtPhase recorded w → IsLegal (acknowledge_failure env config id w).1
  unfolding acknowledge_failure acknowledge
  acknowledge_failure-IsLegal w h =
      after_call (xack config.stream config.consumer_group id) acknowledged _ _ (pure nil) w.trace _
        (λ x. rw (h, eq_refl, eq_refl, eq_refl) refl) (acknowledged-IsLegal _)

  acknowledge_delivered-IsLegal :
      (w : World) (attempt : DeliveryAttemptRecord)
      → attempt.stream_id ≡ id
      → AtPhase processing w
      → IsLegal (acknowledge_delivered env config id attempt w).1
  unfolding acknowledge_delivered acknowledge
  acknowledge_delivered-IsLegal w attempt same h =
      after_call (record_delivered attempt) recorded _ _ _ w.trace _
        (λ x. rw (h, same, eq_refl) refl)
        (λ j.
          after_call (xack config.stream config.consumer_group id) acknowledged _ _ (pure nil) _ _
            (λ x. rw (j, eq_refl, eq_refl, eq_refl) refl) (acknowledged-IsLegal _))

  bury-IsLegal :
      (w : World) (attempt : DeliveryAttemptRecord) (cause : Error)
      → attempt.stream_id ≡ id
      → AtPhase processing w
      → IsLegal (bury env config id attempt cause w).1
  unfolding bury move_to_dlq
  bury-IsLegal w attempt cause same h =
      after_call (xadd config.dlq_stream _) moved _ _ _ w.trace _ (λ x. rw (h, eq_refl) refl)
        (λ k.
          after_call (record_dead_lettered _) recorded _ _ _ _ _ (λ x. rw (k, same, eq_refl) refl)
            (acknowledge_failure-IsLegal _))

  -- After the member is in the retry set.
  retry_scheduled-IsLegal :
      (w w' : World) (attempt : DeliveryAttemptRecord) (next_retry delay due at : ℤ)
      (member : Option String)
      → attempt.stream_id ≡ id
      → AtPhase processing w
      → w'.trace ≡ w.trace
      → IsLegal
          ((add_member env config due member >>= λ scheduled_error.
              unless_failed
                (concat ("schedule retry for message " ∷ id ∷ ": " ∷ []))
                scheduled_error
                (perform env (
                    record_retrying (record {
                      attempt = attempt;
                      next_retry = next_retry;
                      scheduled_at = at +ℤ delay;
                    }))
                  >>= λ recorded_error.
                      unless_failed
                        (concat ("record retrying message " ∷ id ∷ ": " ∷ []))
                        recorded_error
                        (acknowledge_failure env config id)))
            w').1
  unfolding add_member
  retry_scheduled-IsLegal w w' attempt next_retry delay due at none same h t =
      after_unless IsLegal _ (new "json: unsupported value") _ w' (λ good. cc)
        (λ _. processing-IsLegal w' (ap (phase config id) t ∙ h))
  retry_scheduled-IsLegal w w' attempt next_retry delay due at (some m) same h t =
      let h' : AtPhase processing w' = ap (phase config id) t ∙ h in
      after_call (zadd config.retry_zset due m) scheduled _ _ _ w'.trace _
        (λ x. rw (h', eq_refl) refl)
        (λ k.
          after_call (record_retrying _) recorded _ _ _ _ _ (λ x. rw (k, same, eq_refl) refl)
            (acknowledge_failure-IsLegal _))

  retry_after-IsLegal :
      (w : World) (attempt : DeliveryAttemptRecord) (next_retry : ℤ) (delay : Option ℤ)
      → attempt.stream_id ≡ id
      → AtPhase processing w
      → IsLegal (retry_after env config id attempt next_retry delay w).1
  unfolding retry_after schedule_retry
  retry_after-IsLegal w attempt next_retry none same h = processing-IsLegal w h
  retry_after-IsLegal w attempt next_retry (some delay) same h =
      retry_scheduled-IsLegal w _ attempt next_retry delay _ _ _ same h refl

  act_on-IsLegal :
      (action : FailureAction) (w : World) (attempt : DeliveryAttemptRecord) (cause : Error) (n : ℤ)
      → attempt.stream_id ≡ id
      → AtPhase processing w
      → IsLegal (act_on action env config id attempt cause n w).1
  unfolding act_on
  act_on-IsLegal retry w attempt cause n same h = retry_after-IsLegal w attempt _ _ same h
  act_on-IsLegal dead_letter w attempt cause n same h = bury-IsLegal w attempt cause same h

  handle_delivery_failure-IsLegal :
      (w : World) (cause : Error) (n attempt_number started completed : ℤ)
      → AtPhase processing w
      → IsLegal (handle_delivery_failure env config id cause n attempt_number started completed w).1
  unfolding handle_delivery_failure
  handle_delivery_failure-IsLegal w cause n attempt_number started completed h =
      act_on-IsLegal (decide_failure_action cause n config.max_retries) w _ cause n refl h

  conclude-IsLegal :
      (w : World) (result : Delivered) (n started completed : ℤ)
      → AtPhase processing w
      → IsLegal (conclude env config id result n started completed w).1
  unfolding conclude
  conclude-IsLegal w result n started completed h = elim (Bool-cases (failed result.error)) [
    | inl bad ↦ rw bad (handle_delivery_failure-IsLegal w result.error n _ _ _ h)
    | inr good ↦ rw good (acknowledge_delivered-IsLegal w _ refl h)
  ]

  -- The delivery ends in the phase in which it began.
  processing_after :
      (w : World) (r : Option Delivered × World)
      → AtMostOneCall env w r
      → AtPhase processing w
      → (d : Delivered) × (w' : World) × (r ≡ (some d, w')) × AtPhase processing w'
  processing_after w r (d, inl same) h = (d, w, same, h)
  processing_after w r (d, inr (q, same)) h = (d, _, same, rw h refl)

  after_delivery : ℤ → ℤ → Delivered → Act Error
  after_delivery n started result = do
    completed ← now env
    conclude env config id result n started completed

  deliver-IsLegal :
      (w : World) (n started : ℤ)
      → AtPhase processing w
      → IsLegal ((process_message env >>= after_delivery n started) w).1
  unfolding after_delivery
  deliver-IsLegal w n started h =
      let (d, w', run, h') = processing_after w _ (process_message-AtMostOneCall env w) h in
      subst IsLegal
        (ap (λ (r : Option Error × World). r.1)
          (sym (bind-eq (process_message env) (after_delivery n started) w run)))
        (conclude-IsLegal w' d n started (env.clock w'.trace) h')

  -- Whatever the recorder, Redis and the destination answer, the calls that the worker makes for a
  -- message obey the automaton: none of them is out of order. So a message is acknowledged only
  -- after its outcome was recorded, and the outcome "retrying" or "dead-lettered" is recorded only
  -- after the retry set or the dead-letter stream took the message; and no call follows one that
  -- failed, but those that handle a failed delivery.
  pub process_stream_message-IsLegal :
      (values : Values)
      → phase config id
          (process_stream_message env config id (record { values = values; trace = [] })).1.trace
        ≢ broken
  unfolding process_stream_message after_delivery IsLegal
  process_stream_message-IsLegal values =
      after_call (record_processing _) processing _ _ _ [] values (λ x. rw eq_refl refl)
        (deliver-IsLegal _ _ _)
