-- ===== src/Worker/Handling/Republish.antt =====
-- What `republishRetryMember` does with a member of the retry set, and the way of a message from its
-- schedule back to the stream.
use eventrail_ingestion.Prelude.{
  List, Option, String, [], ap, inl, inr, none, refl, some, subst, sym, true, ℕ, ◌∷◌, ◌≡◌, ◌⊎◌,
}
use eventrail_ingestion.Errors.{Error, failed, nil}
use eventrail_ingestion.Worker.{Call, Config, Values, xadd, zrem}
use eventrail_ingestion.Worker.Effects.{Env, Event, World}
use eventrail_ingestion.Worker.Handling.{republish_retry_member, republish_values, unless_failed}
use eventrail_ingestion.Worker.Handling.Laws.{after_unless}

-- The calls for a member, from what it decodes to: none, where it does not decode; a publication that
-- failed; or a publication that succeeded, and after it one removal.
abbrev pub Republished : Config → String → Option Values → List Event → Type 0
Republished config member none trace = trace ≡ []
Republished config member (some values) trace =
    ((e : Error) × (failed e ≡ true)
      × (trace ≡ record { call = xadd config.stream values; error = e } ∷ []))
    ⊎ ((e : Error) × (trace
          ≡ record { call = zrem config.retry_zset member; error = e }
            ∷ record { call = xadd config.stream values; error = nil }
            ∷ []))

abbrev pub at_first : World
at_first = record { values = []; trace = [] }

module _ (env : Env) (removed : List Event → ℕ) (config : Config) (member : String) where
  republish_values-Republished :
      (o : Option Values)
      → Republished config member o (republish_values env removed config member o at_first).1.trace
  unfolding republish_values
  republish_values-Republished none = refl
  republish_values-Republished (some values) =
      let P : World → Type 0 = λ w. Republished config member (some values) w.trace in
      let added : Event = record {
        call = xadd config.stream values;
        error = env.answer [] (xadd config.stream values);
      } in
      let dropped : Event = record {
        call = zrem config.retry_zset member;
        error = env.answer (added ∷ []) (zrem config.retry_zset member);
      } in
      after_unless P _ added.error _ _
        (λ good.
          let both : P (record { values = []; trace = dropped ∷ added ∷ [] }) = inr (
            dropped.error,
            ap (λ x. dropped ∷ record { call = xadd config.stream values; error = x } ∷ []) good,
          ) in
          after_unless P _ dropped.error _ _ (λ fine. both) (λ bad. both))
        (λ bad. inl (added.error, bad, refl))

  -- Where Redis takes both calls, a member that decodes is published and removed.
  republish_values-trace :
      (values : Values)
      → ((t : List Event) (c : Call) → env.answer t c ≡ nil)
      → (republish_values env removed config member (some values) at_first).1.trace
        ≡ record { call = zrem config.retry_zset member; error = nil }
          ∷ record { call = xadd config.stream values; error = nil }
          ∷ []
  unfolding republish_values unless_failed
  republish_values-trace values accepts = rw (accepts [] (xadd config.stream values)) (
      rw
        (accepts (record { call = xadd config.stream values; error = nil } ∷ [])
          (zrem config.retry_zset member))
        refl)

  module _ (unmarshal : String → Option Values) where
    pub republish_retry_member-Republished :
        Republished config member
          (unmarshal member)
          (republish_retry_member env unmarshal removed config member at_first).1.trace
    unfolding republish_retry_member
    republish_retry_member-Republished = republish_values-Republished (unmarshal member)

    pub republish_retry_member-trace :
        (values : Values)
        → unmarshal member ≡ some values
        → ((t : List Event) (c : Call) → env.answer t c ≡ nil)
        → (republish_retry_member env unmarshal removed config member at_first).1.trace
          ≡ record { call = zrem config.retry_zset member; error = nil }
            ∷ record { call = xadd config.stream values; error = nil }
            ∷ []
    unfolding republish_retry_member
    republish_retry_member-trace values decodes accepts =
        subst
          (λ o.
            (republish_values env removed config member o at_first).1.trace
            ≡ record { call = zrem config.retry_zset member; error = nil }
              ∷ record { call = xadd config.stream values; error = nil }
              ∷ [])
          (sym decodes) (republish_values-trace values accepts)
