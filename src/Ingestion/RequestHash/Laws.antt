-- ===== src/Ingestion/RequestHash/Laws.antt =====
-- Idempotency of requests whose payloads are written in different ways.
use eventrail_ingestion.Prelude.{
  Bool, String, ap, false, if◌then◌else◌, some, trim_space, ◌==◌, ◌∙◌, ◌≡◌,
}
use eventrail_ingestion.Errors.{new}
use eventrail_ingestion.Ingestion.{Answers, EventInput, PersistResult, Store, ok, persist_event}
use eventrail_ingestion.Ingestion.Idempotency.{all_well, persist_event_twice}
use eventrail_ingestion.Ingestion.RequestHash.{
  Codec, compute_request_hash, end_of_input, hash_bytes, hash_decoded, hash_option, refused,
  request_hash, value,
}

module _ {V : Type 0} (codec : Codec V) where
  -- The payload consists of exactly this value.
  abbrev pub IsValue : String → V → Type 0
  IsValue payload v =
      ((trim_space payload == "") ≡ false) × (codec.decode payload ≡ (value v, end_of_input))

  -- The bytes that a request is hashed from.
  abbrev pub EncodesTo : EventInput → V → String → Type 0
  EncodesTo req v bytes =
      codec.marshal (record { event_type = req.event_type; source = req.source; payload = v })
      ≡ some bytes

  request_hash-value :
      (req : EventInput) (v : V) (bytes : String)
      → IsValue req.payload v
      → EncodesTo req v bytes
      → request_hash codec req ≡ some (codec.sha256_hex bytes)
  unfolding request_hash compute_request_hash hash_decoded hash_bytes
  request_hash-value req v bytes (given, decodes) encodes =
      ap
        (λ (b : Bool). hash_option codec (
          if b
          then refused (new "payload must contain exactly one JSON value")
          else hash_decoded codec req (codec.decode req.payload)))
        given
      ∙ ap (λ d. hash_option codec (hash_decoded codec req d)) decodes
      ∙ ap (λ o. hash_option codec (hash_bytes codec o)) encodes

  -- A request that repeats a key, with another text for the same JSON value (white space, or the order
  -- of the keys of an object), and of the same type and source, is a repetition: if no statement
  -- fails, it gives the id of the first request's event, creates nothing, and changes no table.
  pub persist_event-same_value :
      (db : Answers) (req again : EventInput) (key bytes : String) (v : V) (before s : Store)
      (r : PersistResult)
      → IsValue req.payload v
      → IsValue again.payload v
      → again.event_type ≡ req.event_type
      → again.source ≡ req.source
      → EncodesTo req v bytes
      → (trim_space key == "") ≡ false
      → persist_event (request_hash codec) db req key before ≡ ok r s
      → persist_event (request_hash codec) all_well again key s
        ≡ ok (record { event_id = r.event_id; created = false }) s
  persist_event-same_value db req again key bytes v before s r valued valued' kind source encodes
        keyed h =
      let encodes' : EncodesTo again v bytes = rw (kind, source) encodes in
      persist_event_twice (request_hash codec) db req again key (codec.sha256_hex bytes) before s r
        (request_hash-value req v bytes valued encodes)
        (request_hash-value again v bytes valued' encodes') source keyed h
