-- ===== src/Ingestion/RequestHash.antt =====
-- internal/ingestion/request_hash.go: the hash of a request, over the value that its payload decodes
-- to. A JSON value as Go holds it, in which the keys of an object have no order, is the type `V`.
pub mod Laws
use eventrail_ingestion.Prelude.{Option, String, if◌then◌else◌, none, some, trim_space, ◌==◌}
use eventrail_ingestion.Errors.{Error, new, wrap}
use eventrail_ingestion.Ingestion.{EventInput}

-- `requestHashInput`.
pub record HashInput (V : Type 0) : Type 0 where
  pub event_type : String
  pub source : String
  pub payload : V

-- What one call of a JSON decoder gives.
pub data Step (V : Type 0) : Type 0 where
  value : V → Step V
  end_of_input : Step V
  malformed : Error → Step V

-- The packages encoding/json, with numbers kept as they are spelled, and crypto/sha256: what the first
-- and the second call of a decoder on a payload give, the encoding of a value, and the digest in
-- hexadecimal digits.
pub record Codec (V : Type 0) : Type 0 where
  pub decode : String → Step V × Step V
  pub marshal : HashInput V → Option String
  pub sha256_hex : String → String

pub data Hashed : Type 0 where
  hash : String → Hashed
  refused : Error → Hashed

module _ {V : Type 0} (codec : Codec V) where
  unfoldable pub hash_bytes : Option String → Hashed
  hash_bytes none = refused (new "marshal request hash input")
  hash_bytes (some bytes) = hash (codec.sha256_hex bytes)

  -- After the first value only the end of the input may follow.
  unfoldable pub hash_decoded : EventInput → Step V × Step V → Hashed
  hash_decoded req (value v, value w) = refused (new "payload must contain exactly one JSON value")
  hash_decoded req (value v, end_of_input) =
      hash_bytes
        (codec.marshal (record { event_type = req.event_type; source = req.source; payload = v }))
  hash_decoded req (value v, malformed e) = refused (wrap "invalid trailing JSON content: " e "")
  hash_decoded req (end_of_input, next) = refused (wrap "invalid payload JSON: " (new "EOF") "")
  hash_decoded req (malformed e, next) = refused (wrap "invalid payload JSON: " e "")

  unfoldable pub compute_request_hash : EventInput → Hashed
  compute_request_hash req =
      if trim_space req.payload == ""
      then refused (new "payload must contain exactly one JSON value")
      else hash_decoded req (codec.decode req.payload)

  abbrev hash_option : Hashed → Option String
  hash_option (hash h) = some h
  hash_option (refused e) = none

  -- The hash as `persist_event` takes it.
  unfoldable pub request_hash : EventInput → Option String
  request_hash req = hash_option (compute_request_hash req)
