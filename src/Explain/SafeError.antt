-- ===== src/Explain/SafeError.antt =====
-- internal/httpapi/event_explain.go, safeExplainError: what of the error of an attempt may leave the
-- program. A Go text is bytes: the bound is one of bytes, by the widths of UTF-8.
pub mod Laws
mod Tests
use eventrail_ingestion.Prelude.{
  Bool, Char, Option, String, code, contains, if◌then◌else◌, leb, ltb, none, some, suc, trim_space,
  zero, ℕ, ◌+◌, ◌-◌, ◌==◌, ◌||◌,
}

-- The bytes that UTF-8 takes for a code point.
pub width : Char → ℕ
width c =
    if ltb (code c) 0x80
    then 1
    else if ltb (code c) 0x800
    then 2
    else if ltb (code c) 0x10000
    then 3
    else 4

-- `len(s)`.
pub byte_length : String → ℕ
byte_length String.[] = 0
byte_length (String.◌∷◌ c s) = width c + byte_length s

-- The bytes of a cut code point: encoding/json prints each of them as U+FFFD.
pub cut_bytes : ℕ → String
cut_bytes zero = ""
cut_bytes (suc n) = String.◌∷◌ "�" (cut_bytes n)

-- `s[:n]`, as encoding/json prints it.
pub first_bytes : ℕ → String → String
first_bytes n String.[] = ""
first_bytes n (String.◌∷◌ c s) =
    let rest = first_bytes (n - width c) s in
    if leb (width c) n then String.◌∷◌ c rest else cut_bytes n

abbrev pub max_explain_error_length : ℕ
max_explain_error_length = 1000

pub names_field : String → Bool
names_field lower =
    contains "invoice_id" lower || contains "amount" lower || contains "currency" lower

pub names_address : String → Bool
names_address lower = contains "http://" lower || contains "https://" lower

pub names_credential : String → Bool
names_credential lower =
    contains "authorization" lower || contains "token" lower || contains "secret" lower

pub names_internals : String → Bool
names_internals lower =
    contains "stack trace" lower
    || contains "panic" lower
    || contains "database" lower
    || contains "dsn" lower

abbrev pub field_text : String
field_text = "Required destination field was missing"

abbrev pub address_text : String
address_text = "Destination delivery failed before a safe HTTP response was recorded"

abbrev pub credential_text : String
credential_text = "Destination rejected the request with an authentication or authorization error"

-- The switch: the text that stands for the message, or none.
pub redact : String → String → Option String
redact lower message =
    if names_field lower
    then some field_text
    else if names_address lower
    then some address_text
    else if names_credential lower
    then some credential_text
    else if names_internals lower
    then none
    else some message

bounded : String → String
bounded message =
    if ltb max_explain_error_length (byte_length message)
    then trim_space (first_bytes max_explain_error_length message)
    else message

pub nonempty : Option String → Option String
nonempty none = none
nonempty (some message) = let short = bounded message in if short == "" then none else some short

-- `safeExplainError`, of the error of the attempt. `to_lower` is `strings.ToLower`.
unfoldable pub safe_explain_error : (String → String) → Option String → Option String
safe_explain_error to_lower none = none
safe_explain_error to_lower (some given) =
    let message = trim_space given in
    if message == "" then none else nonempty (redact (to_lower message) message)
