-- ===== src/Explain/SafeError/Laws.antt =====
-- What leaves the program of an error: a bounded text, and none of a message that names what it must
-- not.
use eventrail_ingestion.Prelude.{
  Bool, Bool-cases, Char, List, Option, String, [], any, arith, char_count,
  char_count-trim_space-le, contains, false, inl, inr, leb, ltb, none, some, suc, trim_space, true,
  zero, ℕ, ◌-◌, ◌<◌, ◌==◌, ◌∷◌, ◌≡◌, ◌≤◌,
}
use eventrail_ingestion.Explain.SafeError.{
  bounded, byte_length, cut_bytes, first_bytes, max_explain_error_length, names_address,
  names_credential, names_field, names_internals, nonempty, redact, safe_explain_error, width,
}
use eventrail_ingestion.Operations.Samples.{empty}

width-pos : (c : Char) → 0 < width c
unfolding width
width-pos c = ground arith

char_count-le-byte_length : (s : String) → char_count s ≤ byte_length s
unfolding char_count byte_length
char_count-le-byte_length String.[] = omega arith
char_count-le-byte_length (String.◌∷◌ c s) = omega (arith, width-pos c, char_count-le-byte_length s)

char_count-cut_bytes : (n : ℕ) → char_count (cut_bytes n) ≤ n
unfolding char_count cut_bytes
char_count-cut_bytes zero = omega arith
char_count-cut_bytes (suc n) = omega (arith, char_count-cut_bytes n)

char_count-first_bytes : (n : ℕ) (s : String) → char_count (first_bytes n s) ≤ n
unfolding char_count first_bytes
char_count-first_bytes n String.[] = omega arith
char_count-first_bytes n (String.◌∷◌ c s) = elim (Bool-cases (leb (width c) n)) [
  | inl fits ↦ rw fits (ground (arith, width-pos c, fits, char_count-first_bytes (n - width c) s))
  | inr cut ↦ rw cut (char_count-cut_bytes n)
]

char_count-bounded-le : (s : String) → char_count (bounded s) ≤ max_explain_error_length
unfolding bounded
char_count-bounded-le s = elim (Bool-cases (ltb max_explain_error_length (byte_length s))) [
  | inl long ↦ rw long (
      omega (
        arith,
        char_count-trim_space-le (first_bytes max_explain_error_length s),
        char_count-first_bytes max_explain_error_length s,
      ))
  | inr short ↦ rw short (ground (arith, char_count-le-byte_length s))
]

nonempty-bounds :
    (o : Option String) (m : String)
    → nonempty o ≡ some m
    → (char_count m ≤ max_explain_error_length) × ((m == "") ≡ false)
unfolding nonempty
nonempty-bounds none m = λ h. cc
nonempty-bounds (some t) m = elim (Bool-cases (bounded t == "")) [
  | inl empty ↦ rw empty (λ h. cc)
  | inr full ↦
      rw full (λ h. let same : bounded t ≡ m = cc in rw (← same) (char_count-bounded-le t, full))
]

-- The text of an error that is sent is not empty and has at most 1000 code points.
pub safe_explain_error-bounds :
    (to_lower : String → String) (o : Option String) (m : String)
    → safe_explain_error to_lower o ≡ some m
    → (char_count m ≤ max_explain_error_length) × ((m == "") ≡ false)
unfolding safe_explain_error
safe_explain_error-bounds to_lower none m = λ h. cc
safe_explain_error-bounds to_lower (some e) m = elim (Bool-cases (trim_space e == "")) [
  | inl empty ↦ rw empty (λ h. cc)
  | inr full ↦ rw full (nonempty-bounds (redact (to_lower (trim_space e)) (trim_space e)) m)
]

-- The names of fields, the beginnings of addresses, the words of credentials and of the program's
-- internals.
abbrev pub sensitive_words : List String
sensitive_words =
    "invoice_id" ∷ "amount" ∷ "currency" ∷ "http://" ∷ "https://" ∷ "authorization" ∷ "token"
    ∷ "secret" ∷ "stack trace" ∷ "panic" ∷ "database" ∷ "dsn" ∷ []

abbrev pub is_sensitive : String → Bool
is_sensitive lower = any (λ word. contains word lower) sensitive_words

-- Nothing, or one of the three texts of the program's own.
pub data IsFixedText : Option String → Type 0 where
  nothing : IsFixedText none
  about_fields : IsFixedText (some "Required destination field was missing")
  about_address :
      IsFixedText (some "Destination delivery failed before a safe HTTP response was recorded")
  about_credentials :
      IsFixedText
        (some "Destination rejected the request with an authentication or authorization error")

redact-IsFixedText :
    (lower message : String)
    → is_sensitive lower ≡ true
    → IsFixedText (nonempty (redact lower message))
unfolding redact nonempty bounded byte_length width names_field names_address names_credential
    names_internals
redact-IsFixedText lower message h = elim (Bool-cases (names_field lower)) [
  | inl field ↦ rw field about_fields
  | inr no_field ↦ rw no_field (elim (Bool-cases (names_address lower)) [
    | inl address ↦ rw address about_address
    | inr no_address ↦ rw no_address (elim (Bool-cases (names_credential lower)) [
      | inl credential ↦ rw credential about_credentials
      | inr no_credential ↦ rw no_credential (elim (Bool-cases (names_internals lower)) [
        | inl internals ↦ rw internals nothing
        | inr no_internals ↦ absurd (ground arith)
      ])
    ])
  ])
]

-- Of an error that, in lower case, has one of the twelve sensitive words nothing is sent but one of
-- three fixed texts, whatever else it says.
pub safe_explain_error-IsFixedText :
    (to_lower : String → String) (e : String)
    → is_sensitive (to_lower (trim_space e)) ≡ true
    → IsFixedText (safe_explain_error to_lower (some e))
unfolding safe_explain_error
safe_explain_error-IsFixedText to_lower e h = elim (Bool-cases (trim_space e == "")) [
  | inl empty ↦ rw empty nothing
  | inr full ↦ rw full (redact-IsFixedText (to_lower (trim_space e)) (trim_space e) h)
]
