-- ===== src/Explain/SafeError/Tests.antt =====
-- Errors that may leave the program, and one that may not.
use eventrail_ingestion.Prelude.{String, contains, refl, some, trim_space, true, ◌≡◌}
use eventrail_ingestion.Explain.SafeError.{
  bounded, byte_length, credential_text, cut_bytes, first_bytes, names_address, names_credential,
  names_field, names_internals, nonempty, redact, safe_explain_error, width,
}
use eventrail_ingestion.Explain.SafeError.Laws.{
  IsFixedText, is_sensitive, safe_explain_error-IsFixedText,
}

-- `strings.ToLower` of texts in lower case.
abbrev lowered : String → String
lowered s = s

hides_token : safe_explain_error lowered (some " bad token abc ") ≡ some credential_text
unfolding safe_explain_error redact names_field names_address names_credential nonempty bounded
    byte_length width trim_space contains
hides_token = refl

-- "é" takes two bytes: of three bytes the second is cut.
cuts_rune : first_bytes 3 "éé" ≡ "é�"
unfolding first_bytes width cut_bytes
cuts_rune = refl

dsn-is_sensitive : is_sensitive (lowered (trim_space "dsn postgres")) ≡ true
unfolding names_field names_address names_credential names_internals trim_space contains
dsn-is_sensitive = refl

safe_explain_error-IsFixedText_example :
    IsFixedText (safe_explain_error lowered (some "dsn postgres"))
safe_explain_error-IsFixedText_example =
    safe_explain_error-IsFixedText lowered "dsn postgres" dsn-is_sensitive
