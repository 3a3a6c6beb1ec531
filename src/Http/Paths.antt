-- ===== src/Http/Paths.antt =====
-- What the handlers use of Go's `strings` on paths.
use eventrail_ingestion.Prelude.{
  Bool, Char, List, Option, String, [], code, eqb, if◌then◌else◌, none, some, ℕ, ◌&&◌, ◌==◌, ◌∷◌,
}

slash : ℕ
slash = 47

is_slash : Char → Bool
unfolding slash
is_slash c = eqb (code c) slash

-- `strings.TrimLeft(s, "/")`.
trim_left_slash : String → String
trim_left_slash String.[] = ""
trim_left_slash (String.◌∷◌ c s) = if is_slash c then trim_left_slash s else String.◌∷◌ c s

-- `strings.TrimRight(s, "/")`.
unfoldable pub trim_right_slash : String → String
unfolding is_slash
trim_right_slash String.[] = ""
trim_right_slash (String.◌∷◌ c s) =
    let rest = trim_right_slash s in if is_slash c && rest == "" then "" else String.◌∷◌ c rest

-- `strings.Trim(s, "/")`.
unfoldable pub trim_slash : String → String
unfolding trim_left_slash trim_right_slash is_slash
trim_slash s = trim_right_slash (trim_left_slash s)

after_prefix : String → String → Option String
after_prefix String.[] s = some s
after_prefix (String.◌∷◌ p ps) String.[] = none
after_prefix (String.◌∷◌ p ps) (String.◌∷◌ c s) =
    if eqb (code p) (code c) then after_prefix ps s else none

or_all : Option String → String → String
or_all none s = s
or_all (some t) s = t

-- `strings.TrimPrefix(s, prefix)`.
unfoldable pub trim_prefix : String → String → String
unfolding after_prefix or_all
trim_prefix prefix s = or_all (after_prefix prefix s) s

-- `strings.TrimSuffix(s, suffix)`.
unfoldable pub trim_suffix : String → String → String
trim_suffix suffix String.[] = ""
trim_suffix suffix (String.◌∷◌ c s) =
    let rest = trim_suffix suffix s in if String.◌∷◌ c s == suffix then "" else String.◌∷◌ c rest

prepend : Char → List String → List String
prepend c [] = String.◌∷◌ c "" ∷ []
prepend c (part ∷ parts) = String.◌∷◌ c part ∷ parts

-- `strings.Split(s, "/")`.
unfoldable pub split_slash : String → List String
unfolding is_slash prepend
split_slash String.[] = "" ∷ []
split_slash (String.◌∷◌ c s) =
    let parts = split_slash s in if is_slash c then "" ∷ parts else prepend c parts
