-- ===== src/Operations/Session.antt =====
-- One call of the store as a sequence of statements. PostgreSQL is a parameter, which may answer any
-- statement with an error; a transaction that ends in an error leaves the tables as it found them,
-- while what was handed to the stream meanwhile stays handed over. No other session commits between
-- the statements of a call.
pub mod Rules
use eventrail_ingestion.Prelude.{List, Option, String, none, some, ℕ, ℤ, ◌+◌}
use eventrail_ingestion.Errors.{Error, new, nil, no_rows, sentinel, wrap}
use eventrail_ingestion.Operations.{Details, Tables}
use eventrail_ingestion.Worker.{Values}

pub data Result (A : Type 0) : Type 0 where
  ok : A → Result A
  err : Error → Result A

-- What PostgreSQL and the JSON coding answer: to the n-th statement of a session (nil is success),
-- to the cast of a text to `uuid` (the canonical text, or none), `now()`, and to the coding of
-- details; and how times are printed.
pub record Database : Type 0 where
  pub answer : ℕ → Error
  pub uuid : String → Option String
  pub now : ℕ
  pub marshal_error : Details → Error
  pub format_time : ℕ → String
  pub format_nano : ℤ → String

-- The tables, the number of statements so far, and the messages handed to the stream, newest first.
pub record Session : Type 0 where
  pub tables : Tables
  pub statements : ℕ
  pub handed_over : List Values

abbrev pub Tx : Type 0 → Type 0
Tx A = Session → Result A × Session

infixl 5 ◌>>=◌ ◌>>◌
abbrev pub ◌>>=◌ : {A B : Type 0} → Tx A → (A → Tx B) → Tx B
◌>>=◌ m f s = let (r, s') = m s in elim r [ ok a ↦ f a s' | err e ↦ (err e, s') ]

abbrev pub ◌>>◌ : {A B : Type 0} → Tx A → Tx B → Tx B
m >> k = m >>= λ _. k

abbrev pub pure : {A : Type 0} → A → Tx A
pure a s = (ok a, s)

abbrev pub fail : {A : Type 0} → Error → Tx A
fail e s = (err e, s)

abbrev pub get_tables : Tx Tables
get_tables s = (ok s.tables, s)

abbrev pub modify : (Tables → Tables) → Tx (Unit {0})
modify f s = (ok tt, record s { tables = f s.tables })

-- `if err != nil { return fmt.Errorf(…) }`, and other changes of an error.
abbrev pub on_error : {A : Type 0} → (Error → Error) → Tx A → Tx A
on_error f m s = let (r, s') = m s in elim r [ ok a ↦ (ok a, s') | err e ↦ (err (f e), s') ]

abbrev pub within : {A : Type 0} → String → Tx A → Tx A
within context m = on_error (λ e. wrap context e "") m

abbrev pub check : Error → Tx (Unit {0})
check nil s = (ok tt, s)
check e s = (err e, s)

-- One statement is sent: PostgreSQL's own error.
abbrev pub ask : Database → Tx (Unit {0})
ask db s = check (db.answer s.statements) (record s { statements = s.statements + 1 })

abbrev pub valid_uuid : Option String → Tx String
valid_uuid none = fail (new "invalid input syntax for type uuid")
valid_uuid (some u) = pure u

-- `$1::uuid`.
abbrev pub cast : Database → String → Tx String
cast db id = valid_uuid (db.uuid id)

-- `QueryRow(…).Scan(…)`.
abbrev pub one_row : {A : Type 0} → Option A → Tx A
one_row none = fail (sentinel no_rows)
one_row (some a) = pure a

-- `Exec` of a statement on the rows of an event: the cast, the constraints, and the change.
unfoldable pub write :
    Database → String → (String → Tables → Error) → (String → Tables → Tables) → Tx (Unit {0})
write db event_id constraint change = do
  ask db
  id ← cast db event_id
  t ← get_tables
  check (constraint id t)
  modify (change id)

-- `Begin`, the statements, and `Commit`; the deferred `Rollback` after an error.
abbrev pub conclude : {A : Type 0} → Tables → Result A × Session → Result A × Session
conclude before (ok a, s) = (ok a, s)
conclude before (err e, s) = (err e, record s { tables = before })

unfoldable pub transaction : {A : Type 0} → Database → String → String → Tx A → Tx A
transaction db begin_context commit_context m s =
    conclude s.tables
      ((do within begin_context (ask db); a ← m; within commit_context (ask db); pure a) s)

-- `Store.inTransaction`.
unfoldable pub in_transaction : {A : Type 0} → Database → Tx A → Tx A
in_transaction db m =
    transaction db "begin operations transaction: " "commit operations transaction: " m
