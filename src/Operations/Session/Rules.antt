-- ===== src/Operations/Session/Rules.antt =====
-- What a call ensures: a property of the value and the session after a success, and another of the
-- session after an error; and a rule for each step of a call.
use eventrail_ingestion.Prelude.{List, Option, String, none, refl, some, subst, sym, ◌+◌, ◌≡◌}
use eventrail_ingestion.Errors.{Error, failure, new, nil, sentinel, wrap}
use eventrail_ingestion.Operations.{Tables}
use eventrail_ingestion.Operations.Session.{
  Database, Result, Session, Tx, ask, cast, check, conclude, err, get_tables, in_transaction,
  modify, ok, on_error, one_row, pure, transaction, valid_uuid, within, write, ◌>>=◌, ◌>>◌,
}
use eventrail_ingestion.Worker.{Values}

pub data Ensures {A : Type 0} (Q : A → Session → Type 0) (E : Session → Type 0)
    : Result A × Session → Type 0 where
  done : {a : A} {s : Session} → Q a s → Ensures Q E (ok a, s)
  stopped : {e : Error} {s : Session} → E s → Ensures Q E (err e, s)

-- The session after a statement was sent.
abbrev pub asked : Session → Session
asked s = record s { statements = s.statements + 1 }

module _ {A B : Type 0} {Q : A → Session → Type 0} {R : B → Session → Type 0}
    {E : Session → Type 0} where
  bind_result :
      (p : Result A × Session) (f : A → Tx B)
      → Ensures Q E p
      → ((a : A) (s : Session) → Q a s → Ensures R E (f a s))
      → Ensures R E (elim p.0 [ ok a ↦ f a p.1 | err e ↦ (err e, p.1) ])
  bind_result _ f (done q) k = k _ _ q
  bind_result _ f (stopped e) k = stopped e

  pub then-Ensures :
      (m : Tx A) (f : A → Tx B) (s : Session)
      → Ensures Q E (m s)
      → ((a : A) (s' : Session) → Q a s' → Ensures R E (f a s'))
      → Ensures R E ((m >>= f) s)
  then-Ensures m f s h k = bind_result (m s) f h k

module _ {A : Type 0} {Q : A → Session → Type 0} {E : Session → Type 0} where
  on_error_result :
      (p : Result A × Session) (f : Error → Error)
      → Ensures Q E p
      → Ensures Q E (elim p.0 [ ok a ↦ (ok a, p.1) | err e ↦ (err (f e), p.1) ])
  on_error_result _ f (done q) = done q
  on_error_result _ f (stopped e) = stopped e

  pub on_error-Ensures :
      (m : Tx A) (f : Error → Error) (s : Session)
      → Ensures Q E (m s)
      → Ensures Q E (on_error f m s)
  on_error-Ensures m f s h = on_error_result (m s) f h

  -- What holds after every error of the call may be weakened, and so may what holds of its value.
  pub weaken :
      {Q' : A → Session → Type 0} {E' : Session → Type 0} {p : Result A × Session}
      → Ensures Q E p
      → ((a : A) (s : Session) → Q a s → Q' a s)
      → ((s : Session) → E s → E' s)
      → Ensures Q' E' p
  weaken (done q) f g = done (f _ _ q)
  weaken (stopped e) f g = stopped (g _ e)

  valid-Ensures :
      (o : Option String) (f : String → Tx A) (s : Session)
      → ((u : String) → o ≡ some u → Ensures Q E (f u s))
      → E s
      → Ensures Q E ((valid_uuid o >>= f) s)
  valid-Ensures none f s k h = stopped h
  valid-Ensures (some u) f s k h = k u refl

  pub cast-Ensures :
      (db : Database) (id : String) (f : String → Tx A) (s : Session)
      → ((u : String) → db.uuid id ≡ some u → Ensures Q E (f u s))
      → E s
      → Ensures Q E ((cast db id >>= f) s)
  cast-Ensures db id f s k h = valid-Ensures (db.uuid id) f s k h

  pub row-Ensures :
      {B : Type 0} (o : Option B) (f : B → Tx A) (s : Session)
      → ((b : B) → o ≡ some b → Ensures Q E (f b s))
      → E s
      → Ensures Q E ((one_row o >>= f) s)
  row-Ensures none f s k h = stopped h
  row-Ensures (some b) f s k h = k b refl

  pub row_alone :
      (o : Option A) (s : Session)
      → ((a : A) → o ≡ some a → Q a s)
      → E s
      → Ensures Q E (one_row o s)
  row_alone none s k h = stopped h
  row_alone (some a) s k h = done (k a refl)

  pub check-Ensures :
      (e : Error) (k : Tx A) (s : Session)
      → (e ≡ nil → Ensures Q E (k s))
      → E s
      → Ensures Q E ((check e >> k) s)
  check-Ensures nil k s h g = h refl
  check-Ensures (new m) k s h g = stopped g
  check-Ensures (sentinel x) k s h g = stopped g
  check-Ensures (wrap b e a) k s h g = stopped g
  check-Ensures (failure x c e) k s h g = stopped g

  pub ask-Ensures :
      (db : Database) (k : Tx A) (s : Session)
      → Ensures Q E (k (asked s))
      → E (asked s)
      → Ensures Q E ((ask db >> k) s)
  ask-Ensures db k s h g = check-Ensures (db.answer s.statements) k (asked s) (λ _. h) g

module _ {E : Session → Type 0} where
  pub check_alone :
      (e : Error) (s : Session) → E s → Ensures (λ _ s'. (s' ≡ s) × (e ≡ nil)) E (check e s)
  check_alone nil s h = done (refl, refl)
  check_alone (new m) s h = stopped h
  check_alone (sentinel x) s h = stopped h
  check_alone (wrap b e a) s h = stopped h
  check_alone (failure x c e) s h = stopped h

  pub ask_alone :
      (db : Database) (s : Session) → E (asked s) → Ensures (λ _ s'. s' ≡ asked s) E (ask db s)
  ask_alone db s h =
      weaken (check_alone (db.answer s.statements) (asked s) h) (λ _ s' q. q.0) (λ s' e. e)

-- What holds of a value that is returned.
pub value_of-Ensures :
    {A : Type 0} {Q : A → Session → Type 0} {E : Session → Type 0} {p : Result A × Session} (a : A)
    (s : Session)
    → Ensures Q E p
    → p ≡ (ok a, s)
    → Q a s
value_of-Ensures {A} {Q} a s (done {a = b} {s = t} q) h =
    let value : b ≡ a = cc in
    let session : t ≡ s = cc in subst (λ x. Q x s) value (subst (Q b) session q)
value_of-Ensures a s (stopped e) h = cc

-- A statement of its own, with a context for its error, before the rest.
module _ {A : Type 0} {Q : A → Session → Type 0} {E : Session → Type 0} where
  pub asking-Ensures :
      (db : Database) (context : String) (k : Tx A) (s : Session)
      → E (asked s)
      → Ensures Q E (k (asked s))
      → Ensures Q E ((within context (ask db) >> k) s)
  asking-Ensures db context k s e h =
      then-Ensures {Q = λ _ s'. s' ≡ asked s} (within context (ask db)) (λ _. k) s
        (on_error-Ensures (ask db) (λ x. wrap context x "") s (ask_alone db s e))
        (λ _ s' same. subst (λ z. Ensures Q E (k z)) (sym same) h)

  pub checking-Ensures :
      (context : String) (e : Error) (k : Tx A) (s : Session)
      → E s
      → (e ≡ nil → Ensures Q E (k s))
      → Ensures Q E ((within context (check e) >> k) s)
  checking-Ensures context e k s bad h =
      then-Ensures {Q = λ _ s'. (s' ≡ s) × (e ≡ nil)} (within context (check e)) (λ _. k) s
        (on_error-Ensures (check e) (λ x. wrap context x "") s (check_alone e s bad))
        (λ _ s' same. subst (λ z. Ensures Q E (k z)) (sym same.0) (h same.1))

module _ {E : Session → Type 0} {Q : String → Session → Type 0} where
  pub valid_alone :
      (o : Option String) (s : Session)
      → ((u : String) → o ≡ some u → Q u s)
      → E s
      → Ensures Q E (valid_uuid o s)
  valid_alone none s k h = stopped h
  valid_alone (some u) s k h = done (k u refl)

-- After `write` the constraints held, and the change was made; an error changes nothing.
pub write-Ensures :
    (db : Database) (event_id : String) (constraint : String → Tables → Error)
    (change : String → Tables → Tables) (s : Session)
    → Ensures
        (λ _ s'.
          (u : String) × (db.uuid event_id ≡ some u)
          × (constraint u s.tables ≡ nil)
          × (s'.tables ≡ change u s.tables)
          × (s'.handed_over ≡ s.handed_over))
        (λ s'. s'.handed_over ≡ s.handed_over)
        (write db event_id constraint change s)
unfolding write
write-Ensures db event_id constraint change s =
    let changing : String → Tx (Unit {0}) =
      λ u. (do t ← get_tables; check (constraint u t); modify (change u)) in
    ask-Ensures db (cast db event_id >>= changing) s
      (cast-Ensures db event_id changing (asked s)
        (λ u valid.
          check-Ensures (constraint u s.tables) (modify (change u)) (asked s)
            (λ good. done (u, valid, good, refl, refl)) refl)
        refl)
      refl

-- An error of a transaction leaves the tables, and what it ensures otherwise is kept.
module _ {A : Type 0} {Q : A → Session → Type 0} {E : Session → Type 0} where
  conclude-Ensures :
      (before : Tables) (p : Result A × Session)
      → Ensures Q E p
      → ((s : Session) → E s → E (record s { tables = before }))
      → Ensures Q (λ s. E s × (s.tables ≡ before)) (conclude before p)
  conclude-Ensures before _ (done q) k = done q
  conclude-Ensures before _ (stopped e) k = stopped (k _ e, refl)

-- A whole transaction: `G` of the value, the tables and what was handed over after a success, `F` of
-- what was handed over after an error.
pub transaction-Ensures :
    {A : Type 0} (G : A → Tables → List Values → Type 0) (F : List Values → Type 0) (db : Database)
    (begin_context commit_context : String) (m : Tx A) (s : Session)
    → F s.handed_over
    → ((a : A) (t : Tables) (h : List Values) → G a t h → F h)
    → Ensures (λ a s'. G a s'.tables s'.handed_over) (λ s'. F s'.handed_over) (m (asked s))
    → Ensures
        (λ a s'. G a s'.tables s'.handed_over)
        (λ s'. F s'.handed_over × (s'.tables ≡ s.tables))
        (transaction db begin_context commit_context m s)
unfolding transaction
transaction-Ensures {A} G F db begin_context commit_context m s start late body =
    let finish : A → Tx A = λ a. within commit_context (ask db) >> pure a in
    conclude-Ensures s.tables _
      (asking-Ensures {E = λ s'. F s'.handed_over} db begin_context (m >>= finish) s start (
        then-Ensures m finish (asked s) body (λ a s' g.
          asking-Ensures {E = λ z. F z.handed_over} db commit_context (pure a) s'
            (late a s'.tables s'.handed_over g) (done {s = asked s'} g))))
      (λ s' f. f)

-- A transaction that hands nothing over.
pub in_transaction-Ensures :
    {A : Type 0} (G : A → Tables → Type 0) (db : Database) (m : Tx A) (s : Session)
    → Ensures
        (λ a s'. G a s'.tables × (s'.handed_over ≡ s.handed_over))
        (λ s'. s'.handed_over ≡ s.handed_over)
        (m (asked s))
    → Ensures
        (λ a s'. G a s'.tables × (s'.handed_over ≡ s.handed_over))
        (λ s'. (s'.handed_over ≡ s.handed_over) × (s'.tables ≡ s.tables))
        (in_transaction db m s)
unfolding in_transaction
in_transaction-Ensures G db m s body =
    transaction-Ensures (λ a t h. G a t × (h ≡ s.handed_over)) (λ h. h ≡ s.handed_over) db
      "begin operations transaction: " "commit operations transaction: " m s refl (λ a t h g. g.1)
      body
