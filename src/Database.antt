-- ===== src/Database.antt =====
-- The relational database: the tables of db/master/*.sql, and `Execute` and `Get` of
-- internal/platform/db/db.go on a connection that is there. PostgreSQL and its Go driver are the
-- parameter `Driver`: which statement fails and how, and which of several rows comes first.
pub mod Rows
use identity_oracle.Prelude.Int.{ℤ}
use identity_oracle.Prelude.{
  ℕ, String, ◌≡◌, Bool, true, false, Option, none, some, List, [], ◌∷◌, if◌then◌else◌,
}
use identity_oracle.Errors.{
  Outcome, ok, err, db_not_found, of_db, of_foreign, no_rows, Kind, is_sentinel, ErrorsPkg,
  cause_kind, OracleError, of_oracle, panic,
}
use identity_oracle.Entity.Subset.{Among}
use identity_oracle.Storage.{Bytes, is_db_not_found}

-- A row of `users`: `User` of internal/oracle/models.go. Times are nanoseconds.
pub record User (PublicKey : Type 0) : Type 0 where
  pub id : String
  pub entity : Bytes
  pub public_key : PublicKey
  pub date_created : ℕ
  pub date_modified : ℕ
  pub is_deleted : Bool

-- A row of `xpubs`: `XPub`. The keys are kept as the bytes that `prepareArguments` makes of them.
pub record XPub : Type 0 where
  pub id : String
  pub user_id : String
  pub xpub : Bytes
  pub required_signers : ℤ
  pub date_created : ℕ

pub record Tables (PublicKey : Type 0) : Type 0 where
  pub users : List (User PublicKey)
  pub xpubs : List XPub

-- The statements that the program executes.
pub data Statement : Type 0 where
  users_insert users_select users_select_by_xpub users_update xpubs_insert xpubs_select
        xpubs_select_user_id :
      Statement

-- A statement may fail for reasons of its own. A query answers with one of its rows if it has any.
pub record Driver (Error : Type 0) : Type 1 where
  pub fault : Statement → Option Error
  pub violation : Error
  pub pick : (A : Type 0) → List A → Option A
  pub pick-Among : (A : Type 0) (rows : List A) (a : A) → pick A rows ≡ some a → Among a rows
  pub pick-none : (A : Type 0) (rows : List A) → pick A rows ≡ none → rows ≡ []

-- The rows at which a condition holds.
unfoldable pub rows_where : {A : Type 0} → (A → Bool) → List A → List A
rows_where p [] = []
rows_where p (a ∷ rows) = let rest = rows_where p rows in if p a then a ∷ rest else rest

-- Is there a row at which a condition holds?
unfoldable pub row_exists : {A : Type 0} → (A → Bool) → List A → Bool
row_exists p [] = false
row_exists p (a ∷ rows) = if p a then true else row_exists p rows

abbrev pub is_no_rows : Kind → Bool
is_no_rows (is_sentinel (of_foreign no_rows)) = true
is_no_rows _ = false

module _ (P : ErrorsPkg) where
  open P use {Error, sentinel, kind}

  -- `if err == sqldb.ErrNoRows { err = ErrNotFound }`
  unfoldable pub get_error : Error → Error
  get_error e = if is_no_rows (kind e) then sentinel (of_db db_not_found) else e

module _ (P : ErrorsPkg) (D : Driver P.Error) where
  open P use {Error, sentinel, kind}
  open D use {fault, pick}

  -- `DB.Get`: the row that comes first.
  unfoldable pub get : {A : Type 0} → Statement → List A → Outcome Error A
  unfolding get_error
  get {A} statement rows = elim (fault statement) [
    | some e ↦ err (get_error P e)
    | none ↦ elim (pick A rows) [
      | none ↦ err (get_error P (sentinel (of_foreign no_rows)))
      | some a ↦ ok a
    ]
  ]

  -- `DB.Execute`: the tables that the statement leaves, or its error.
  unfoldable pub execute : {A : Type 0} → Statement → Outcome Error A → Outcome Error A
  execute statement result = elim (fault statement) [ some e ↦ err e | none ↦ result ]

module _ (P : ErrorsPkg) where
  open P use {Error, sentinel, wrap}

  -- `if errors.Cause(err) == db.ErrNotFound { return errors.Wrap(missing, what) }`, as the fetches of
  -- internal/oracle do.
  abbrev pub or_not_found : {A : Type 0} → OracleError → String → Outcome Error A → Outcome Error A
  or_not_found missing what (ok a) = ok a
  or_not_found missing what (err e) =
      if is_db_not_found (cause_kind P e)
      then err (wrap (sentinel (of_oracle missing)) what)
      else err e
  or_not_found missing what panic = panic
