-- ===== src/Sessions.antt =====
-- internal/platform/db/db.go, `DB` as a handle on the database: `New`, `Copy`, `Close`, the active
-- database, transactions, and the guards of the statements. PostgreSQL under sqlx is the parameter
-- `Sql`, the object store the parameter `ObjectStore`. What a call does to a pool or a transaction
-- is an `Effect`.
pub mod Status
pub mod Copies
pub mod Tests
use identity_oracle.Prelude.{ℕ, String, Bool, Option, none, some, List, [], ◌∷◌, if◌then◌else◌}
use identity_oracle.Prelude.Equality.{◌==◌, string_comparable}
use identity_oracle.Errors.{Outcome, ok, err, panic, ◌>>=◌, invalid_db_provided, of_db, ErrorsPkg}
use identity_oracle.Storage.{Bytes, ObjectStore}
use identity_oracle.Database.{get_error}

-- Who runs a statement: a pool, or a transaction. Statements are texts with bound values.
pub data Querier (Pool Tx : Type 0) : Type 0 where
  on_pool : Pool → Querier Pool Tx
  in_tx : Tx → Querier Pool Tx

pub record Sql (Error : Type 0) : Type 1 where
  pub Pool : Type 0
  pub Tx : Type 0
  pub Stmt : Type 0
  pub Rows : Type 0
  pub Value : Type 0
  pub bytes_value : Bytes → Value
  pub connect : String → String → Outcome Error Pool
  pub ping : Pool → Outcome Error (Unit {0})
  pub rebind : Querier Pool Tx → String → String
  pub prepare : Querier Pool Tx → String → Outcome Error Stmt
  pub exec : Stmt → List (Option Value) → Outcome Error (Unit {0})
  pub queryx : Querier Pool Tx → String → List (Option Value) → Outcome Error Rows
  pub select_rows : Querier Pool Tx → String → List (Option Value) → Outcome Error Rows
  pub get_row : Querier Pool Tx → String → List (Option Value) → Outcome Error Rows
  pub expand_in : String → List (Option Value) → Outcome Error (String × List (Option Value))

pub record StorageConfig : Type 0 where
  pub bucket : String
  pub root : String

pub record DbConfig : Type 0 where
  pub driver : String
  pub url : String

-- `DB`; each field may be nil.
pub record Db (Pool Tx Contents : Type 0) : Type 0 where
  pub database : Option Pool
  pub storage : Option Contents
  pub session : Option Pool
  pub session_tx : Option Tx

pub data Effect (Pool Tx : Type 0) : Type 0 where
  closed : Pool → Effect Pool Tx
  began committed rolled_back : Tx → Effect Pool Tx

module _ {Pool Tx Contents : Type 0} where
  unfoldable pub close : Db Pool Tx Contents → Db Pool Tx Contents × List (Effect Pool Tx)
  close db = elim db.session [
    | some s ↦ (record db { session = none }, [])
    | none ↦ elim db.database [ some p ↦ (db, closed p ∷ []) | none ↦ (db, []) ]
  ]

  unfoldable pub copy : Db Pool Tx Contents → Db Pool Tx Contents
  copy db = record {
    database = db.database;
    storage = db.storage;
    session = db.database;
    session_tx = none;
  }

  unfoldable pub get_active_db : Db Pool Tx Contents → Option (Querier Pool Tx)
  get_active_db db = elim db.session_tx [
    | some tx ↦ some (in_tx tx)
    | none ↦ elim db.session [
      | some s ↦ some (on_pool s)
      | none ↦ elim db.database [ some p ↦ some (on_pool p) | none ↦ none ]
    ]
  ]

  abbrev pub set_storage : Option Contents → Db Pool Tx Contents → Db Pool Tx Contents
  set_storage storage db = record db { storage = storage }

  abbrev pub get_storage : Db Pool Tx Contents → Option Contents
  get_storage db = db.storage

  -- `begun` is what `Beginx` answers. It panics on a handle that is no copy, and on an error.
  unfoldable pub begin_transaction :
      {E : Type 0}
      → Outcome E Tx
      → Db Pool Tx Contents
      → Outcome E (Db Pool Tx Contents × List (Effect Pool Tx))
  begin_transaction begun db = elim db.session [
    | none ↦ panic
    | some s ↦ elim begun [
      | ok tx ↦ ok (record db { session_tx = some tx }, began tx ∷ [])
      | err e ↦ panic
      | panic ↦ panic
    ]
  ]

  -- Without a transaction the call dereferences nil.
  unfoldable pub commit :
      {E : Type 0}
      → Outcome E (Unit {0})
      → Db Pool Tx Contents
      → Outcome E (Outcome E (Unit {0}) × (Db Pool Tx Contents × List (Effect Pool Tx)))
  commit answer db = elim db.session_tx [
    | none ↦ panic
    | some tx ↦ ok (answer, (record db { session_tx = none }, committed tx ∷ []))
  ]

  unfoldable pub rollback :
      {E : Type 0}
      → Outcome E (Unit {0})
      → Db Pool Tx Contents
      → Outcome E (Outcome E (Unit {0}) × (Db Pool Tx Contents × List (Effect Pool Tx)))
  rollback answer db = elim db.session_tx [
    | none ↦ panic
    | some tx ↦ ok (answer, (record db { session_tx = none }, rolled_back tx ∷ []))
  ]

module _ (P : ErrorsPkg) (O : ObjectStore P.Error) (Q : Sql P.Error) where
  open P use {Error, sentinel, wrap}
  open O use {Contents}
  open Q use {
    Pool, Tx, Stmt, Rows, Value, bytes_value, connect, ping, rebind, prepare, exec, queryx,
    select_rows, get_row, expand_in,
  }

  -- The store for a configuration: on the file system for the bucket "standalone", in S3 otherwise.
  -- `to_lower` is `strings.ToLower`.
  abbrev pub open_store :
      (String → String)
      → (StorageConfig → Contents)
      → (StorageConfig → Contents)
      → StorageConfig
      → Contents
  open_store to_lower filesystem s3 sc =
      if to_lower sc.bucket == "standalone" then filesystem sc else s3 sc

  -- The pool for a configuration, connected and answering.
  unfoldable pub open_pool : Option DbConfig → Outcome Error (Option Pool)
  open_pool none = ok none
  open_pool (some dbc) = do pool ← connect dbc.driver dbc.url; answered ← ping pool; ok (some pool)

  unfoldable pub new :
      (String → String)
      → (StorageConfig → Contents)
      → (StorageConfig → Contents)
      → Option DbConfig
      → Option StorageConfig
      → Outcome Error (Db Pool Tx Contents)
  new to_lower filesystem s3 dbc sc = do
    pool ← open_pool dbc
    ok (record {
      database = pool;
      storage = elim sc [ none ↦ none | some c ↦ some (open_store to_lower filesystem s3 c) ];
      session = none;
      session_tx = none;
    })

  -- An argument of a statement: a nil pointer, a value with `Bytes`, or any other.
  pub data Arg : Type 0 where
    nil_pointer : Arg
    binary : Bytes → Arg
    other : Value → Arg

  abbrev pub prepare_arguments : List Arg → List (Option Value)
  prepare_arguments [] = []
  prepare_arguments (nil_pointer ∷ args) = none ∷ prepare_arguments args
  prepare_arguments (binary b ∷ args) = some (bytes_value b) ∷ prepare_arguments args
  prepare_arguments (other v ∷ args) = some v ∷ prepare_arguments args

  -- `if activeDB == nil { return errors.Wrap(ErrInvalidDBProvided, "database == nil") }`
  unfoldable pub on_active :
      {A : Type 0} → Db Pool Tx Contents → (Querier Pool Tx → Outcome Error A) → Outcome Error A
  on_active db run = elim (get_active_db db) [
    | none ↦ err (wrap (sentinel (of_db invalid_db_provided)) "database == nil")
    | some q ↦ run q
  ]

  -- `Execute`; without arguments none are passed.
  unfoldable pub execute : Db Pool Tx Contents → String → List Arg → Outcome Error (Unit {0})
  unfolding on_active
  execute db sql args =
      on_active db (λ q. do stmt ← prepare q (rebind q sql); exec stmt (prepare_arguments args))

  unfoldable pub query : Db Pool Tx Contents → String → List Arg → Outcome Error Rows
  unfolding on_active
  query db sql args = on_active db (λ q. queryx q (rebind q sql) (prepare_arguments args))

  -- A query whose error for no rows is renamed.
  unfoldable pub not_found_named : {A : Type 0} → Outcome Error A → Outcome Error A
  unfolding get_error
  not_found_named (ok a) = ok a
  not_found_named (err e) = err (get_error P e)
  not_found_named panic = panic

  unfoldable pub select : Db Pool Tx Contents → String → List Arg → Outcome Error Rows
  unfolding on_active not_found_named
  select db sql args =
      on_active db (λ q. not_found_named (select_rows q (rebind q sql) (prepare_arguments args)))

  unfoldable pub select_in : Db Pool Tx Contents → String → List Arg → Outcome Error Rows
  unfolding on_active not_found_named
  select_in db sql args = on_active db (λ q. do
    (in_sql, in_args) ← expand_in sql (prepare_arguments args)
    not_found_named (select_rows q (rebind q in_sql) in_args))

  unfoldable pub get : Db Pool Tx Contents → String → List Arg → Outcome Error Rows
  unfolding on_active not_found_named
  get db sql args =
      on_active db (λ q. not_found_named (get_row q (rebind q sql) (prepare_arguments args)))
