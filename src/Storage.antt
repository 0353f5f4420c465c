-- ===== src/Storage.antt =====
-- internal/platform/db/db.go, the storage half of `DB`: `Put` and `Fetch`. The object store, of
-- github.com/tokenized/pkg/storage, is the parameter `ObjectStore`; keys and values are byte lists.
pub mod Memory
pub mod Laws
use Prim.Native.Char.{code}
use identity_oracle.Prelude.{
  ℕ, String, ◌≡◌, ◌≢◌, Bool, true, false, Option, none, some, List, [], ◌∷◌, if◌then◌else◌,
}
use identity_oracle.Errors.{
  Outcome, ok, err, panic, ◌>>=◌, DbError, invalid_db_provided, db_not_found, ForeignError,
  storage_not_found, of_db, of_foreign, Kind, is_sentinel, ErrorsPkg, cause_kind,
}

abbrev pub Bytes : Type 0
Bytes = List ℕ

-- The bytes of a text in ASCII.
abbrev pub codes : String → Bytes
codes String.[] = []
codes (String.◌∷◌ c s) = code c ∷ codes s

-- A store of objects: its contents, and what `Read` and `Write` do. A read after a write returns
-- what was written. A write changes no other object, also if it fails; what it then leaves of its own
-- object is `after_failure`.
pub record ObjectStore (Error : Type 0) : Type 1 where
  pub Contents : Type 0
  pub read : Bytes → Contents → Outcome Error Bytes
  pub write : Bytes → Bytes → Contents → Outcome Error Contents
  pub after_failure : Bytes → Bytes → Contents → Contents
  pub read-write_self :
      (key body : Bytes) (c c' : Contents) → write key body c ≡ ok c' → read key c' ≡ ok body
  pub read-write_ne :
      (key other body : Bytes) (c c' : Contents)
      → other ≢ key
      → write key body c ≡ ok c'
      → read other c' ≡ read other c
  pub read-after_failure :
      (key other body : Bytes) (c : Contents)
      → other ≢ key
      → read other (after_failure key body c) ≡ read other c

abbrev pub is_storage_not_found : Kind → Bool
is_storage_not_found (is_sentinel (of_foreign storage_not_found)) = true
is_storage_not_found _ = false

abbrev pub is_db_not_found : Kind → Bool
is_db_not_found (is_sentinel (of_db db_not_found)) = true
is_db_not_found _ = false

-- `storage` is the field of `DB`, nil or a store.
module _ (P : ErrorsPkg) (O : ObjectStore P.Error) where
  open P use {Error, sentinel, wrap, kind}
  open O use {Contents, read, write, after_failure}

  unfoldable pub put : Bytes → Bytes → Option Contents → Outcome Error (Option Contents)
  put key body none = err (wrap (sentinel (of_db invalid_db_provided)) "storage == nil")
  put key body (some c) = do c' ← write key body c; ok (some c')

  -- What a `Put` that fails leaves.
  abbrev pub after_put : Bytes → Bytes → Option Contents → Option Contents
  after_put key body none = none
  after_put key body (some c) = some (after_failure key body c)

  -- `if err == storage.ErrNotFound { err = ErrNotFound }`
  unfoldable pub fetch_error : Error → Error
  fetch_error e = if is_storage_not_found (kind e) then sentinel (of_db db_not_found) else e

  unfoldable pub fetch : Bytes → Option Contents → Outcome Error Bytes
  unfolding fetch_error
  fetch key none = err (wrap (sentinel (of_db invalid_db_provided)) "storage == nil")
  fetch key (some c) = elim (read key c) [
    | ok b ↦ ok b
    | err e ↦ err (fetch_error e)
    | panic ↦ panic
  ]

  -- `Remove`; `removed` is what the store's `Remove` does.
  unfoldable pub remove :
      (Bytes → Contents → Outcome Error Contents)
      → Bytes
      → Option Contents
      → Outcome Error (Option Contents)
  remove removed key none = err (wrap (sentinel (of_db invalid_db_provided)) "storage == nil")
  remove removed key (some c) = do c' ← removed key c; ok (some c')
