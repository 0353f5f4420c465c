-- ===== src/Users.antt =====
-- internal/oracle/user.go: the users in the database. `proto.Unmarshal` into an entity is a
-- parameter, and so is the clock.
use identity_oracle.Prelude.{ℕ, String, not, ◌&&◌, List, [], ◌∷◌, ◌++◌, if◌then◌else◌}
use identity_oracle.Prelude.Equality.{◌==◌, string_comparable}
use identity_oracle.Prelude.Keys.{bytes_comparable}
use identity_oracle.Errors.{
  Outcome, ok, err, panic, ◌>>=◌, ErrorsPkg, xpub_not_found, user_not_found,
}
use identity_oracle.Entity.{EntityField}
use identity_oracle.Storage.{Bytes}
use identity_oracle.Database.{
  User, XPub, Tables, Driver, users_insert, users_select, users_select_by_xpub, users_update,
  rows_where, row_exists, get, execute, or_not_found,
}

module _ {PublicKey : Type 0} where
  -- The statement of `CreateUser`, under the primary key of `users`.
  unfoldable pub insert_user_row :
      {Error : Type 0}
      → Error
      → User PublicKey
      → Tables PublicKey
      → Outcome Error (Tables PublicKey)
  insert_user_row violation user t =
      if row_exists (λ u. u.id == user.id) t.users
      then err violation
      else ok (record t { users = t.users ++ user ∷ [] })

  -- `WHERE u.id=? AND u.is_deleted=false`
  unfoldable pub user_rows : String → Tables PublicKey → List (User PublicKey)
  user_rows id t = rows_where (λ u. u.id == id && not u.is_deleted) t.users

  -- `WHERE xpubs.xpub = ? AND xpubs.user_id=u.id AND u.is_deleted=false`, a row for each pair.
  abbrev pub owned_by : Bytes → List XPub → List (User PublicKey) → List (User PublicKey)
  owned_by keys [] users = []
  owned_by keys (x ∷ xpubs) users =
      rows_where (λ u. x.xpub == keys && (x.user_id == u.id && not u.is_deleted)) users
      ++ owned_by keys xpubs users

  unfoldable pub user_rows_by_xpub : Bytes → Tables PublicKey → List (User PublicKey)
  user_rows_by_xpub keys t = owned_by keys t.xpubs t.users

  -- `UPDATE users SET entity=$2, date_modified=$3 WHERE id=$1`
  abbrev pub set_row : String → Bytes → ℕ → User PublicKey → User PublicKey
  set_row id entity now u =
      if u.id == id then record u { entity = entity; date_modified = now } else u

  abbrev pub set_entity : String → Bytes → ℕ → List (User PublicKey) → List (User PublicKey)
  set_entity id entity now [] = []
  set_entity id entity now (u ∷ users) = set_row id entity now u ∷ set_entity id entity now users

module _ (P : ErrorsPkg) (D : Driver P.Error) {PublicKey : Type 0} where
  open P use {Error, sentinel, wrap}

  unfoldable pub fetch_user : String → Tables PublicKey → Outcome Error (User PublicKey)
  fetch_user id t = or_not_found P user_not_found id (get P D users_select (user_rows id t))

  -- The text of the keys in the error is not kept.
  unfoldable pub fetch_user_by_xpub : Bytes → Tables PublicKey → Outcome Error (User PublicKey)
  fetch_user_by_xpub keys t =
      or_not_found P xpub_not_found "xpubs"
        (get P D users_select_by_xpub (user_rows_by_xpub keys t))

module _ (P : ErrorsPkg) (unmarshal : Bytes → Outcome P.Error EntityField) where
  open P use {Error, wrap}

  abbrev verify_entity_format : Bytes → Outcome Error EntityField
  verify_entity_format entity = elim (unmarshal entity) [
    | ok e ↦ ok e
    | err e ↦ err (wrap e "deserialize entity")
    | panic ↦ panic
  ]

module _ (P : ErrorsPkg) (D : Driver P.Error) (unmarshal : Bytes → Outcome P.Error EntityField)
    {PublicKey : Type 0} where
  open P use {Error}

  unfoldable pub create_user : User PublicKey → Tables PublicKey → Outcome Error (Tables PublicKey)
  unfolding insert_user_row execute
  create_user user t = do
    entity ← verify_entity_format P unmarshal user.entity
    execute P D users_insert (insert_user_row D.violation user t)

  -- `now` is what the clock says.
  unfoldable pub update_user :
      ℕ → User PublicKey → Tables PublicKey → Outcome Error (Tables PublicKey)
  unfolding execute
  update_user now user t = do
    entity ← verify_entity_format P unmarshal user.entity
    execute P D users_update (ok (record t { users = set_entity user.id user.entity now t.users }))
