-- ===== src/Consistency.antt =====
-- What the constraints of the schema (db/master/*.sql) keep true of the tables, whatever the
-- program executes: the operations of internal/oracle/user.go and internal/oracle/xpub.go.
pub mod Preservation
pub mod Selection
pub mod Changes
pub mod Lookup
pub mod FreeKeys
pub mod Tests
use text.Mathlib.TextEquality.{eq_iff}
use identity_oracle.Prelude.{
  String, ◌≡◌, ◌≢◌, refl, ◌∙◌, ap, sym, inl, inr, ◌⊎◌, Bool, true, false, not, ◌&&◌, List, [], ◌∷◌,
  ◌++◌, All, arith, ℕ, if◌then◌else◌, Bool-cases,
}
use identity_oracle.Prelude.Equality.{◌==◌, string_comparable}
use identity_oracle.Prelude.Keys.{bytes_comparable, same_key_iff}
use identity_oracle.Errors.{Outcome, ok, err, panic, ◌>>=◌, Outcome-cases, ErrorsPkg}
use identity_oracle.Entity.{EntityField}
use identity_oracle.Entity.Subset.{Among}
use identity_oracle.Storage.{Bytes}
use identity_oracle.Database.{
  User, XPub, Tables, Driver, row_exists, rows_where, users_insert, users_update, xpubs_insert,
}
use identity_oracle.Database.Rows.{row_exists-false, row_exists-true, execute-ok}
use identity_oracle.Users.{insert_user_row, create_user, set_entity, set_row, update_user}
use identity_oracle.XPubs.{insert_xpub_row, create_xpub}

-- No two rows agree on a column.
abbrev pub Unique : {A K : Type 0} → (A → K) → List A → Type 0
Unique f [] = Unit
Unique f (a ∷ rows) = All (λ b. f b ≢ f a) rows × Unique f rows

module _ {PublicKey : Type 0} where
  -- Some user has the id.
  abbrev pub HasUser : String → List (User PublicKey) → Type 0
  HasUser id [] = ⊥
  HasUser id (u ∷ users) = (u.id ≡ id) ⊎ HasUser id users

  -- users_pkey, xpubs_pkey, xpubs_unique and the reference of xpubs to users.
  pub record IsConsistent (t : Tables PublicKey) : Type 0 where
    pub user_ids : Unique (λ u. u.id) t.users
    pub xpub_ids : Unique (λ x. x.id) t.xpubs
    pub owners : Unique {K = String × Bytes} (λ x. (x.user_id, x.xpub)) t.xpubs
    pub references : All (λ x. HasUser x.user_id t.users) t.xpubs
