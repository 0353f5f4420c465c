-- ===== src/Consistency/Changes.antt =====
-- The rows of a user before and after the operations of internal/oracle/user.go and xpub.go.
use mathlib.Core.List.{append-nil}
use identity_oracle.Prelude.{
  String, ◌≡◌, ◌≢◌, refl, ◌∙◌, ap, sym, false, List, [], ◌∷◌, ◌++◌, All, arith, ℕ,
}
use identity_oracle.Prelude.Equality.{◌==◌, string_comparable}
use identity_oracle.Prelude.Keys.{bytes_comparable}
use identity_oracle.Errors.{Outcome, ok, ErrorsPkg}
use identity_oracle.Entity.{EntityField}
use identity_oracle.Entity.Subset.{Among}
use identity_oracle.Storage.{Bytes}
use identity_oracle.Database.{User, Tables, Driver, row_exists, rows_where, XPub}
use identity_oracle.Database.Rows.{rows_where-append, rows_where-none, row_exists-false}
use identity_oracle.Users.{create_user, user_rows, set_entity, update_user}
use identity_oracle.Consistency.{IsConsistent}
use identity_oracle.Consistency.Preservation.{set_entity-Unique}
use identity_oracle.Consistency.Selection.{
  is_active, active, inactive, one_row, Among-set_entity, set_row_self, rows-set_entity_ne,
}
use identity_oracle.XPubs.{insert_xpub_row, create_xpub}

module _ {PublicKey : Type 0} where
  others :
      (id : String) (rows : List (User PublicKey))
      → All (λ w. (w.id == id) ≡ false) rows
      → All (λ w. is_active id w ≡ false) rows
  others id [] h = tt
  others id (w ∷ rows) h = (ground arith, others id rows h.1)

  -- The rows of one user who is active are that one row.
  pub user_rows-active :
      (t : Tables PublicKey) (u : User PublicKey)
      → IsConsistent t
      → Among u t.users
      → u.is_deleted ≡ false
      → user_rows u.id t ≡ u ∷ []
  unfolding user_rows
  user_rows-active t u c listed alive = one_row u.id t.users u c.user_ids listed refl alive

module _ (P : ErrorsPkg) (D : Driver P.Error) {PublicKey : Type 0} where
  open P use {Error}

  pub create_user-appends :
      (unmarshal : Bytes → Outcome Error EntityField) (u : User PublicKey) (t t' : Tables PublicKey)
      → create_user P D unmarshal u t ≡ ok t'
      → (record t { users = t.users ++ u ∷ [] } ≡ t')
        × (row_exists (λ w. w.id == u.id) t.users ≡ false)
  unfolding create_user
  create_user-appends unmarshal u t t' c = (ground arith, ground arith)

  pub update_user-sets :
      (unmarshal : Bytes → Outcome Error EntityField) (now : ℕ) (u : User PublicKey)
      (t t' : Tables PublicKey)
      → update_user P D unmarshal now u t ≡ ok t'
      → record t { users = set_entity u.id u.entity now t.users } ≡ t'
  unfolding update_user
  update_user-sets unmarshal now u t t' h = ground arith

  -- A user who is created has no row before.
  pub user_rows-fresh :
      (unmarshal : Bytes → Outcome Error EntityField) (u : User PublicKey) (t t' : Tables PublicKey)
      → create_user P D unmarshal u t ≡ ok t'
      → user_rows u.id t ≡ []
  unfolding user_rows
  user_rows-fresh unmarshal u t t' c =
      rows_where-none (is_active u.id) t.users (
        others u.id t.users (row_exists-false _ t.users (create_user-appends unmarshal u t t' c).1))

  pub user_rows-create_user :
      (unmarshal : Bytes → Outcome Error EntityField) (u : User PublicKey) (t t' : Tables PublicKey)
      → u.is_deleted ≡ false
      → create_user P D unmarshal u t ≡ ok t'
      → user_rows u.id t' ≡ u ∷ []
  unfolding user_rows rows_where
  user_rows-create_user unmarshal u t t' d c =
      let (same, new) = create_user-appends unmarshal u t t' c in
      rw (← same) (
        rows_where-append (is_active u.id) t.users (u ∷ [])
        ∙ ap (λ r. r ++ rows_where (is_active u.id) (u ∷ [])) (user_rows-fresh unmarshal u t t' c)
        ∙ (rw (active u.id u refl d, rows_where) refl))

  pub user_rows-create_user_ne :
      (unmarshal : Bytes → Outcome Error EntityField) (j : String) (u : User PublicKey)
      (t t' : Tables PublicKey)
      → j ≢ u.id
      → create_user P D unmarshal u t ≡ ok t'
      → user_rows j t' ≡ user_rows j t
  unfolding user_rows rows_where
  user_rows-create_user_ne unmarshal j u t t' n c =
      let (same, new) = create_user-appends unmarshal u t t' c in
      rw (← same) (
        rows_where-append (is_active j) t.users (u ∷ [])
        ∙ ap (λ r. rows_where (is_active j) t.users ++ r)
            (rw (inactive j u (λ e. n (sym e)), rows_where) refl)
        ∙ append-nil (rows_where (is_active j) t.users))

  pub user_rows-update_user :
      (unmarshal : Bytes → Outcome Error EntityField) (now : ℕ) (entity : Bytes)
      (u : User PublicKey) (t t' : Tables PublicKey)
      → IsConsistent t
      → Among u t.users
      → u.is_deleted ≡ false
      → update_user P D unmarshal now (record u { entity = entity }) t ≡ ok t'
      → user_rows u.id t' ≡ record u { entity = entity; date_modified = now } ∷ []
  unfolding user_rows
  user_rows-update_user unmarshal now entity u t t' c listed alive h =
      let same = update_user-sets unmarshal now (record u { entity = entity }) t t' h in
      let rows : List (User PublicKey) = set_entity u.id entity now t.users in
      let row = set_row_self u.id entity now u refl in
      rw (← same) (
        one_row u.id rows (record u { entity = entity; date_modified = now })
          (set_entity-Unique u.id entity now t.users c.user_ids)
          (rw row at (Among-set_entity u.id entity now t.users u listed)) refl alive)

  pub user_rows-update_user_ne :
      (unmarshal : Bytes → Outcome Error EntityField) (now : ℕ) (id : String) (u : User PublicKey)
      (t t' : Tables PublicKey)
      → id ≢ u.id
      → update_user P D unmarshal now u t ≡ ok t'
      → user_rows id t' ≡ user_rows id t
  unfolding user_rows
  user_rows-update_user_ne unmarshal now id u t t' n h =
      rw (← update_user-sets unmarshal now u t t' h)
        (rows-set_entity_ne id u.id u.entity now t.users n)

  -- Adding keys leaves the rows of every user.
  pub user_rows-create_xpub :
      (new_id id : String) (x : XPub) (t t' : Tables PublicKey)
      → create_xpub P D new_id x t ≡ ok t'
      → user_rows id t' ≡ user_rows id t
  unfolding create_xpub insert_xpub_row user_rows
  user_rows-create_xpub new_id id x t t' h =
      let same : t'.users ≡ t.users = ground arith in rw same refl
