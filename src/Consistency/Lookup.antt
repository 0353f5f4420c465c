-- ===== src/Consistency/Lookup.antt =====
-- What is fetched after the operations of internal/oracle/user.go.
use identity_oracle.Prelude.{
  String, ◌≡◌, ◌≢◌, ◌∙◌, ap, sym, inl, inr, false, none, [], ◌∷◌, arith, ℕ,
}
use identity_oracle.Prelude.Equality.{string_comparable}
use identity_oracle.Prelude.Keys.{bytes_comparable}
use identity_oracle.Errors.{Outcome, ok, user_not_found, Outcome-cases, ErrorsPkg}
use identity_oracle.Entity.{EntityField}
use identity_oracle.Entity.Subset.{Among}
use identity_oracle.Storage.{Bytes}
use identity_oracle.Database.{
  User, Tables, Driver, get, or_not_found, users_select, users_select_by_xpub,
}
use identity_oracle.Database.Rows.{Among-rows_where, get-Among, get-one}
use identity_oracle.Users.{
  create_user, user_rows, user_rows_by_xpub, update_user, fetch_user, fetch_user_by_xpub,
}
use identity_oracle.Consistency.{IsConsistent}
use identity_oracle.Consistency.Selection.{is_active, active-parts, owned_by_sound, Owns}
use identity_oracle.Consistency.Changes.{
  user_rows-create_user, user_rows-update_user, user_rows-update_user_ne,
}

module _ (P : ErrorsPkg) (D : Driver P.Error) {PublicKey : Type 0} where
  open P use {Error}
  open D use {fault}

  get-fetch_user :
      (id : String) (t : Tables PublicKey) (u : User PublicKey)
      → fetch_user P D id t ≡ ok u
      → get P D users_select (user_rows id t) ≡ ok u
  unfolding fetch_user
  get-fetch_user id t u f = elim (Outcome-cases (get P D users_select (user_rows id t))) [
    | inl (v, q) ↦ q ∙ (ground arith)
    | inr (inl (x, q)) ↦ absurd (ground arith)
    | inr (inr q) ↦ absurd (ground arith)
  ]

  get-fetch_user_by_xpub :
      (keys : Bytes) (t : Tables PublicKey) (u : User PublicKey)
      → fetch_user_by_xpub P D keys t ≡ ok u
      → get P D users_select_by_xpub (user_rows_by_xpub keys t) ≡ ok u
  unfolding fetch_user_by_xpub
  get-fetch_user_by_xpub keys t u f =
      elim (Outcome-cases (get P D users_select_by_xpub (user_rows_by_xpub keys t))) [
        | inl (v, q) ↦ q ∙ (ground arith)
        | inr (inl (x, q)) ↦ absurd (ground arith)
        | inr (inr q) ↦ absurd (ground arith)
      ]

  -- `FetchUser` returns a user of the table with the id that was asked for, and not a deleted one.
  pub fetch_user-active :
      (id : String) (t : Tables PublicKey) (u : User PublicKey)
      → fetch_user P D id t ≡ ok u
      → Among u t.users × (u.id ≡ id) × (u.is_deleted ≡ false)
  unfolding user_rows
  fetch_user-active id t u f =
      let (listed, holds) =
        Among-rows_where (is_active id) u t.users
          (get-Among P D users_select _ u (get-fetch_user id t u f)) in
      let (e, alive) = active-parts id u holds in (listed, e, alive)

  fetch_user-one_row :
      (id : String) (t : Tables PublicKey) (u : User PublicKey)
      → fault users_select ≡ none
      → user_rows id t ≡ u ∷ []
      → fetch_user P D id t ≡ ok u
  unfolding fetch_user
  fetch_user-one_row id t u f r =
      ap (λ rows. or_not_found P user_not_found id (get P D users_select rows)) r
      ∙ ap (or_not_found P user_not_found id) (get-one P D users_select u f)

  pub fetch_user-rows :
      (id : String) (s t : Tables PublicKey)
      → user_rows id s ≡ user_rows id t
      → fetch_user P D id s ≡ fetch_user P D id t
  unfolding fetch_user
  fetch_user-rows id s t r =
      ap (λ rows. or_not_found P user_not_found id (get P D users_select rows)) r

  -- A user who was created, and is not marked as deleted, is the one that is fetched under the id.
  pub fetch_user-create_user :
      (unmarshal : Bytes → Outcome Error EntityField) (u : User PublicKey) (t t' : Tables PublicKey)
      → fault users_select ≡ none
      → u.is_deleted ≡ false
      → create_user P D unmarshal u t ≡ ok t'
      → fetch_user P D u.id t' ≡ ok u
  fetch_user-create_user unmarshal u t t' f d c =
      fetch_user-one_row u.id t' u f (user_rows-create_user P D unmarshal u t t' d c)

  -- After an update of a fetched user, the same id fetches the user with the new entity and the new
  -- time.
  pub fetch_user-update_user :
      (unmarshal : Bytes → Outcome Error EntityField) (now : ℕ) (id : String) (entity : Bytes)
      (u : User PublicKey) (t t' : Tables PublicKey)
      → fault users_select ≡ none
      → IsConsistent t
      → fetch_user P D id t ≡ ok u
      → update_user P D unmarshal now (record u { entity = entity }) t ≡ ok t'
      → fetch_user P D id t' ≡ ok (record u { entity = entity; date_modified = now })
  fetch_user-update_user unmarshal now id entity u t t' f c g h =
      let (listed, e, alive) = fetch_user-active id t u g in
      fetch_user-one_row id t' (record u { entity = entity; date_modified = now }) f
        (ap (λ k. user_rows k t') (sym e)
          ∙ user_rows-update_user P D unmarshal now entity u t t' c listed alive h)

  -- An update of one user changes nothing that is fetched under another id.
  pub fetch_user-update_user_ne :
      (unmarshal : Bytes → Outcome Error EntityField) (now : ℕ) (id : String) (u : User PublicKey)
      (t t' : Tables PublicKey)
      → id ≢ u.id
      → update_user P D unmarshal now u t ≡ ok t'
      → fetch_user P D id t' ≡ fetch_user P D id t
  fetch_user-update_user_ne unmarshal now id u t t' n h =
      fetch_user-rows id t' t (user_rows-update_user_ne P D unmarshal now id u t t' n h)

  -- `FetchUserByXPub` returns a user of the table who is not deleted and owns the keys.
  pub fetch_user_by_xpub-Owns :
      (keys : Bytes) (t : Tables PublicKey) (u : User PublicKey)
      → fetch_user_by_xpub P D keys t ≡ ok u
      → Among u t.users × (u.is_deleted ≡ false) × Owns t keys u
  unfolding user_rows_by_xpub
  fetch_user_by_xpub-Owns keys t u f =
      let row =
        get-Among P D users_select_by_xpub (user_rows_by_xpub keys t) u
          (get-fetch_user_by_xpub keys t u f) in
      let (listed, alive, (x, m, k, o)) = owned_by_sound keys t.xpubs t.users u row in
      (listed, alive, record { row = x; listed = m; has_keys = k; is_of = o })
