-- ===== src/XPubs.antt =====
-- internal/oracle/xpub.go: the extended public keys in the database. `uuid.New` is an argument.
use identity_oracle.Prelude.Int.{is_int32}
use identity_oracle.Prelude.{String, ◌&&◌, List, [], ◌∷◌, ◌++◌, if◌then◌else◌}
use identity_oracle.Prelude.Equality.{◌==◌, string_comparable}
use identity_oracle.Prelude.Keys.{bytes_comparable}
use identity_oracle.Errors.{Outcome, ok, err, ◌>>=◌, ErrorsPkg, xpub_not_found}
use identity_oracle.Storage.{Bytes}
use identity_oracle.Database.{
  XPub, Tables, Driver, xpubs_insert, xpubs_select, xpubs_select_user_id, rows_where, row_exists,
  get, execute, or_not_found,
}

module _ {PublicKey : Type 0} where
  -- The statement of `CreateXPub`. The number of signers has to fit its column, which is an
  -- INT. The primary key and the reference to `users` are checked, and a row with the same user and
  -- keys makes it do nothing.
  unfoldable pub insert_xpub_row :
      {Error : Type 0} → Error → XPub → Tables PublicKey → Outcome Error (Tables PublicKey)
  insert_xpub_row violation xpub t =
      if is_int32 xpub.required_signers
      then if row_exists (λ x. x.user_id == xpub.user_id && x.xpub == xpub.xpub) t.xpubs
        then ok t
        else if row_exists (λ x. x.id == xpub.id) t.xpubs
        then err violation
        else if row_exists (λ u. u.id == xpub.user_id) t.users
        then ok (record t { xpubs = t.xpubs ++ xpub ∷ [] })
        else err violation
      else err violation

  -- `WHERE xp.xpub = ?`
  unfoldable pub xpub_rows : Bytes → Tables PublicKey → List XPub
  xpub_rows keys t = rows_where (λ x. x.xpub == keys) t.xpubs

module _ (P : ErrorsPkg) (D : Driver P.Error) {PublicKey : Type 0} where
  open P use {Error}

  unfoldable pub create_xpub : String → XPub → Tables PublicKey → Outcome Error (Tables PublicKey)
  unfolding insert_xpub_row execute
  create_xpub new_id xpub t =
      execute P D xpubs_insert (insert_xpub_row D.violation (record xpub { id = new_id }) t)

  unfoldable pub fetch_xpub_by_xpub : Bytes → Tables PublicKey → Outcome Error XPub
  fetch_xpub_by_xpub keys t =
      or_not_found P xpub_not_found "xpubs" (get P D xpubs_select (xpub_rows keys t))

  unfoldable pub fetch_user_id_by_xpub : Bytes → Tables PublicKey → Outcome Error String
  fetch_user_id_by_xpub keys t =
      or_not_found P xpub_not_found "xpubs"
        (do x ← get P D xpubs_select_user_id (xpub_rows keys t); ok x.user_id)
