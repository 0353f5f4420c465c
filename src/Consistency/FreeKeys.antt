-- ===== src/Consistency/FreeKeys.antt =====
-- Keys that nobody has, and rows for them that are added to the tables of internal/oracle/xpub.go.
use text.Mathlib.TextEquality.{eq_iff}
use mathlib.Core.List.{append-nil}
use identity_oracle.Prelude.{
  String, ◌≡◌, refl, ◌∙◌, ap, ◌++◌, false, not, ◌&&◌, List, [], ◌∷◌, All, arith,
}
use identity_oracle.Prelude.Equality.{◌==◌, string_comparable}
use identity_oracle.Prelude.Keys.{bytes_comparable, same_key_iff}
use identity_oracle.Storage.{Bytes}
use identity_oracle.Database.{User, XPub, Tables, rows_where, row_exists}
use identity_oracle.Database.Rows.{rows_where-append, rows_where-none}
use identity_oracle.Users.{owned_by}
use identity_oracle.XPubs.{xpub_rows}
use identity_oracle.Consistency.Selection.{is_active}

-- Where no row has the keys, none has them for a given user.
pub unowned :
    (keys : Bytes) (id : String) (xpubs : List XPub)
    → All (λ x. (x.xpub == keys) ≡ false) xpubs
    → row_exists (λ x. x.user_id == id && x.xpub == keys) xpubs ≡ false
unfolding row_exists
unowned keys id [] h = refl
unowned keys id (x ∷ xpubs) h = ground (arith, h.0, unowned keys id xpubs h.1)

module _ {PublicKey : Type 0} where
  -- Nobody has the keys.
  abbrev pub AreFree : Bytes → Tables PublicKey → Type 0
  AreFree keys t = All (λ x. (x.xpub == keys) ≡ false) t.xpubs

  owner_test :
      (keys : Bytes) (x : XPub) (u : User PublicKey)
      → x.xpub ≡ keys
      → (x.xpub == keys && (x.user_id == u.id && not u.is_deleted)) ≡ is_active x.user_id u
  owner_test keys x u e =
      ground (arith, same_key_iff x.xpub keys, eq_iff x.user_id u.id, eq_iff u.id x.user_id)

  -- Keys that only the last row has lead to the users of that row.
  pub owned_by-free :
      (keys : Bytes) (xpubs : List XPub) (x : XPub) (users : List (User PublicKey))
      → All (λ y. (y.xpub == keys) ≡ false) xpubs
      → x.xpub ≡ keys
      → owned_by keys (xpubs ++ x ∷ []) users ≡ rows_where (is_active x.user_id) users
  owned_by-free keys [] x users h e =
      append-nil _ ∙ ap (λ p. rows_where p users) (λ i u. owner_test keys x u e i)
  owned_by-free keys (y ∷ xpubs) x users h e =
      let nobody =
        rows_where-none
          (λ (u : User PublicKey). y.xpub == keys && (y.user_id == u.id && not u.is_deleted)) users
          (nowhere users) in
      ap (λ rows. rows ++ owned_by keys (xpubs ++ x ∷ []) users) nobody
      ∙ owned_by-free keys xpubs x users h.1 e
    where
      nowhere :
          (rows : List (User PublicKey))
          → All (λ u. (y.xpub == keys && (y.user_id == u.id && not u.is_deleted)) ≡ false) rows
      nowhere [] = tt
      nowhere (u ∷ rows) = (ground (arith, h.0), nowhere rows)

  pub xpub_rows-free :
      (keys : Bytes) (t : Tables PublicKey) (x : XPub)
      → AreFree keys t
      → x.xpub ≡ keys
      → xpub_rows keys (record t { xpubs = t.xpubs ++ x ∷ [] }) ≡ x ∷ []
  unfolding xpub_rows rows_where
  xpub_rows-free keys t x h e =
      rows_where-append (λ y. y.xpub == keys) t.xpubs (x ∷ [])
      ∙ ap (λ rows. rows ++ rows_where (λ y. y.xpub == keys) (x ∷ []))
          (rows_where-none (λ y. y.xpub == keys) t.xpubs h)
      ∙ rw ((same_key_iff x.xpub keys).1 e, rows_where) refl
