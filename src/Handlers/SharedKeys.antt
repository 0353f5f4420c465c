-- ===== src/Handlers/SharedKeys.antt =====
-- Keys that two users have. The constraint xpubs_unique of db/master is on the user and the keys together,
-- and `AddXPub` does not ask whether another user has the keys.
use identity_oracle.Prelude.{
  ℕ, String, ◌≡◌, refl, ◌∙◌, ap, ◌++◌, inl, inr, false, ◌&&◌, Option, none, some, List, [], ◌∷◌,
  arith, last?, last?-append_one,
}
use identity_oracle.Prelude.Equality.{◌==◌, string_comparable}
use identity_oracle.Prelude.Keys.{bytes_comparable, same_key_iff}
use identity_oracle.Errors.{Outcome, ok, Invalid, ErrorsPkg}
use identity_oracle.Entity.Subset.{Among}
use identity_oracle.Database.{Tables, Driver, get, row_exists, rows_where}
use identity_oracle.Database.Rows.{rows_where-append}
use identity_oracle.XPubs.{xpub_rows, fetch_xpub_by_xpub}
use identity_oracle.Signing.{Crypto}
use identity_oracle.Web.{World, unmarshal}
use identity_oracle.Handlers.{Services, Approver, PayloadOf}
use identity_oracle.Handlers.Oracle.{AddXPubRequest, add_xpub}
use identity_oracle.Handlers.Served.{Addable, new_xpub, add_xpub-Addable}

pub last-Among : (A : Type 0) (rows : List A) (a : A) → last? rows ≡ some a → Among a rows
last-Among A [] a e = absurd (ground arith)
last-Among A (b ∷ []) a e = inl (ground arith)
last-Among A (b ∷ c ∷ rows) a e = inr (last-Among A (c ∷ rows) a e)

pub last-none : (A : Type 0) (rows : List A) → last? rows ≡ none → rows ≡ []
last-none A [] e = refl
last-none A (b ∷ []) e = absurd (ground arith)
last-none A (b ∷ c ∷ rows) e = let empty = last-none A (c ∷ rows) e in absurd (cc empty)

-- A database that answers a query with its last row. SQL leaves the order of rows open.
abbrev pub last_row : {Error : Type 0} → Error → Driver Error
last_row violation = record {
  fault = λ s. none;
  violation = violation;
  pick = λ A rows. last? rows;
  pick-Among = last-Among;
  pick-none = last-none;
}

module _ (P : ErrorsPkg) (C : Crypto P.Error) (S : Services P.Error C)
    (encode_error : PayloadOf C S → Option P.Error)
    (approver : Option (Approver P.Error C.PublicKey)) (violation : P.Error) where
  open P use {Error}
  open C use {ExtendedKey, PublicKey, keys_bytes}
  open S use {Signature}

  -- A user who signs for keys that the user does not have yet gets them added, whoever else has
  -- them, beside the rows that there are. If the database answers with its last row,
  -- `FetchXPubByXPub` then gives this user's number of signers for these keys to whoever asks.
  pub fetch_xpub_by_xpub-add_xpub :
      (failures : AddXPubRequest ExtendedKey Signature → List Invalid)
      (decoded : Outcome Error (AddXPubRequest ExtendedKey Signature)) (new_id : String) (now : ℕ)
      (w : World (Tables PublicKey) (PayloadOf C S)) (r : AddXPubRequest ExtendedKey Signature)
      → unmarshal P failures decoded ≡ ok r
      → Addable P C S (last_row violation) encode_error approver new_id r w.tables
      → row_exists (λ x. x.user_id == r.user_id && x.xpub == keys_bytes r.xpubs) w.tables.xpubs
        ≡ false
      → let t' =
          (add_xpub P C S
            (last_row violation)
            encode_error
            approver
            failures
            decoded
            new_id
            now
            w).1.tables in
        (xpub_rows (keys_bytes r.xpubs) t'
          ≡ xpub_rows (keys_bytes r.xpubs) w.tables
            ++ new_xpub P C S (last_row violation) encode_error approver new_id now r ∷ [])
        × (fetch_xpub_by_xpub P (last_row violation) (keys_bytes r.xpubs) t'
            ≡ ok (new_xpub P C S (last_row violation) encode_error approver new_id now r))
  unfolding fetch_xpub_by_xpub xpub_rows rows_where get
  fetch_xpub_by_xpub-add_xpub failures decoded new_id now w r u g n =
      let row = new_xpub P C S (last_row violation) encode_error approver new_id now r in
      let keys = keys_bytes r.xpubs in
      let served = rw n at (
        add_xpub-Addable P C S (last_row violation) encode_error approver failures decoded new_id
          now w r refl u g) in
      let rows : rows_where (λ x. x.xpub == keys) (w.tables.xpubs ++ row ∷ [])
          ≡ rows_where (λ x. x.xpub == keys) w.tables.xpubs ++ row ∷ [] =
        rows_where-append (λ x. x.xpub == keys) w.tables.xpubs (row ∷ [])
        ∙ ap (λ more. rows_where (λ x. x.xpub == keys) w.tables.xpubs ++ more)
            (rw ((same_key_iff keys keys).1 refl, rows_where) refl) in
      rw served (
        rows,
        rw rows
            (rw (last?-append_one (rows_where (λ x. x.xpub == keys) w.tables.xpubs) row, get) refl),
      )
