-- ===== src/Handlers/Served.antt =====
-- Requests that go through `Register` and `AddXPub`: what is enough for that, the call of `Respond` that
-- they then end in, and what they leave.
use identity_oracle.Prelude.Int.{is_int32}
use identity_oracle.Prelude.{
  ℕ, String, ◌≡◌, refl, ◌++◌, inl, inr, true, false, Option, none, List, [], ◌∷◌, All, arith,
  Bool-cases, ◌&&◌, Bool, if◌then◌else◌,
}
use identity_oracle.Prelude.Equality.{◌==◌, ==-refl, string_comparable}
use identity_oracle.Prelude.Keys.{bytes_comparable}
use identity_oracle.Errors.{Outcome, ok, Invalid, ErrorsPkg}
use identity_oracle.Entity.{EntityField}
use identity_oracle.Entity.Subset.{Among}
use identity_oracle.Storage.{Bytes}
use identity_oracle.Database.{User, XPub, Tables, Driver, row_exists, users_insert, xpubs_insert}
use identity_oracle.Users.{create_user, fetch_user, insert_user_row}
use identity_oracle.XPubs.{create_xpub, insert_xpub_row}
use identity_oracle.Signing.{Crypto}
use identity_oracle.Web.{no_body, data_body, World, unmarshal, respond}
use identity_oracle.Handlers.{
  Services, Approver, user_created, PayloadOf, check_public, permit, conclude,
}
use identity_oracle.Handlers.Oracle.{
  RegisterRequest, AddXPubRequest, check_signature, xpub_message, permit_registration,
  register_steps, register, add_xpub_steps, add_xpub,
}
use identity_oracle.Handlers.Steps.{Permitted, no_approver, agreed}
use identity_oracle.Consistency.Lookup.{fetch_user-active}

-- A user with a new id is inserted.
pub create_user-new :
    (P : ErrorsPkg) (D : Driver P.Error) (unmarshal : Bytes → Outcome P.Error EntityField)
    {PublicKey : Type 0} (u : User PublicKey) (t : Tables PublicKey) (stored : EntityField)
    → D.fault users_insert ≡ none
    → unmarshal u.entity ≡ ok stored
    → row_exists (λ v. v.id == u.id) t.users ≡ false
    → create_user P D unmarshal u t ≡ ok (record t { users = t.users ++ u ∷ [] })
unfolding create_user insert_user_row
create_user-new P D unmarshal u t stored f s n = ground arith

row_exists-Among :
    {A : Type 0} (p : A → Bool) (rows : List A) (a : A)
    → Among a rows
    → p a ≡ true
    → row_exists p rows ≡ true
unfolding row_exists
row_exists-Among p [] a m e = absurd m
row_exists-Among p (b ∷ rows) a (inl q) e = ground arith
row_exists-Among p (b ∷ rows) a (inr m) e = ground (arith, row_exists-Among p rows a m e)

-- A row of a user, with a new id, is inserted, unless the user has one for the same keys.
create_xpub-new :
    (P : ErrorsPkg) (D : Driver P.Error) {PublicKey : Type 0} (x : XPub) (new_id : String)
    (t : Tables PublicKey)
    → D.fault xpubs_insert ≡ none
    → is_int32 x.required_signers ≡ true
    → row_exists (λ y. y.id == new_id) t.xpubs ≡ false
    → row_exists (λ u. u.id == x.user_id) t.users ≡ true
    → create_xpub P D new_id x t
      ≡ ok (
          if row_exists (λ y. y.user_id == x.user_id && y.xpub == x.xpub) t.xpubs
          then t
          else record t { xpubs = t.xpubs ++ record x { id = new_id } ∷ [] })
unfolding create_xpub insert_xpub_row
create_xpub-new P D x new_id t f i n u =
    elim (Bool-cases (row_exists (λ y. y.user_id == x.user_id && y.xpub == x.xpub) t.xpubs)) [
      | inl y ↦ ground arith
      | inr z ↦ ground arith
    ]

module _ (P : ErrorsPkg) (C : Crypto P.Error) (S : Services P.Error C) (D : Driver P.Error)
    (encode_error : PayloadOf C S → Option P.Error)
    (approver : Option (Approver P.Error C.PublicKey)) where
  open P use {Error}
  open C use {ExtendedKey, PublicKey, keys_bytes}
  open S use {
    Signature, verify, sha256, write_deterministic, marshal, unmarshal_entity, parse_uuid,
    is_private,
  }

  permit_registration-Permitted :
      (id : String) (entity : EntityField) (key : PublicKey)
      → Permitted approver (λ a. a.approve_registration id entity key)
      → permit_registration P C S D encode_error approver id entity key ≡ ok tt
  unfolding permit_registration permit
  permit_registration-Permitted id entity key (no_approver n) = rw (n, permit_registration) refl
  permit_registration-Permitted id entity key (agreed a d s q) =
      rw (s, permit_registration) (rw (q, permit) refl)

  pub check_public-all :
      (xpubs : List ExtendedKey)
      → All (λ k. is_private k ≡ false) xpubs
      → check_public P C S xpubs ≡ ok tt
  unfolding check_public
  check_public-all [] h = refl
  check_public-all (k ∷ xpubs) h = ground (arith, check_public-all xpubs h.1)

  -- A registration that is in order: it is signed with its own key, its entity can be stored, the approver
  -- agrees if there is one, and the id is new.
  pub record Registrable (user_id : String) (r : RegisterRequest PublicKey Signature)
      (t : Tables PublicKey) : Type 0 where
    pub message : Bytes
    pub is_message : write_deterministic r.entity ≡ ok message
    pub is_signed : verify r.signature (sha256 (sha256 message)) r.public_key ≡ true
    pub entity : Bytes
    pub is_entity : marshal r.entity ≡ ok entity
    pub stored : EntityField
    pub is_stored : unmarshal_entity entity ≡ ok stored
    pub is_permitted :
        Permitted approver (λ a. a.approve_registration user_id r.entity r.public_key)
    pub is_new : row_exists (λ u. u.id == user_id) t.users ≡ false

  -- The row of a registration.
  abbrev pub new_user : String → ℕ → ℕ → PublicKey → Bytes → User PublicKey
  new_user id created modified key entity = record {
    id = id;
    entity = entity;
    public_key = key;
    date_created = created;
    date_modified = modified;
    is_deleted = false;
  }

  -- A registration that is in order goes through, if the insert does not fail: `Respond` is called with
  -- 200 and the new id, and the tables have one more user, with the entity and the key of the request.
  pub register-Registrable :
      (failures : RegisterRequest PublicKey Signature → List Invalid)
      (decoded : Outcome Error (RegisterRequest PublicKey Signature)) (user_id : String)
      (created modified : ℕ) (w : World (Tables PublicKey) (PayloadOf C S))
      (r : RegisterRequest PublicKey Signature)
      → D.fault users_insert ≡ none
      → unmarshal P failures decoded ≡ ok r
      → (in_order : Registrable user_id r w.tables)
      → register P C S D encode_error approver failures decoded user_id created modified w ≡ (
        ok tt,
        record {
          tables = record w.tables {
            users =
                w.tables.users
                ++ new_user user_id created modified r.public_key in_order.entity ∷ [];
          };
          response =
              respond P encode_error
                (data_body (user_created "User Created" user_id))
                200
                w.response;
        },
      )
  unfolding register register_steps check_signature conclude
  register-Registrable failures decoded user_id created modified w r f u g =
      let p = permit_registration-Permitted user_id r.entity r.public_key g.is_permitted in
      let c =
        create_user-new P D unmarshal_entity
          (new_user user_id created modified r.public_key g.entity) w.tables g.stored f g.is_stored
          g.is_new in
      rw (u, g.is_message, g.is_signed, g.is_entity, p, c) refl

  -- A request for more keys that is in order: the keys are public, it is signed with the key of a user,
  -- and the number of signers fits its column. Who else has the keys does not matter.
  pub record Addable (new_id : String) (r : AddXPubRequest ExtendedKey Signature)
      (t : Tables PublicKey) : Type 0 where
    pub are_public : All (λ k. is_private k ≡ false) r.xpubs
    pub user : User PublicKey
    pub is_user : fetch_user P D r.user_id t ≡ ok user
    pub userid : Bytes
    pub is_userid : parse_uuid r.user_id ≡ ok userid
    pub is_signed :
        verify r.signature
          (sha256 (sha256 (xpub_message P C S D encode_error approver userid r)))
          user.public_key
        ≡ true
    pub fits : is_int32 r.required_signers ≡ true
    pub is_new : row_exists (λ x. x.id == new_id) t.xpubs ≡ false

  -- The row of a request for more keys.
  abbrev pub new_xpub : String → ℕ → AddXPubRequest ExtendedKey Signature → XPub
  new_xpub new_id now r = record {
    id = new_id;
    user_id = r.user_id;
    xpub = keys_bytes r.xpubs;
    required_signers = r.required_signers;
    date_created = now;
  }

  -- A request for more keys that is in order goes through, if the insert does not fail: `Respond` is called
  -- with 200 and no body, and the tables have one more row for the keys, unless the user has these already.
  pub add_xpub-Addable :
      (failures : AddXPubRequest ExtendedKey Signature → List Invalid)
      (decoded : Outcome Error (AddXPubRequest ExtendedKey Signature)) (new_id : String) (now : ℕ)
      (w : World (Tables PublicKey) (PayloadOf C S)) (r : AddXPubRequest ExtendedKey Signature)
      → D.fault xpubs_insert ≡ none
      → unmarshal P failures decoded ≡ ok r
      → Addable new_id r w.tables
      → add_xpub P C S D encode_error approver failures decoded new_id now w ≡ (
        ok tt,
        record {
          tables =
              if row_exists
                (λ x. x.user_id == r.user_id && x.xpub == keys_bytes r.xpubs)
                w.tables.xpubs
              then w.tables
              else record w.tables { xpubs = w.tables.xpubs ++ new_xpub new_id now r ∷ [] };
          response = respond P encode_error no_body 200 w.response;
        },
      )
  unfolding add_xpub add_xpub_steps check_signature conclude
  add_xpub-Addable failures decoded new_id now w r f u g =
      let p = check_public-all r.xpubs g.are_public in
      let (listed, same, alive) = fetch_user-active P D r.user_id w.tables g.user g.is_user in
      let there =
        row_exists-Among (λ v. v.id == r.user_id) w.tables.users g.user listed
          (rw same (==-refl r.user_id)) in
      let c =
        create_xpub-new P D (record (new_xpub new_id now r) { id = "" }) new_id w.tables f g.fits
          g.is_new there in
      rw (u, p, g.is_user, g.is_userid, g.is_signed, c) refl
