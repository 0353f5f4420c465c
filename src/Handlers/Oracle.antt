-- ===== src/Handlers/Oracle.antt =====
-- cmd/identityoracled/handlers/oracle.go: `Identity`, `Register`, `AddXPub`, `User` and
-- `UpdateIdentity`. New ids and the times of the clock are arguments. A number of signers is not
-- negative.
use identity_oracle.Prelude.Int.{ℤ, IsInt64, to_uint32}
use identity_oracle.Prelude.{ℕ, String, ◌++◌, false, Option, none, some, List, if◌then◌else◌}
use identity_oracle.Errors.{
  Outcome, ok, err, panic, ◌>>=◌, Invalid, ErrorsPkg, of_oracle, of_web, invalid_signature,
  web_not_found,
}
use identity_oracle.Entity.{EntityField}
use identity_oracle.Storage.{Bytes, is_db_not_found}
use identity_oracle.MessageId.{write_bytes}
use identity_oracle.Database.{User, Tables, Driver}
use identity_oracle.Users.{create_user, fetch_user, update_user}
use identity_oracle.XPubs.{create_xpub, fetch_user_id_by_xpub}
use identity_oracle.Signing.{Crypto}
use identity_oracle.Web.{Body, no_body, data_body, Handler, respond_data, translate}
use identity_oracle.Handlers.{
  Services, Approver, identity_payload, user_created, user_payload, PayloadOf, Exit, failed, call,
  request, conclude, check_public, permit,
}

pub record RegisterRequest (PublicKey Signature : Type 0) : Type 0 where
  pub entity : EntityField
  pub public_key : PublicKey
  pub signature : Signature

pub record AddXPubRequest (ExtendedKey Signature : Type 0) : Type 0 where
  pub user_id : String
  pub xpubs : List ExtendedKey
  pub required_signers : ℤ
  pub is_int : IsInt64 required_signers
  pub signature : Signature

pub record UpdateIdentityRequest (Signature : Type 0) : Type 0 where
  pub user_id : String
  pub entity : EntityField
  pub signature : Signature

module _ (P : ErrorsPkg) (C : Crypto P.Error) (S : Services P.Error C) (D : Driver P.Error)
    (encode_error : PayloadOf C S → Option P.Error)
    (approver : Option (Approver P.Error C.PublicKey)) where
  open P use {Error, sentinel, kind}
  open C use {ExtendedKey, PublicKey, RawAddress, keys_bytes}
  open S use {Signature, verify, sha256, write_deterministic, marshal, unmarshal_entity, parse_uuid}

  abbrev pub OracleHandler : Type 0
  OracleHandler = Handler (Tables PublicKey) (PayloadOf C S) Error

  abbrev pub Steps : Type 0 → Type 0
  Steps A = Outcome (Exit Error (PayloadOf C S)) A

  abbrev pub Reply : Type 0
  Reply = Tables PublicKey × (Body (PayloadOf C S) × ℕ)

  -- `Identity`
  unfoldable pub identity : RawAddress → PublicKey → OracleHandler
  unfolding respond_data
  identity contract_address key w = (
    ok tt,
    record w {
      response = respond_data P encode_error (identity_payload contract_address key) 200 w.response;
    },
  )

  -- `if !signature.Verify(hash, key) { return translate(ErrInvalidSignature) }`, where the hash is
  -- taken twice.
  unfoldable pub check_signature : Signature → Bytes → PublicKey → Steps (Unit {0})
  check_signature signature message key =
      if verify signature (sha256 (sha256 message)) key
      then ok tt
      else err (failed (translate P (sentinel (of_oracle invalid_signature))))

  -- The question of `Register` to the approver, if there is one.
  unfoldable pub permit_registration : String → EntityField → PublicKey → Steps (Unit {0})
  permit_registration id entity key = elim approver [
    | none ↦ ok tt
    | some a ↦ permit P C S "approve registration" (a.approve_registration id entity key)
  ]

  unfoldable pub register_steps :
      String → ℕ → ℕ → RegisterRequest PublicKey Signature → Tables PublicKey → Steps Reply
  register_steps user_id created modified r t = do
    message ← call P "write entity" (write_deterministic r.entity)
    verified ← check_signature r.signature message r.public_key
    entity_bytes ← call P "protobuf marshal entity" (marshal r.entity)
    permitted ← permit_registration user_id r.entity r.public_key
    t' ← call P "create user" (
        create_user P D unmarshal_entity
          (record {
            id = user_id;
            entity = entity_bytes;
            public_key = r.public_key;
            date_created = created;
            date_modified = modified;
            is_deleted = false;
          })
          t)
    ok (t', (data_body (user_created "User Created" user_id), 200))

  unfoldable pub register :
      (RegisterRequest PublicKey Signature → List Invalid)
      → Outcome Error (RegisterRequest PublicKey Signature)
      → String
      → ℕ
      → ℕ
      → OracleHandler
  register failures decoded user_id created modified w =
      conclude P encode_error w
        (do r ← request P failures decoded; register_steps user_id created modified r w.tables)

  -- The bytes that the signature of `AddXPub` is over.
  abbrev pub xpub_message : Bytes → AddXPubRequest ExtendedKey Signature → Bytes
  xpub_message userid r =
      userid ++ keys_bytes r.xpubs ++ write_bytes 4 (to_uint32 r.required_signers)

  unfoldable pub add_xpub_steps :
      String → ℕ → AddXPubRequest ExtendedKey Signature → Tables PublicKey → Steps Reply
  add_xpub_steps new_id now r t = do
    are_public ← check_public P C S r.xpubs
    user ← call P "fetch user" (fetch_user P D r.user_id t)
    userid ← call P "parse user id" (parse_uuid r.user_id)
    verified ← check_signature r.signature (xpub_message userid r) user.public_key
    t' ← call P "create xpub" (
        create_xpub P D new_id
          (record {
            id = "";
            user_id = r.user_id;
            xpub = keys_bytes r.xpubs;
            required_signers = r.required_signers;
            date_created = now;
          })
          t)
    ok (t', (no_body, 200))

  unfoldable pub add_xpub :
      (AddXPubRequest ExtendedKey Signature → List Invalid)
      → Outcome Error (AddXPubRequest ExtendedKey Signature)
      → String
      → ℕ
      → OracleHandler
  add_xpub failures decoded new_id now w =
      conclude P encode_error w
        (do r ← request P failures decoded; add_xpub_steps new_id now r w.tables)

  -- `User`, whose request is the keys.
  unfoldable pub user_steps : List ExtendedKey → Tables PublicKey → Steps Reply
  user_steps xpubs t = do
    are_public ← check_public P C S xpubs
    user_id ← call P "fetch user" (fetch_user_id_by_xpub P D (keys_bytes xpubs) t)
    ok (t, (data_body (user_payload user_id), 200))

  unfoldable pub user :
      (List ExtendedKey → List Invalid) → Outcome Error (List ExtendedKey) → OracleHandler
  user failures decoded w =
      conclude P encode_error w (do xpubs ← request P failures decoded; user_steps xpubs w.tables)

  -- The user of `UpdateIdentity`, with its test `err == db.ErrNotFound`.
  unfoldable pub fetch_registered : String → Tables PublicKey → Steps (User PublicKey)
  fetch_registered id t = elim (fetch_user P D id t) [
    | ok u ↦ ok u
    | err e ↦
        if is_db_not_found (kind e)
        then err (failed (sentinel (of_web web_not_found)))
        else err (failed (translate P (P.wrap e "fetch user")))
    | panic ↦ panic
  ]

  unfoldable pub permit_update : String → EntityField → Steps (Unit {0})
  permit_update id entity = elim approver [
    | none ↦ ok tt
    | some a ↦ permit P C S "approve update entity" (a.update_identity id entity)
  ]

  unfoldable pub update_identity_steps :
      ℕ → UpdateIdentityRequest Signature → Tables PublicKey → Steps Reply
  update_identity_steps now r t = do
    u ← fetch_registered r.user_id t
    user_id ← call P "parse user id" (parse_uuid r.user_id)
    entity_text ← call P "write entity" (write_deterministic r.entity)
    verified ← check_signature r.signature (user_id ++ entity_text) u.public_key
    permitted ← permit_update u.id r.entity
    entity_bytes ← call P "protobuf marshal entity" (marshal r.entity)
    t' ←
        call P "update user"
          (update_user P D unmarshal_entity now (record u { entity = entity_bytes }) t)
    ok (t', (no_body, 200))

  unfoldable pub update_identity :
      (UpdateIdentityRequest Signature → List Invalid)
      → Outcome Error (UpdateIdentityRequest Signature)
      → ℕ
      → OracleHandler
  update_identity failures decoded now w =
      conclude P encode_error w
        (do r ← request P failures decoded; update_identity_steps now r w.tables)
