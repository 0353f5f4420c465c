-- ===== src/Handlers/Api.antt =====
-- cmd/identityoracled/handlers/routes.go: `API`, the routes of the service. What `API` is given, and
-- the validator, is `Environment`; what a request and its surroundings bring is `Incoming`: what the
-- JSON decoder makes of the body, the next id, the clock, the last block, the contracts, and the
-- state of the database.
use identity_oracle.Prelude.{ℕ, String, Option, some, List, [], ◌∷◌}
use identity_oracle.Errors.{Outcome, Invalid, ErrorsPkg}
use identity_oracle.Database.{Tables, Driver}
use identity_oracle.Formations.{ContractFormation}
use identity_oracle.Signing.{Crypto}
use identity_oracle.Web.{Handler}
use identity_oracle.Web.Chain.{cors_handler, cors, error_handler}
use identity_oracle.Web.App.{App, new, handle_options, handle}
use identity_oracle.Handlers.{Services, Approver, status_payload, PayloadOf}
use identity_oracle.Handlers.Oracle.{
  RegisterRequest, AddXPubRequest, UpdateIdentityRequest, identity, register, add_xpub, user,
  update_identity,
}
use identity_oracle.Handlers.Verify.{
  PubKeyRequest, XPubRequest, AdminRequest, pub_key_signature, xpub_signature, admin_certificate,
}
use identity_oracle.Handlers.Transfers.{TransferRequest, transfer_signature}
use identity_oracle.Handlers.Health.{health}

module _ (P : ErrorsPkg) (C : Crypto P.Error) (S : Services P.Error C) where
  open P use {Error}
  open C use {ExtendedKey, PublicKey, RawAddress, Hash}
  open S use {Signature}

  -- The fields that the validator refuses, for each type of request.
  pub record Validator : Type 0 where
    pub register_failures : RegisterRequest PublicKey Signature → List Invalid
    pub add_xpub_failures : AddXPubRequest ExtendedKey Signature → List Invalid
    pub user_failures : List ExtendedKey → List Invalid
    pub update_identity_failures : UpdateIdentityRequest Signature → List Invalid
    pub transfer_failures : TransferRequest ExtendedKey → List Invalid
    pub pub_key_failures : PubKeyRequest ExtendedKey → List Invalid
    pub xpub_failures : XPubRequest ExtendedKey → List Invalid
    pub admin_failures : AdminRequest ExtendedKey RawAddress → List Invalid

  pub record Environment : Type 0 where
    pub validator : Validator
    pub key : PublicKey
    pub contract_address : RawAddress
    pub transfer_expiration_duration_seconds : ℕ
    pub identity_expiration_duration_seconds : ℕ
    pub approver : Option (Approver Error PublicKey)

  -- The decoded body, as the type of request that each handler reads.
  pub record Decoded : Type 0 where
    pub as_register : Outcome Error (RegisterRequest PublicKey Signature)
    pub as_add_xpub : Outcome Error (AddXPubRequest ExtendedKey Signature)
    pub as_user : Outcome Error (List ExtendedKey)
    pub as_update_identity : Outcome Error (UpdateIdentityRequest Signature)
    pub as_transfer : Outcome Error (TransferRequest ExtendedKey)
    pub as_pub_key : Outcome Error (PubKeyRequest ExtendedKey)
    pub as_xpub : Outcome Error (XPubRequest ExtendedKey)
    pub as_admin : Outcome Error (AdminRequest ExtendedKey RawAddress)

  pub record Incoming : Type 0 where
    pub decoded : Decoded
    pub new_id : String
    pub created : ℕ
    pub now : ℕ
    pub headers : Outcome Error (Hash × ℕ)
    pub contracts : RawAddress → Outcome Error ContractFormation
    pub checked : Outcome Error (Unit {0})

module _ (P : ErrorsPkg) (C : Crypto P.Error) (S : Services P.Error C) (D : Driver P.Error)
    (encode_error : PayloadOf C S → Option P.Error) (env : Environment P C S)
    (incoming : Incoming P C S) where
  open P use {Error}
  open C use {PublicKey}

  abbrev pub OracleApp : Type 0
  OracleApp = App (Tables PublicKey) (PayloadOf C S) Error

  -- `web.New(config, mid.ErrorHandler, mid.CORS)`, with the handler for `OPTIONS`.
  abbrev pub base : OracleApp
  base = handle_options cors_handler (
      new (
        (λ is_options. some (error_handler P encode_error))
        ∷ (λ is_options. some (cors is_options))
        ∷ []))

  -- `app.Handle` without middleware of its own.
  abbrev pub mount :
      String → String → Handler (Tables PublicKey) (PayloadOf C S) Error → OracleApp → OracleApp
  mount verb path handler app = handle P encode_error verb path handler [] app

  abbrev pub with_oracle : OracleApp → OracleApp
  with_oracle app =
      let validator = env.validator in
      let decoded = incoming.decoded in
      mount "POST" "/oracle/updateIdentity"
        (update_identity P C S D encode_error env.approver validator.update_identity_failures
          decoded.as_update_identity incoming.now)
        (mount "POST" "/oracle/user"
          (user P C S D encode_error env.approver validator.user_failures decoded.as_user)
          (mount "POST" "/oracle/addXPub"
            (add_xpub P C S D encode_error env.approver validator.add_xpub_failures
              decoded.as_add_xpub incoming.new_id incoming.now)
            (mount "POST" "/oracle/register"
              (register P C S D encode_error env.approver validator.register_failures
                decoded.as_register incoming.new_id incoming.created incoming.now)
              (mount "GET" "/oracle/id"
                (identity P C S D encode_error env.approver env.contract_address env.key) app))))

  abbrev pub with_transfers : OracleApp → OracleApp
  with_transfers app =
      mount "POST" "/transfer/approve"
        (transfer_signature P C S D encode_error env.approver env.validator.transfer_failures
          incoming.decoded.as_transfer incoming.now env.transfer_expiration_duration_seconds
          incoming.headers)
        app

  abbrev pub with_verify : OracleApp → OracleApp
  with_verify app =
      let validator = env.validator in
      let decoded = incoming.decoded in
      mount "POST" "/identity/verifyAdmin"
        (admin_certificate P C S D encode_error env.approver incoming.headers
          validator.admin_failures decoded.as_admin incoming.contracts incoming.now
          env.identity_expiration_duration_seconds)
        (mount "POST" "/identity/verifyXPub"
          (xpub_signature P C S D encode_error env.approver incoming.headers validator.xpub_failures
            decoded.as_xpub)
          (mount "POST" "/identity/verifyPubKey"
            (pub_key_signature P C S D encode_error env.approver incoming.headers
              validator.pub_key_failures decoded.as_pub_key)
            app))

  -- `API`
  unfoldable pub api : OracleApp
  api = with_verify (
      with_transfers (
        with_oracle
          (mount "GET" "/health" (health P encode_error status_payload incoming.checked) base)))
