-- ===== src/Handlers/Verify.antt =====
-- cmd/identityoracled/handlers/identity.go: `PubKeySignature`, `XPubSignature` and
-- `AdminCertificate`.
use identity_oracle.Prelude.{ℕ, Option, none, some, List, [], ◌∷◌}
use identity_oracle.Errors.{Outcome, ok, ◌>>=◌, Invalid, ErrorsPkg}
use identity_oracle.Entity.{EntityField}
use identity_oracle.Database.{Tables, Driver}
use identity_oracle.Users.{fetch_user_by_xpub}
use identity_oracle.Formations.{ContractFormation}
use identity_oracle.Signing.{Crypto, verify_pub_key, verify_xpub, create_admin_certificate}
use identity_oracle.Web.{Body, data_body, Handler}
use identity_oracle.Handlers.{
  Services, Approver, signature_payload, certificate_payload, PayloadOf, Exit, call, request,
  conclude, check_public, permit, expiration_at,
}

pub record PubKeyRequest (ExtendedKey : Type 0) : Type 0 where
  pub xpub : ExtendedKey
  pub index : ℕ
  pub entity : EntityField

pub record XPubRequest (ExtendedKey : Type 0) : Type 0 where
  pub xpubs : List ExtendedKey
  pub entity : EntityField

pub record AdminRequest (ExtendedKey RawAddress : Type 0) : Type 0 where
  pub xpubs : List ExtendedKey
  pub index : ℕ
  pub issuer : EntityField
  pub contract : RawAddress

module _ (P : ErrorsPkg) (C : Crypto P.Error) (S : Services P.Error C) (D : Driver P.Error)
    (encode_error : PayloadOf C S → Option P.Error)
    (approver : Option (Approver P.Error C.PublicKey))
    (headers : Outcome P.Error (C.Hash × ℕ)) where
  open P use {Error}
  open C use {ExtendedKey, PublicKey, Hash, RawAddress, keys_bytes}
  open S use {sign, unmarshal_entity}

  abbrev pub VerifySteps : Type 0 → Type 0
  VerifySteps A = Outcome (Exit Error (PayloadOf C S)) A

  abbrev pub VerifyReply : Type 0
  VerifyReply = Tables PublicKey × (Body (PayloadOf C S) × ℕ)

  unfoldable pub permit_identity : Prim.Native.String.String → VerifySteps (Unit {0})
  permit_identity id = elim approver [
    | none ↦ ok tt
    | some a ↦ permit P C S "approve identity" (a.approve_identity id)
  ]

  unfoldable pub pub_key_steps :
      PubKeyRequest ExtendedKey → Tables PublicKey → VerifySteps VerifyReply
  pub_key_steps r t = do
    is_public ← check_public P C S (r.xpub ∷ [])
    user ← call P "fetch user" (fetch_user_by_xpub P D (keys_bytes (r.xpub ∷ [])) t)
    permitted ← permit_identity user.id
    s ←
        call P "verify pub key"
          (verify_pub_key P C unmarshal_entity user headers r.entity r.xpub r.index)
    sig ← call P "sign" (sign s.hash)
    ok (t, (data_body (signature_payload s.approved s.description 1 sig s.block_height), 200))

  unfoldable pub pub_key_signature :
      (PubKeyRequest ExtendedKey → List Invalid)
      → Outcome Error (PubKeyRequest ExtendedKey)
      → Handler (Tables PublicKey) (PayloadOf C S) Error
  pub_key_signature failures decoded w =
      conclude P encode_error w (do r ← request P failures decoded; pub_key_steps r w.tables)

  unfoldable pub xpub_steps : XPubRequest ExtendedKey → Tables PublicKey → VerifySteps VerifyReply
  xpub_steps r t = do
    are_public ← check_public P C S r.xpubs
    user ← call P "fetch user" (fetch_user_by_xpub P D (keys_bytes r.xpubs) t)
    permitted ← permit_identity user.id
    s ← call P "verify xpub" (verify_xpub P C unmarshal_entity user headers r.entity r.xpubs)
    sig ← call P "sign" (sign s.hash)
    ok (t, (data_body (signature_payload s.approved s.description 1 sig s.block_height), 200))

  unfoldable pub xpub_signature :
      (XPubRequest ExtendedKey → List Invalid)
      → Outcome Error (XPubRequest ExtendedKey)
      → Handler (Tables PublicKey) (PayloadOf C S) Error
  xpub_signature failures decoded w =
      conclude P encode_error w (do r ← request P failures decoded; xpub_steps r w.tables)

  unfoldable pub admin_steps :
      (RawAddress → Outcome Error ContractFormation)
      → ℕ
      → AdminRequest ExtendedKey RawAddress
      → Tables PublicKey
      → VerifySteps VerifyReply
  admin_steps contracts expiration r t = do
    are_public ← check_public P C S r.xpubs
    user ← call P "fetch user" (fetch_user_by_xpub P D (keys_bytes r.xpubs) t)
    permitted ← permit_identity user.id
    s ← call P "verify admin" (
        create_admin_certificate P C D unmarshal_entity t user headers contracts r.xpubs r.index
          r.issuer r.contract expiration)
    sig ← call P "sign" (sign s.hash)
    ok (
      t,
      (data_body (certificate_payload s.approved s.description sig s.block_height expiration), 200),
    )

  -- `now` is what the clock says, `seconds` the configured duration.
  unfoldable pub admin_certificate :
      (AdminRequest ExtendedKey RawAddress → List Invalid)
      → Outcome Error (AdminRequest ExtendedKey RawAddress)
      → (RawAddress → Outcome Error ContractFormation)
      → ℕ
      → ℕ
      → Handler (Tables PublicKey) (PayloadOf C S) Error
  admin_certificate failures decoded contracts now seconds w = conclude P encode_error w (do
    r ← request P failures decoded
    admin_steps contracts (expiration_at now seconds) r w.tables)
