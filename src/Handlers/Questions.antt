-- ===== src/Handlers/Questions.antt =====
-- The requests that ask for a user or a signature: `User` of handlers/oracle.go and the handlers of
-- handlers/identity.go and transfers.go.
use identity_oracle.Prelude.{ℕ, ◌≡◌, refl, Option, List}
use identity_oracle.Errors.{Outcome, ◌>>=◌, Invalid, ErrorsPkg}
use identity_oracle.Database.{Tables, Driver}
use identity_oracle.Formations.{ContractFormation}
use identity_oracle.Signing.{Crypto}
use identity_oracle.Web.{Body, World, Handler}
use identity_oracle.Handlers.{Services, Approver, PayloadOf, Exit, request, conclude, expiration_at}
use identity_oracle.Handlers.Oracle.{user_steps, user}
use identity_oracle.Handlers.Verify.{
  PubKeyRequest, XPubRequest, AdminRequest, pub_key_steps, pub_key_signature, xpub_steps,
  xpub_signature, admin_steps, admin_certificate,
}
use identity_oracle.Handlers.Transfers.{TransferRequest, transfer_steps, transfer_signature}

module _ (P : ErrorsPkg) (C : Crypto P.Error) (S : Services P.Error C) (D : Driver P.Error)
    (encode_error : PayloadOf C S → Option P.Error)
    (approver : Option (Approver P.Error C.PublicKey))
    (headers : Outcome P.Error (C.Hash × ℕ)) where
  open P use {Error}
  open C use {ExtendedKey, PublicKey, RawAddress, keys_bytes}
  open S use {sign, unmarshal_entity}

  -- A request that asks for a user or a signature.
  pub data Question : Type 0 where
    of_user : (List ExtendedKey → List Invalid) → Outcome Error (List ExtendedKey) → Question
    of_pub_key :
        (PubKeyRequest ExtendedKey → List Invalid)
        → Outcome Error (PubKeyRequest ExtendedKey)
        → Question
    of_xpub :
        (XPubRequest ExtendedKey → List Invalid)
        → Outcome Error (XPubRequest ExtendedKey)
        → Question
    of_admin :
        (AdminRequest ExtendedKey RawAddress → List Invalid)
        → Outcome Error (AdminRequest ExtendedKey RawAddress)
        → (RawAddress → Outcome Error ContractFormation)
        → ℕ
        → ℕ
        → Question
    of_transfer :
        (TransferRequest ExtendedKey → List Invalid)
        → Outcome Error (TransferRequest ExtendedKey)
        → ℕ
        → ℕ
        → Question

  abbrev pub question_steps :
      Question
      → Tables PublicKey
      → Outcome (Exit Error (PayloadOf C S)) (Tables PublicKey × (Body (PayloadOf C S) × ℕ))
  question_steps (of_user failures decoded) t = do
    xpubs ← request P failures decoded
    user_steps P C S D encode_error approver xpubs t
  question_steps (of_pub_key failures decoded) t = do
    r ← request P failures decoded
    pub_key_steps P C S D encode_error approver headers r t
  question_steps (of_xpub failures decoded) t = do
    r ← request P failures decoded
    xpub_steps P C S D encode_error approver headers r t
  question_steps (of_admin failures decoded contracts now seconds) t = do
    r ← request P failures decoded
    admin_steps P C S D encode_error approver headers contracts (expiration_at now seconds) r t
  question_steps (of_transfer failures decoded now seconds) t = do
    r ← request P failures decoded
    transfer_steps P C S D encode_error approver now seconds headers r t

  abbrev pub question_handler : Question → Handler (Tables PublicKey) (PayloadOf C S) Error
  question_handler (of_user failures decoded) = user P C S D encode_error approver failures decoded
  question_handler (of_pub_key failures decoded) =
      pub_key_signature P C S D encode_error approver headers failures decoded
  question_handler (of_xpub failures decoded) =
      xpub_signature P C S D encode_error approver headers failures decoded
  question_handler (of_admin failures decoded contracts now seconds) =
      admin_certificate P C S D encode_error approver headers failures decoded contracts now seconds
  question_handler (of_transfer failures decoded now seconds) =
      transfer_signature P C S D encode_error approver failures decoded now seconds headers

  pub question_handler-steps :
      (q : Question) (w : World (Tables PublicKey) (PayloadOf C S))
      → question_handler q w ≡ conclude P encode_error w (question_steps q w.tables)
  unfolding user pub_key_signature xpub_signature admin_certificate transfer_signature
  question_handler-steps (of_user failures decoded) w = refl
  question_handler-steps (of_pub_key failures decoded) w = refl
  question_handler-steps (of_xpub failures decoded) w = refl
  question_handler-steps (of_admin failures decoded contracts now seconds) w = refl
  question_handler-steps (of_transfer failures decoded now seconds) w = refl
