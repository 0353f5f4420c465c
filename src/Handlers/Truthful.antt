-- ===== src/Handlers/Truthful.antt =====
-- `Register`, `AddXPub` and `UpdateIdentity` of handlers/oracle.go, as they are mounted: the status of the
-- answer says whether the write was made.
use identity_oracle.Prelude.{ℕ, Option}
use identity_oracle.Errors.{Outcome, ◌>>=◌, ErrorsPkg}
use identity_oracle.Database.{Tables, Driver}
use identity_oracle.Signing.{Crypto}
use identity_oracle.Web.{Body, Handler}
use identity_oracle.Handlers.{Services, PayloadOf, Exit, request}
use identity_oracle.Handlers.Oracle.{
  register_steps, register, add_xpub_steps, add_xpub, update_identity_steps, update_identity,
}
use identity_oracle.Handlers.Runs.{Request, to_register, to_add_xpub, to_update_identity}

module _ (P : ErrorsPkg) (C : Crypto P.Error) (S : Services P.Error C)
    (encode_error : PayloadOf C S → Option P.Error) where
  open P use {Error}
  open C use {ExtendedKey}

  module _ (D : Driver P.Error) where
    open C use {PublicKey, keys_bytes}
    open S use {
      Signature, verify, sha256, write_deterministic, marshal, unmarshal_entity, parse_uuid,
    }

    -- What a request that writes does before it answers.
    abbrev pub steps_of :
        Request P C S D encode_error
        → Tables PublicKey
        → Outcome (Exit Error (PayloadOf C S)) (Tables PublicKey × (Body (PayloadOf C S) × ℕ))
    steps_of (to_register approver failures decoded id created modified) t = do
      r ← request P failures decoded
      register_steps P C S D encode_error approver id created modified r t
    steps_of (to_add_xpub approver failures decoded id now) t = do
      r ← request P failures decoded
      add_xpub_steps P C S D encode_error approver id now r t
    steps_of (to_update_identity approver failures decoded now) t = do
      r ← request P failures decoded
      update_identity_steps P C S D encode_error approver now r t

    abbrev pub handler_of :
        Request P C S D encode_error → Handler (Tables PublicKey) (PayloadOf C S) Error
    handler_of (to_register approver failures decoded id created modified) =
        register P C S D encode_error approver failures decoded id created modified
    handler_of (to_add_xpub approver failures decoded id now) =
        add_xpub P C S D encode_error approver failures decoded id now
    handler_of (to_update_identity approver failures decoded now) =
        update_identity P C S D encode_error approver failures decoded now
