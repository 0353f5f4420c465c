-- ===== src/Handlers/Transfers.antt =====
-- cmd/identityoracled/handlers/transfers.go: `TransferSignature`. The time of the clock is an
-- argument.
use identity_oracle.Prelude.{ℕ, String, Bool, true, Option, none, some, List}
use identity_oracle.Errors.{Outcome, ok, err, panic, ◌>>=◌, Text, empty, Invalid, ErrorsPkg}
use identity_oracle.Database.{Tables, Driver}
use identity_oracle.Users.{fetch_user_by_xpub}
use identity_oracle.Signing.{Crypto, create_receive_signature}
use identity_oracle.Web.{Body, data_body, Handler}
use identity_oracle.Handlers.{
  Services, Approver, transfer_payload, PayloadOf, Exit, silent, call, request, conclude,
  check_public, expiration_at,
}

pub record TransferRequest (ExtendedKey : Type 0) : Type 0 where
  pub xpubs : List ExtendedKey
  pub index : ℕ
  pub contract : String
  pub instrument_id : String

module _ (P : ErrorsPkg) (C : Crypto P.Error) (S : Services P.Error C) (D : Driver P.Error)
    (encode_error : PayloadOf C S → Option P.Error)
    (approver : Option (Approver P.Error C.PublicKey)) where
  open P use {Error}
  open C use {ExtendedKey, PublicKey, Hash, keys_bytes}
  open S use {sign}

  -- The answer of the approver. After its error the handler wraps the nil `err` of the fetch, and
  -- `errors.Wrap` and `translate` of nil are nil.
  unfoldable pub approve_transfer :
      String → String → String → Outcome (Exit Error (PayloadOf C S)) (Bool × Text)
  approve_transfer contract instrument user_id = elim approver [
    | none ↦ ok (true, empty)
    | some a ↦ elim (a.approve_transfer contract instrument user_id) [
      | ok answer ↦ ok answer
      | err e ↦ err silent
      | panic ↦ panic
    ]
  ]

  unfoldable pub transfer_steps :
      ℕ
      → ℕ
      → Outcome Error (Hash × ℕ)
      → TransferRequest ExtendedKey
      → Tables PublicKey
      → Outcome (Exit Error (PayloadOf C S)) (Tables PublicKey × (Body (PayloadOf C S) × ℕ))
  transfer_steps now seconds headers r t = do
    are_public ← check_public P C S r.xpubs
    user ← call P "fetch user" (fetch_user_by_xpub P D (keys_bytes r.xpubs) t)
    (approved, description) ← approve_transfer r.contract r.instrument_id user.id
    (sig_hash, (height, block_hash)) ← call P "create signature" (
        create_receive_signature P C D t headers r.contract r.instrument_id r.xpubs r.index
          (expiration_at now seconds) approved)
    sig ← call P "sign" (sign sig_hash)
    ok (
      t,
      (
        data_body (
            transfer_payload approved description 1 sig height block_hash
              (expiration_at now seconds)),
        200,
      ),
    )

  unfoldable pub transfer_signature :
      (TransferRequest ExtendedKey → List Invalid)
      → Outcome Error (TransferRequest ExtendedKey)
      → ℕ
      → ℕ
      → Outcome Error (Hash × ℕ)
      → Handler (Tables PublicKey) (PayloadOf C S) Error
  transfer_signature failures decoded now seconds headers w =
      conclude P encode_error w
        (do r ← request P failures decoded; transfer_steps now seconds headers r w.tables)
