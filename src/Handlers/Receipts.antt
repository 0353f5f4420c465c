-- ===== src/Handlers/Receipts.antt =====
-- What `TransferSignature` of handlers/transfers.go signs and answers.
use identity_oracle.Prelude.{ℕ, ◌≡◌, ap, Bool, false, Option, All}
use identity_oracle.Errors.{Outcome, ok, Text, ErrorsPkg}
use identity_oracle.Errors.Inversion.{bind-ok, ok-injective}
use identity_oracle.Database.{User, Tables, Driver}
use identity_oracle.Users.{fetch_user_by_xpub}
use identity_oracle.Signing.{Crypto, create_receive_signature}
use identity_oracle.Web.{Body, data_body}
use identity_oracle.Handlers.{
  Services, Approver, transfer_payload, PayloadOf, check_public, expiration_at,
}
use identity_oracle.Handlers.Transfers.{TransferRequest, approve_transfer, transfer_steps}
use identity_oracle.Handlers.Steps.{call-ok, check_public-ok}

module _ (P : ErrorsPkg) (C : Crypto P.Error) (S : Services P.Error C) (D : Driver P.Error)
    (encode_error : PayloadOf C S → Option P.Error)
    (approver : Option (Approver P.Error C.PublicKey)) where
  open P use {Error}
  open C use {ExtendedKey, PublicKey, Hash, keys_bytes}
  open S use {sign, Signature, is_private}

  -- The answer to a request for a receipt: of a user who owns the keys, none of them private, with the
  -- approver's decision on this user, the hash that `CreateReceiveSignature` makes of this decision and
  -- of the expiration in the answer, and the signature of this hash.
  pub record Receipt (now seconds : ℕ) (headers : Outcome Error (Hash × ℕ))
      (r : TransferRequest ExtendedKey) (t : Tables PublicKey) (answer : Body (PayloadOf C S) × ℕ)
      : Type 0 where
    pub are_public : All (λ k. is_private k ≡ false) r.xpubs
    pub user : User PublicKey
    pub is_user : fetch_user_by_xpub P D (keys_bytes r.xpubs) t ≡ ok user
    pub approved : Bool
    pub description : Text
    pub is_decided :
        approve_transfer P C S D encode_error approver r.contract r.instrument_id user.id
        ≡ ok (approved, description)
    pub hash : Hash
    pub height : ℕ
    pub block_hash : Hash
    pub is_hashed :
        create_receive_signature P C D t headers r.contract r.instrument_id r.xpubs r.index
          (expiration_at now seconds)
          approved
        ≡ ok (hash, (height, block_hash))
    pub signature : Signature
    pub is_signed : sign hash ≡ ok signature
    pub is_answer :
        (
          data_body (
              transfer_payload approved description 1 signature height block_hash
                (expiration_at now seconds)),
          200,
        )
        ≡ answer

  -- An answer of `TransferSignature` carries the signature of a hash of the approver's decision, which
  -- is also the flag of the answer, for a user who owns the keys, and the tables are not changed.
  pub transfer_steps-Receipt :
      (now seconds : ℕ) (headers : Outcome Error (Hash × ℕ)) (r : TransferRequest ExtendedKey)
      (t t' : Tables PublicKey) (answer : Body (PayloadOf C S) × ℕ)
      → transfer_steps P C S D encode_error approver now seconds headers r t ≡ ok (t', answer)
      → (t ≡ t') × Receipt now seconds headers r t answer
  unfolding transfer_steps
  transfer_steps-Receipt now seconds headers r t t' answer e =
      let out : Tables PublicKey × (Body (PayloadOf C S) × ℕ) = (t', answer) in
      let (p, k, e₁) = bind-ok (check_public P C S r.xpubs) _ out e in
      let (user, u, e₂) =
        call-ok P "fetch user" (fetch_user_by_xpub P D (keys_bytes r.xpubs) t) _ out e₁ in
      let ((approved, description), a, e₃) =
        bind-ok (approve_transfer P C S D encode_error approver r.contract r.instrument_id user.id)
          _ out e₂ in
      let ((hash, (height, block)), h, e₄) =
        call-ok P "create signature"
          (create_receive_signature P C D t headers r.contract r.instrument_id r.xpubs r.index
            (expiration_at now seconds) approved)
          _ out e₃ in
      let (sig, g, e₅) = call-ok P "sign" (sign hash) _ out e₄ in
      let same =
        ok-injective
          (
            t,
            (
              data_body (
                  transfer_payload approved description 1 sig height block
                    (expiration_at now seconds)),
              200,
            ),
          )
          out e₅ in
      (
        ap (λ (x : Tables PublicKey × (Body (PayloadOf C S) × ℕ)). x.0) same,
        record {
          are_public = check_public-ok P C S r.xpubs k;
          user = user;
          is_user = u;
          approved = approved;
          description = description;
          is_decided = a;
          hash = hash;
          height = height;
          block_hash = block;
          is_hashed = h;
          signature = sig;
          is_signed = g;
          is_answer = ap (λ (x : Tables PublicKey × (Body (PayloadOf C S) × ℕ)). x.1) same;
        },
      )
