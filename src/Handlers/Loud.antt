-- ===== src/Handlers/Loud.antt =====
-- The steps of the handlers that may end a request: none of them does so in silence or with the status of
-- success, unless the approver fails on a transfer.
use identity_oracle.Prelude.{
  ℕ, String, ◌≡◌, inl, inr, true, false, Option, List, [], ◌∷◌, arith, Bool-cases, Option-cases,
  Bool, ◌≢◌, some,
}
use identity_oracle.Errors.{Outcome, ok, err, panic, Outcome-cases, Text, ErrorsPkg}
use identity_oracle.Entity.{EntityField}
use identity_oracle.Storage.{Bytes, is_db_not_found}
use identity_oracle.Database.{Tables, Driver}
use identity_oracle.Users.{fetch_user}
use identity_oracle.Signing.{Crypto}
use identity_oracle.Handlers.{Services, Approver, PayloadOf, check_public, permit}
use identity_oracle.Handlers.Oracle.{
  check_signature, permit_registration, permit_update, fetch_registered,
}
use identity_oracle.Handlers.Answers.{IsLoud}
use identity_oracle.Handlers.Verify.{permit_identity}
use identity_oracle.Handlers.Transfers.{approve_transfer}

module _ (P : ErrorsPkg) (C : Crypto P.Error) (S : Services P.Error C)
    (encode_error : PayloadOf C S → Option P.Error) where
  open P use {Error}
  open C use {ExtendedKey}

  pub check_public-IsLoud :
      (xpubs : List ExtendedKey) → IsLoud P encode_error (check_public P C S xpubs)
  unfolding check_public
  check_public-IsLoud [] = tt
  check_public-IsLoud (k ∷ xpubs) = elim (Bool-cases (S.is_private k)) [
    | inl y ↦ rw (y, check_public) (λ p. omega arith)
    | inr n ↦ rw (n, check_public) (check_public-IsLoud xpubs)
  ]

  pub permit-IsLoud :
      (text : String) (answer : Outcome Error (Bool × Text))
      → IsLoud P encode_error (permit P C S text answer)
  unfolding permit
  permit-IsLoud text (ok (true, description)) = tt
  permit-IsLoud text (ok (false, description)) = λ p. omega arith
  permit-IsLoud text (err e) = tt
  permit-IsLoud text panic = tt

  module _ (D : Driver P.Error) where
    open C use {PublicKey, keys_bytes}
    open S use {
      Signature, verify, sha256, write_deterministic, marshal, unmarshal_entity, parse_uuid,
    }

    module _ (approver : Option (Approver Error PublicKey)) where
      pub check_signature-IsLoud :
          (signature : Signature) (message : Bytes) (key : PublicKey)
          → IsLoud P encode_error
              (check_signature P C S D encode_error approver signature message key)
      unfolding check_signature
      check_signature-IsLoud signature message key =
          elim (Bool-cases (verify signature (sha256 (sha256 message)) key)) [
            | inl y ↦ rw (y, check_signature) tt
            | inr n ↦ rw (n, check_signature) tt
          ]

      pub permit_registration-IsLoud :
          (id : String) (entity : EntityField) (key : PublicKey)
          → IsLoud P encode_error (permit_registration P C S D encode_error approver id entity key)
      unfolding permit_registration
      permit_registration-IsLoud id entity key = elim (Option-cases approver) [
        | inl q ↦ rw (q, permit_registration) tt
        | inr (a, q) ↦
            rw (q, permit_registration)
              (permit-IsLoud "approve registration" (a.approve_registration id entity key))
      ]

      pub permit_update-IsLoud :
          (id : String) (entity : EntityField)
          → IsLoud P encode_error (permit_update P C S D encode_error approver id entity)
      unfolding permit_update
      permit_update-IsLoud id entity = elim (Option-cases approver) [
        | inl q ↦ rw (q, permit_update) tt
        | inr (a, q) ↦
            rw (q, permit_update)
              (permit-IsLoud "approve update entity" (a.update_identity id entity))
      ]

      pub fetch_registered-IsLoud :
          (id : String) (t : Tables PublicKey)
          → IsLoud P encode_error (fetch_registered P C S D encode_error approver id t)
      unfolding fetch_registered
      fetch_registered-IsLoud id t = elim (Outcome-cases (fetch_user P D id t)) [
        | inl (u, q) ↦ rw (q, fetch_registered) tt
        | inr (inl (e, q)) ↦ elim (Bool-cases (is_db_not_found (P.kind e))) [
          | inl y ↦ rw (q, fetch_registered) (rw y tt)
          | inr n ↦ rw (q, fetch_registered) (rw n tt)
        ]
        | inr (inr q) ↦ rw (q, fetch_registered) tt
      ]

      -- The approver's answers to transfers are not errors.
      abbrev pub IsAnswering : Type 0
      IsAnswering =
          (a : Approver Error PublicKey)
          → approver ≡ some a
          → (contract instrument id : String) (e : Error)
          → a.approve_transfer contract instrument id ≢ err e

      pub permit_identity-IsLoud :
          (headers : Outcome Error (C.Hash × ℕ)) (id : String)
          → IsLoud P encode_error (permit_identity P C S D encode_error approver headers id)
      unfolding permit_identity
      permit_identity-IsLoud headers id = elim (Option-cases approver) [
        | inl q ↦ rw (q, permit_identity) tt
        | inr (a, q) ↦
            rw (q, permit_identity) (permit-IsLoud "approve identity" (a.approve_identity id))
      ]

      pub approve_transfer-IsLoud :
          (contract instrument id : String)
          → IsAnswering
          → IsLoud P encode_error
              (approve_transfer P C S D encode_error approver contract instrument id)
      unfolding approve_transfer
      approve_transfer-IsLoud contract instrument id h = elim (Option-cases approver) [
        | inl q ↦ rw (q, approve_transfer) tt
        | inr (a, q) ↦ elim (Outcome-cases (a.approve_transfer contract instrument id)) [
          | inl (answer, e) ↦ rw (q, approve_transfer) (rw e tt)
          | inr (inl (x, e)) ↦ absurd (h a q contract instrument id x e)
          | inr (inr e) ↦ rw (q, approve_transfer) (rw e tt)
        ]
      ]
