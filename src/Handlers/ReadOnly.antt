-- ===== src/Handlers/ReadOnly.antt =====
-- The handlers that never change the tables.
use identity_oracle.Prelude.{ℕ, ◌≡◌, refl, ◌∙◌, sym, ap, inl, inr, Option, List}
use identity_oracle.Errors.{Outcome, ok, err, panic, ◌>>=◌, Text, Invalid, ErrorsPkg}
use identity_oracle.Errors.Inversion.{bind-ok, ok-injective}
use identity_oracle.Database.{Tables, Driver}
use identity_oracle.Users.{fetch_user_by_xpub}
use identity_oracle.XPubs.{fetch_user_id_by_xpub}
use identity_oracle.Formations.{ContractFormation}
use identity_oracle.Signing.{Crypto, verify_xpub}
use identity_oracle.Web.{Body, data_body, World, Handler, unmarshal}
use identity_oracle.Handlers.{
  Services, Approver, user_payload, signature_payload, PayloadOf, Exit, request, check_public,
  conclude, expiration_at,
}
use identity_oracle.Handlers.Oracle.{identity, user_steps, user}
use identity_oracle.Handlers.Verify.{
  PubKeyRequest, XPubRequest, AdminRequest, permit_identity, pub_key_signature, pub_key_steps,
  xpub_signature, xpub_steps, admin_certificate, admin_steps,
}
use identity_oracle.Handlers.Transfers.{TransferRequest, transfer_signature, transfer_steps}
use identity_oracle.Handlers.Health.{health}
use identity_oracle.Handlers.Steps.{call-ok, conclude-tables}
use identity_oracle.Handlers.Certificates.{pub_key_steps-Vouched, admin_steps-Vouched}
use identity_oracle.Handlers.Receipts.{transfer_steps-Receipt}

-- A handler that leaves the tables alone.
abbrev pub IsReadOnly : {T D E : Type 0} → Handler T D E → Type 0
IsReadOnly {T} {D} {E} h = (w : World T D) → (h w).1.tables ≡ w.tables

-- Steps on a decoded request that leave the tables alone make such a handler.
conclude-IsReadOnly :
    (P : ErrorsPkg) {T D A : Type 0} (encode_error : D → Option P.Error)
    (failures : A → List Invalid) (decoded : Outcome P.Error A)
    (steps : A → T → Outcome (Exit P.Error D) (T × (Body D × ℕ)))
    → ((a : A) (t t' : T) (answer : Body D × ℕ) → steps a t ≡ ok (t', answer) → t ≡ t')
    → IsReadOnly
        (λ w. conclude P encode_error w (do a ← request P failures decoded; steps a w.tables))
conclude-IsReadOnly P encode_error failures decoded steps keeps w =
    elim (conclude-tables P encode_error w _) [
      | inl same ↦ same
      | inr (t, answer, m, same) ↦
          let (a, q, s) =
            call-ok P "unmarshal request" (unmarshal P failures decoded) _ (t, answer) m in
          same ∙ sym (keeps a w.tables t answer s)
    ]

module _ (P : ErrorsPkg) {T D : Type 0} (encode_error : D → Option P.Error)
    (status : Text → D) where
  open P use {Error}

  pub health-IsReadOnly :
      (check : Outcome Error (Unit {0})) → IsReadOnly {T = T} (health P encode_error status check)
  unfolding health
  health-IsReadOnly (ok u) w = refl
  health-IsReadOnly (err e) w = refl
  health-IsReadOnly panic w = refl

module _ (P : ErrorsPkg) (C : Crypto P.Error) (S : Services P.Error C) (D : Driver P.Error)
    (encode_error : PayloadOf C S → Option P.Error)
    (approver : Option (Approver P.Error C.PublicKey)) where
  open P use {Error}
  open C use {ExtendedKey, PublicKey, RawAddress, Hash, keys_bytes}
  open S use {sign, unmarshal_entity}

  pub identity-IsReadOnly :
      (address : RawAddress) (key : PublicKey)
      → IsReadOnly (identity P C S D encode_error approver address key)
  unfolding identity
  identity-IsReadOnly address key w = refl

  user_steps-same :
      (xpubs : List ExtendedKey) (t t' : Tables PublicKey) (answer : Body (PayloadOf C S) × ℕ)
      → user_steps P C S D encode_error approver xpubs t ≡ ok (t', answer)
      → t ≡ t'
  unfolding user_steps
  user_steps-same xpubs t t' answer e =
      let out : Tables PublicKey × (Body (PayloadOf C S) × ℕ) = (t', answer) in
      let (p, k, e₁) = bind-ok (check_public P C S xpubs) _ out e in
      let (id, u, e₂) =
        call-ok P "fetch user" (fetch_user_id_by_xpub P D (keys_bytes xpubs) t) _ out e₁ in
      ap (λ (x : Tables PublicKey × (Body (PayloadOf C S) × ℕ)). x.0)
        (ok-injective (t, (data_body (user_payload id), 200)) out e₂)

  pub user-IsReadOnly :
      (failures : List ExtendedKey → List Invalid) (decoded : Outcome Error (List ExtendedKey))
      → IsReadOnly (user P C S D encode_error approver failures decoded)
  unfolding user
  user-IsReadOnly failures decoded =
      conclude-IsReadOnly P encode_error failures decoded (user_steps P C S D encode_error approver)
        user_steps-same

  pub transfer_signature-IsReadOnly :
      (failures : TransferRequest ExtendedKey → List Invalid)
      (decoded : Outcome Error (TransferRequest ExtendedKey)) (now seconds : ℕ)
      (headers : Outcome Error (Hash × ℕ))
      → IsReadOnly
          (transfer_signature P C S D encode_error approver failures decoded now seconds headers)
  unfolding transfer_signature
  transfer_signature-IsReadOnly failures decoded now seconds headers =
      conclude-IsReadOnly P encode_error failures decoded
        (transfer_steps P C S D encode_error approver now seconds headers)
        (λ r t t' answer e.
          (transfer_steps-Receipt P C S D encode_error approver now seconds headers r t t' answer
            e).0)

  module _ (headers : Outcome P.Error (C.Hash × ℕ)) where
    pub pub_key_signature-IsReadOnly :
        (failures : PubKeyRequest ExtendedKey → List Invalid)
        (decoded : Outcome Error (PubKeyRequest ExtendedKey))
        → IsReadOnly (pub_key_signature P C S D encode_error approver headers failures decoded)
    unfolding pub_key_signature
    pub_key_signature-IsReadOnly failures decoded =
        conclude-IsReadOnly P encode_error failures decoded
          (pub_key_steps P C S D encode_error approver headers)
          (λ r t t' answer e.
            (pub_key_steps-Vouched P C S D encode_error approver headers r t t' answer e).0)

    xpub_steps-same :
        (r : XPubRequest ExtendedKey) (t t' : Tables PublicKey) (answer : Body (PayloadOf C S) × ℕ)
        → xpub_steps P C S D encode_error approver headers r t ≡ ok (t', answer)
        → t ≡ t'
    unfolding xpub_steps
    xpub_steps-same r t t' answer e =
        let out : Tables PublicKey × (Body (PayloadOf C S) × ℕ) = (t', answer) in
        let (p, k, e₁) = bind-ok (check_public P C S r.xpubs) _ out e in
        let (u, f, e₂) =
          call-ok P "fetch user" (fetch_user_by_xpub P D (keys_bytes r.xpubs) t) _ out e₁ in
        let (v, y, e₃) =
          bind-ok (permit_identity P C S D encode_error approver headers u.id) _ out e₂ in
        let (s, h, e₄) =
          call-ok P "verify xpub" (verify_xpub P C unmarshal_entity u headers r.entity r.xpubs) _
            out e₃ in
        let (sig, g, e₅) = call-ok P "sign" (sign s.hash) _ out e₄ in
        ap (λ (x : Tables PublicKey × (Body (PayloadOf C S) × ℕ)). x.0)
          (ok-injective
            (t, (data_body (signature_payload s.approved s.description 1 sig s.block_height), 200))
            out e₅)

    pub xpub_signature-IsReadOnly :
        (failures : XPubRequest ExtendedKey → List Invalid)
        (decoded : Outcome Error (XPubRequest ExtendedKey))
        → IsReadOnly (xpub_signature P C S D encode_error approver headers failures decoded)
    unfolding xpub_signature
    xpub_signature-IsReadOnly failures decoded =
        conclude-IsReadOnly P encode_error failures decoded
          (xpub_steps P C S D encode_error approver headers) xpub_steps-same

    pub admin_certificate-IsReadOnly :
        (failures : AdminRequest ExtendedKey RawAddress → List Invalid)
        (decoded : Outcome Error (AdminRequest ExtendedKey RawAddress))
        (contracts : RawAddress → Outcome Error ContractFormation) (now seconds : ℕ)
        → IsReadOnly (
            admin_certificate P C S D encode_error approver headers failures decoded contracts now
              seconds)
    unfolding admin_certificate
    admin_certificate-IsReadOnly failures decoded contracts now seconds =
        conclude-IsReadOnly P encode_error failures decoded
          (admin_steps P C S D encode_error approver headers contracts (expiration_at now seconds))
          (λ r t t' answer e.
            (admin_steps-Vouched P C S D encode_error approver headers contracts
              (expiration_at now seconds) r t t' answer e).0)
