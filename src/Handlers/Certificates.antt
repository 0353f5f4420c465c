-- ===== src/Handlers/Certificates.antt =====
-- What the handlers of identity.go and transfers.go sign and answer.
use identity_oracle.Prelude.{
  ℕ, String, ◌≡◌, ap, inl, inr, false, Option, List, [], ◌∷◌, All, Option-cases,
}
use identity_oracle.Errors.{Outcome, ok, ErrorsPkg}
use identity_oracle.Errors.Inversion.{bind-ok, ok-injective}
use identity_oracle.Database.{User, Tables, Driver}
use identity_oracle.Users.{fetch_user_by_xpub}
use identity_oracle.Formations.{ContractFormation}
use identity_oracle.Signing.{Crypto, SignatureHash, verify_pub_key, create_admin_certificate}
use identity_oracle.Web.{Body, data_body}
use identity_oracle.Handlers.{
  Services, Approver, signature_payload, certificate_payload, PayloadOf, check_public,
}
use identity_oracle.Handlers.Verify.{
  PubKeyRequest, AdminRequest, permit_identity, pub_key_steps, admin_steps,
}
use identity_oracle.Handlers.Steps.{
  call-ok, Permitted, no_approver, agreed, permit-ok, check_public-ok,
}

module _ (P : ErrorsPkg) (C : Crypto P.Error) (S : Services P.Error C) (D : Driver P.Error)
    (encode_error : PayloadOf C S → Option P.Error)
    (approver : Option (Approver P.Error C.PublicKey))
    (headers : Outcome P.Error (C.Hash × ℕ)) where
  open P use {Error}
  open C use {ExtendedKey, PublicKey, Hash, RawAddress, keys_bytes}
  open S use {sign, Signature, unmarshal_entity, is_private}

  -- The user who is behind the keys of a request, none of them private, and whom the approver, if
  -- there is one, agrees to.
  pub record Vouched (t : Tables PublicKey) (xpubs : List ExtendedKey) (user : User PublicKey)
      : Type 0 where
    pub are_public : All (λ k. is_private k ≡ false) xpubs
    pub is_user : fetch_user_by_xpub P D (keys_bytes xpubs) t ≡ ok user
    pub is_permitted : Permitted approver (λ a. a.approve_identity user.id)

  permit_identity-Permitted :
      (id : String)
      → permit_identity P C S D encode_error approver headers id ≡ ok tt
      → Permitted approver (λ a. a.approve_identity id)
  unfolding permit_identity
  permit_identity-Permitted id e = elim (Option-cases approver) [
    | inl nobody ↦ no_approver nobody
    | inr (a, q) ↦
        let (d, y) =
          permit-ok P C S "approve identity" (a.approve_identity id)
            (rw (q, permit_identity) at e) in
        agreed a d q y
  ]

  -- An answer of `PubKeySignature` carries the oracle's signature of the hash that `VerifyPubKey`
  -- returns for a vouched user, with the flag and the height of that hash, and the tables are not
  -- changed.
  pub pub_key_steps-Vouched :
      (r : PubKeyRequest ExtendedKey) (t t' : Tables PublicKey) (answer : Body (PayloadOf C S) × ℕ)
      → pub_key_steps P C S D encode_error approver headers r t ≡ ok (t', answer)
      → (t ≡ t')
        × ((user : User PublicKey) × Vouched t (r.xpub ∷ []) user
            × ((s : SignatureHash Hash) × (verify_pub_key P C unmarshal_entity user headers r.entity
                    r.xpub r.index
                  ≡ ok s)
                × ((sig : Signature) × (sign s.hash ≡ ok sig)
                    × ((
                      data_body (signature_payload s.approved s.description 1 sig s.block_height),
                      200,
                    )
                        ≡ answer))))
  unfolding pub_key_steps
  pub_key_steps-Vouched r t t' answer e =
      let out : Tables PublicKey × (Body (PayloadOf C S) × ℕ) = (t', answer) in
      let (p, k, e₁) = bind-ok (check_public P C S (r.xpub ∷ [])) _ out e in
      let (user, u, e₂) =
        call-ok P "fetch user" (fetch_user_by_xpub P D (keys_bytes (r.xpub ∷ [])) t) _ out e₁ in
      let (v, y, e₃) =
        bind-ok (permit_identity P C S D encode_error approver headers user.id) _ out e₂ in
      let (s, h, e₄) =
        call-ok P "verify pub key"
          (verify_pub_key P C unmarshal_entity user headers r.entity r.xpub r.index) _ out e₃ in
      let (sig, g, e₅) = call-ok P "sign" (sign s.hash) _ out e₄ in
      let same =
        ok-injective
          (t, (data_body (signature_payload s.approved s.description 1 sig s.block_height), 200))
          out e₅ in
      (
        ap (λ (x : Tables PublicKey × (Body (PayloadOf C S) × ℕ)). x.0) same,
        (
          user,
          record {
            are_public = check_public-ok P C S (r.xpub ∷ []) k;
            is_user = u;
            is_permitted = permit_identity-Permitted user.id y;
          },
          (s, h, (sig, g, ap (λ (x : Tables PublicKey × (Body (PayloadOf C S) × ℕ)). x.1) same)),
        ),
      )

  -- An answer of `AdminCertificate` carries the oracle's signature of the hash that
  -- `CreateAdminCertificate` returns for a vouched user, with the flag and the height of that hash and
  -- the expiration, and the tables are not changed.
  pub admin_steps-Vouched :
      (contracts : RawAddress → Outcome Error ContractFormation) (expiration : ℕ)
      (r : AdminRequest ExtendedKey RawAddress) (t t' : Tables PublicKey)
      (answer : Body (PayloadOf C S) × ℕ)
      → admin_steps P C S D encode_error approver headers contracts expiration r t ≡ ok (t', answer)
      → (t ≡ t')
        × ((user : User PublicKey) × Vouched t r.xpubs user
            × ((s : SignatureHash Hash) × (create_admin_certificate P C D unmarshal_entity t user
                    headers contracts r.xpubs r.index r.issuer r.contract expiration
                  ≡ ok s)
                × ((sig : Signature) × (sign s.hash ≡ ok sig)
                    × ((
                      data_body (
                          certificate_payload s.approved s.description sig s.block_height
                            expiration),
                      200,
                    )
                        ≡ answer))))
  unfolding admin_steps
  admin_steps-Vouched contracts expiration r t t' answer e =
      let out : Tables PublicKey × (Body (PayloadOf C S) × ℕ) = (t', answer) in
      let (p, k, e₁) = bind-ok (check_public P C S r.xpubs) _ out e in
      let (user, u, e₂) =
        call-ok P "fetch user" (fetch_user_by_xpub P D (keys_bytes r.xpubs) t) _ out e₁ in
      let (v, y, e₃) =
        bind-ok (permit_identity P C S D encode_error approver headers user.id) _ out e₂ in
      let (s, h, e₄) =
        call-ok P "verify admin"
          (create_admin_certificate P C D unmarshal_entity t user headers contracts r.xpubs r.index
            r.issuer r.contract expiration)
          _ out e₃ in
      let (sig, g, e₅) = call-ok P "sign" (sign s.hash) _ out e₄ in
      let same =
        ok-injective
          (
            t,
            (
              data_body
                  (certificate_payload s.approved s.description sig s.block_height expiration),
              200,
            ),
          )
          out e₅ in
      (
        ap (λ (x : Tables PublicKey × (Body (PayloadOf C S) × ℕ)). x.0) same,
        (
          user,
          record {
            are_public = check_public-ok P C S r.xpubs k;
            is_user = u;
            is_permitted = permit_identity-Permitted user.id y;
          },
          (s, h, (sig, g, ap (λ (x : Tables PublicKey × (Body (PayloadOf C S) × ℕ)). x.1) same)),
        ),
      )
