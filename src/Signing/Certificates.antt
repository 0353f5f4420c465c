-- ===== src/Signing/Certificates.antt =====
-- The hashes of internal/oracle that need the database: what `CreateAdminCertificate` and
-- `CreateReceiveSignature` return.
use identity_oracle.Prelude.{
  ℕ, String, ◌≡◌, ◌∙◌, sym, ap, ◌⊎◌, inl, inr, Bool, true, false, some, List, arith, Bool-cases,
  Option-cases,
}
use identity_oracle.Errors.{Outcome, ok, ErrorsPkg, Outcome-cases}
use identity_oracle.Errors.Inversion.{bind-ok, step-ok, ok-injective}
use identity_oracle.Entity.{EntityField}
use identity_oracle.Storage.{Bytes}
use identity_oracle.Database.{User, XPub, Tables, Driver}
use identity_oracle.XPubs.{fetch_xpub_by_xpub}
use identity_oracle.Formations.{ContractFormation}
use identity_oracle.Signing.{
  Crypto, SignatureHash, approve_value, approval, admin_entity, create_admin_certificate,
  create_receive_signature,
}
use identity_oracle.Signing.Approval.{Attests, approval_iff}

module _ (P : ErrorsPkg) (C : Crypto P.Error) (D : Driver P.Error) where
  open P use {Error}
  open C use {
    ExtendedKey, PublicKey, Hash, RawAddress, is_empty, keys_bytes, child_keys, raw_address,
    decode_address, decode_instrument_id, contract_admin_sig_hash, transfer_sig_hash,
  }

  -- The address of the keys at an index, with the number of signers of their row in the database.
  pub record Derived (t : Tables PublicKey) (xpubs : List ExtendedKey) (index : ℕ)
      (address : RawAddress) : Type 0 where
    pub row : XPub
    pub is_row : fetch_xpub_by_xpub P D (keys_bytes xpubs) t ≡ ok row
    pub keys : List ExtendedKey
    pub are_keys : child_keys xpubs index ≡ ok keys
    pub is_address : raw_address keys row.required_signers ≡ ok address

  -- The entity that an admin certificate is about: that of the request, and if the request names a
  -- contract, the issuer of its formation.
  pub data Certified (contracts : RawAddress → Outcome Error ContractFormation)
      (issuer : EntityField) (contract : RawAddress) (hashed : EntityField ⊎ RawAddress)
      (checked : EntityField) : Type 0 where
    by_issuer :
        is_empty contract ≡ true
        → hashed ≡ inl issuer
        → checked ≡ issuer
        → Certified contracts issuer contract hashed checked
    by_contract :
        (f : ContractFormation)
        → is_empty contract ≡ false
        → contracts contract ≡ ok f
        → hashed ≡ inr contract
        → f.issuer ≡ some checked
        → Certified contracts issuer contract hashed checked

  admin_entity-Certified :
      (contracts : RawAddress → Outcome Error ContractFormation) (issuer : EntityField)
      (contract : RawAddress) (hashed : EntityField ⊎ RawAddress) (checked : EntityField)
      → admin_entity P C D contracts issuer contract ≡ ok (hashed, checked)
      → Certified contracts issuer contract hashed checked
  unfolding admin_entity
  admin_entity-Certified contracts issuer contract hashed checked a =
      elim (Bool-cases (is_empty contract)) [
        | inl y ↦ by_issuer y (ground arith) (ground arith)
        | inr n ↦ elim (Outcome-cases (contracts contract)) [
          | inl (f, q) ↦ elim (Option-cases f.issuer) [
            | inl missing ↦ absurd (ground arith)
            | inr (e, found) ↦ by_contract f n q (ground arith) (ground arith)
          ]
          | inr (inl (e, q)) ↦ absurd (ground arith)
          | inr (inr q) ↦ absurd (ground arith)
        ]
      ]

  -- A hash that `CreateAdminCertificate` returns attests the entity of the request, or the issuer of
  -- the contract that the request names, together with the address that the keys have in the
  -- database: approved exactly if `VerifyEntityIsSubset` accepts that entity against the registered one.
  pub create_admin_certificate-Attests :
      (unmarshal : Bytes → Outcome Error EntityField) (t : Tables PublicKey) (user : User PublicKey)
      (headers : Outcome Error (Hash × ℕ))
      (contracts : RawAddress → Outcome Error ContractFormation) (xpubs : List ExtendedKey)
      (index : ℕ) (issuer : EntityField) (contract : RawAddress) (expiration : ℕ)
      (s : SignatureHash Hash)
      → create_admin_certificate P C D unmarshal t user headers contracts xpubs index issuer
          contract expiration
        ≡ ok s
      → (address : RawAddress) × Derived t xpubs index address
        × ((hashed : EntityField ⊎ RawAddress) × ((checked : EntityField) × Certified contracts
                issuer contract hashed checked
              × Attests P C unmarshal user headers checked
                  (λ block. contract_admin_sig_hash address hashed block expiration)
                  s))
  unfolding create_admin_certificate
  create_admin_certificate-Attests unmarshal t user headers contracts xpubs index issuer contract
        expiration s v =
      let (registered, u, v₁) = step-ok P "unmarshal user entity" (unmarshal user.entity) _ s v in
      let (row, r, v₂) =
        step-ok P "fetch xpub" (fetch_xpub_by_xpub P D (keys_bytes xpubs) t) _ s v₁ in
      let (keys, k, v₃) = step-ok P "generate address key" (child_keys xpubs index) _ s v₂ in
      let (address, d, v₄) =
        step-ok P "generate address" (raw_address keys row.required_signers) _ s v₃ in
      let ((block, height), b, v₅) = step-ok P "get sig block hash" headers _ s v₄ in
      let ((hashed, checked), c, v₆) =
        bind-ok (admin_entity P C D contracts issuer contract) _ s v₅ in
      let ((approved, text), a, v₇) = bind-ok (approval checked registered) _ s v₆ in
      let (hash, h, v₈) =
        step-ok P "generate sig hash"
          (contract_admin_sig_hash address hashed block expiration (approve_value approved)) _ s
          v₇ in
      let same : record {
        hash = hash;
        block_height = height;
        approved = approved;
        description = text;
      }
          ≡ s =
        ok-injective _ s v₈ in
      rw (← same) (
        address,
        record { row = row; is_row = r; keys = keys; are_keys = k; is_address = d },
        (
          hashed,
          (
            checked,
            admin_entity-Certified contracts issuer contract hashed checked c,
            record {
              registered = registered;
              is_registered = u;
              block_hash = block;
              is_recent = b;
              is_hashed = h;
              decides = approval_iff checked registered approved text a;
            },
          ),
        ),
      )

  -- A hash that `CreateReceiveSignature` returns is that of the contract's address, the instrument
  -- and the address that the keys have in the database, at the recent block that is returned with it,
  -- and of 1 exactly if the transfer was approved.
  pub create_receive_signature-hashes :
      (t : Tables PublicKey) (headers : Outcome Error (Hash × ℕ)) (contract instrument : String)
      (xpubs : List ExtendedKey) (index expiration : ℕ) (approved : Bool) (hash block : Hash)
      (height : ℕ)
      → create_receive_signature P C D t headers contract instrument xpubs index expiration approved
        ≡ ok (hash, (height, block))
      → (headers ≡ ok (block, height))
        × ((code : Bytes) × ((target address : RawAddress) × Derived t xpubs index address
              × (decode_instrument_id instrument ≡ ok code)
              × (decode_address contract ≡ ok target)
              × (transfer_sig_hash target code address block expiration (approve_value approved)
                  ≡ ok hash)))
  unfolding create_receive_signature
  create_receive_signature-hashes t headers contract instrument xpubs index expiration approved hash
        block height v =
      let s : Hash × (ℕ × Hash) = (hash, (height, block)) in
      let (code, i, v₁) =
        step-ok P "decode instrument id" (decode_instrument_id instrument) _ s v in
      let (row, r, v₂) =
        step-ok P "fetch xpub" (fetch_xpub_by_xpub P D (keys_bytes xpubs) t) _ s v₁ in
      let (target, g, v₃) = step-ok P "decode contract address" (decode_address contract) _ s v₂ in
      let ((block', height'), b, v₄) = step-ok P "get sig block hash" headers _ s v₃ in
      let (keys, k, v₅) = step-ok P "generate address key" (child_keys xpubs index) _ s v₄ in
      let (address, d, v₆) =
        step-ok P "generate address" (raw_address keys row.required_signers) _ s v₅ in
      let (hash', h, v₇) =
        step-ok P "generate signature"
          (transfer_sig_hash target code address block' expiration (approve_value approved)) _ s
          v₆ in
      let same = ok-injective (hash', (height', block')) s v₇ in
      (
        b ∙ ap (λ (p : Hash × (ℕ × Hash)). ok (p.1.1, p.1.0)) same,
        (
          code,
          (
            target,
            address,
            record { row = row; is_row = r; keys = keys; are_keys = k; is_address = d },
            i,
            g,
            sym (
                  ap
                    (λ (p : Hash × (ℕ × Hash)).
                      transfer_sig_hash target code address p.1.1 expiration
                        (approve_value approved))
                    same)
                ∙ h
                ∙ ap (λ (p : Hash × (ℕ × Hash)). ok p.0) same,
          ),
        ),
      )
