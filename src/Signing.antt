-- ===== src/Signing.antt =====
-- internal/oracle/identity.go and transfer.go: the hashes that the oracle signs, with `SignatureHash`
-- of internal/oracle/models.go. Key derivation, addresses and the hashes of the packages bitcoin and
-- protocol are the parameter `Crypto`. `Headers` and `Contracts` are passed as what they answer.
pub mod Approval
pub mod Certificates
pub mod Tests
use identity_oracle.Prelude.Int.{ℤ}
use identity_oracle.Prelude.{
  ℕ, String, ◌≡◌, ◌⊎◌, inl, inr, Bool, true, false, Option, none, some, List, if◌then◌else◌,
}
use identity_oracle.Errors.{Outcome, ok, err, panic, ◌>>=◌, Text, empty, ErrorsPkg, with_context}
use identity_oracle.Entity.{EntityField, verify_entity_is_subset}
use identity_oracle.Storage.{Bytes}
use identity_oracle.Database.{User, Tables, Driver}
use identity_oracle.XPubs.{fetch_xpub_by_xpub}
use identity_oracle.Formations.{ContractFormation}

-- `bitcoin.ExtendedKeys` is a list of extended keys, and `keys_bytes` is its binary form.
pub record Crypto (Error : Type 0) : Type 1 where
  pub ExtendedKey : Type 0
  pub PublicKey : Type 0
  pub Hash : Type 0
  pub RawAddress : Type 0
  pub is_empty : RawAddress → Bool
  pub keys_bytes : List ExtendedKey → Bytes
  pub child_key : ExtendedKey → ℕ → Outcome Error ExtendedKey
  pub public_key : ExtendedKey → PublicKey
  pub child_keys : List ExtendedKey → ℕ → Outcome Error (List ExtendedKey)
  pub raw_address : List ExtendedKey → ℤ → Outcome Error RawAddress
  pub decode_address : String → Outcome Error RawAddress
  pub decode_instrument_id : String → Outcome Error Bytes
  pub entity_pub_key_sig_hash : EntityField → PublicKey → Hash → ℕ → Outcome Error Hash
  pub entity_xpub_sig_hash : EntityField → List ExtendedKey → Hash → ℕ → Outcome Error Hash
  pub contract_admin_sig_hash :
      RawAddress → EntityField ⊎ RawAddress → Hash → ℕ → ℕ → Outcome Error Hash
  pub transfer_sig_hash : RawAddress → Bytes → RawAddress → Hash → ℕ → ℕ → Outcome Error Hash

pub record SignatureHash (Hash : Type 0) : Type 0 where
  pub hash : Hash
  pub block_height : ℕ
  pub approved : Bool
  pub description : Text

abbrev pub approve_value : Bool → ℕ
approve_value approved = if approved then 1 else 0

-- `if err := VerifyEntityIsSubset(entity, userEntity); err != nil`: whether the entity is approved,
-- and the description.
unfoldable pub approval : {E : Type 0} → EntityField → EntityField → Outcome E (Bool × Text)
approval entity user_entity = elim (verify_entity_is_subset entity user_entity) [
  | ok u ↦ ok (true, empty)
  | err text ↦ ok (false, text)
  | panic ↦ panic
]

module _ (P : ErrorsPkg) (C : Crypto P.Error)
    (unmarshal : Bytes → Outcome P.Error EntityField) where
  open P use {Error}
  open C use {
    ExtendedKey, PublicKey, Hash, RawAddress, child_key, public_key, entity_pub_key_sig_hash,
    entity_xpub_sig_hash,
  }

  unfoldable pub verify_pub_key :
      User PublicKey
      → Outcome Error (Hash × ℕ)
      → EntityField
      → ExtendedKey
      → ℕ
      → Outcome Error (SignatureHash Hash)
  verify_pub_key user headers entity xpub index = do
    user_entity ← with_context P "unmarshal user entity" (unmarshal user.entity)
    (approved, description) ← approval entity user_entity
    (block_hash, height) ← with_context P "get sig block hash" headers
    xpub_key ← with_context P "generate public key" (child_key xpub index)
    hash ←
        with_context P "generate signature"
          (entity_pub_key_sig_hash entity (public_key xpub_key) block_hash (approve_value approved))
    ok (record {
      hash = hash;
      block_height = height;
      approved = approved;
      description = description;
    })

  unfoldable pub verify_xpub :
      User PublicKey
      → Outcome Error (Hash × ℕ)
      → EntityField
      → List ExtendedKey
      → Outcome Error (SignatureHash Hash)
  verify_xpub user headers entity xpub = do
    user_entity ← with_context P "unmarshal user entity" (unmarshal user.entity)
    (approved, description) ← approval entity user_entity
    (block_hash, height) ← with_context P "get sig block hash" headers
    hash ←
        with_context P "generate signature"
          (entity_xpub_sig_hash entity xpub block_hash (approve_value approved))
    ok (record {
      hash = hash;
      block_height = height;
      approved = approved;
      description = description;
    })

module _ (P : ErrorsPkg) (C : Crypto P.Error) (D : Driver P.Error) where
  open P use {Error}
  open C use {
    ExtendedKey, PublicKey, Hash, RawAddress, is_empty, keys_bytes, child_keys, raw_address,
    decode_address, decode_instrument_id, contract_admin_sig_hash, transfer_sig_hash,
  }

  -- What is hashed and what is checked: the issuer of the request, or the contract and the issuer
  -- of its formation. The formation's issuer may be nil, and then the check panics.
  unfoldable pub admin_entity :
      (RawAddress → Outcome Error ContractFormation)
      → EntityField
      → RawAddress
      → Outcome Error ((EntityField ⊎ RawAddress) × EntityField)
  admin_entity contracts issuer entity_contract = elim (is_empty entity_contract) [
    | true ↦ ok (inl issuer, issuer)
    | false ↦ do
      cf ← with_context P "get contract formation" (contracts entity_contract)
      elim cf.issuer [ none ↦ panic | some e ↦ ok (inr entity_contract, e) ]
  ]

  unfoldable pub create_admin_certificate :
      (Bytes → Outcome Error EntityField)
      → Tables PublicKey
      → User PublicKey
      → Outcome Error (Hash × ℕ)
      → (RawAddress → Outcome Error ContractFormation)
      → List ExtendedKey
      → ℕ
      → EntityField
      → RawAddress
      → ℕ
      → Outcome Error (SignatureHash Hash)
  create_admin_certificate unmarshal t user headers contracts xpubs index issuer entity_contract
        expiration =
      do
        user_entity ← with_context P "unmarshal user entity" (unmarshal user.entity)
        xpub_data ← with_context P "fetch xpub" (fetch_xpub_by_xpub P D (keys_bytes xpubs) t)
        admin_key ← with_context P "generate address key" (child_keys xpubs index)
        admin_address ←
            with_context P "generate address" (raw_address admin_key xpub_data.required_signers)
        (block_hash, height) ← with_context P "get sig block hash" headers
        (entity, check_entity) ← admin_entity contracts issuer entity_contract
        (approved, description) ← approval check_entity user_entity
        hash ← with_context P "generate sig hash" (
            contract_admin_sig_hash admin_address entity block_hash expiration
              (approve_value approved))
        ok (record {
          hash = hash;
          block_height = height;
          approved = approved;
          description = description;
        })

  unfoldable pub create_receive_signature :
      Tables PublicKey
      → Outcome Error (Hash × ℕ)
      → String
      → String
      → List ExtendedKey
      → ℕ
      → ℕ
      → Bool
      → Outcome Error (Hash × (ℕ × Hash))
  create_receive_signature t headers contract instrument xpubs index expiration approved = do
    instrument_code ← with_context P "decode instrument id" (decode_instrument_id instrument)
    xpub_data ← with_context P "fetch xpub" (fetch_xpub_by_xpub P D (keys_bytes xpubs) t)
    contract_address ← with_context P "decode contract address" (decode_address contract)
    (block_hash, height) ← with_context P "get sig block hash" headers
    address_key ← with_context P "generate address key" (child_keys xpubs index)
    receive_address ←
        with_context P "generate address" (raw_address address_key xpub_data.required_signers)
    sig_hash ← with_context P "generate signature" (
        transfer_sig_hash contract_address instrument_code receive_address block_hash expiration
          (approve_value approved))
    ok (sig_hash, (height, block_hash))
