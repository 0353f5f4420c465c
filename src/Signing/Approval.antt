-- ===== src/Signing/Approval.antt =====
-- What a returned hash says: the flag that is hashed is the flag that is reported, and it tells whether
-- the entity is accepted as a subset of the registered one.
use identity_oracle.Prelude.{ℕ, ◌≡◌, ◌↔◌, inl, inr, Bool, true, List, arith}
use identity_oracle.Errors.{Outcome, ok, Text, ErrorsPkg, Outcome-cases}
use identity_oracle.Errors.Inversion.{bind-ok, step-ok, ok-injective}
use identity_oracle.Entity.{EntityField, verify_entity_is_subset}
use identity_oracle.Storage.{Bytes}
use identity_oracle.Database.{User}
use identity_oracle.Signing.{
  Crypto, SignatureHash, approve_value, approval, verify_pub_key, verify_xpub,
}

pub approval_iff :
    {E : Type 0} (sub full : EntityField) (approved : Bool) (text : Text)
    → approval {E = E} sub full ≡ ok (approved, text)
    → (approved ≡ true) ↔ (verify_entity_is_subset sub full ≡ ok tt)
unfolding approval
approval_iff sub full approved text a = elim (Outcome-cases (verify_entity_is_subset sub full)) [
  | inl (tt, q) ↦ ((λ y. q), (λ s. ground arith))
  | inr (inl (t, q)) ↦ ((λ y. absurd (ground arith)), (λ s. absurd (ground arith)))
  | inr (inr q) ↦ absurd (ground arith)
]

module _ (P : ErrorsPkg) (C : Crypto P.Error)
    (unmarshal : Bytes → Outcome P.Error EntityField) where
  open P use {Error}
  open C use {
    ExtendedKey, PublicKey, Hash, child_key, public_key, entity_pub_key_sig_hash,
    entity_xpub_sig_hash,
  }

  -- What a signature hash for an entity attests: the entity that was registered, whether the flag of
  -- the answer tells if `VerifyEntityIsSubset` accepts the entity against it, the block that was
  -- hashed, and the hash that the given function makes of the block and of 1 or 0 for the flag.
  pub record Attests (user : User PublicKey) (headers : Outcome Error (Hash × ℕ))
      (entity : EntityField) (hashed : Hash → ℕ → Outcome Error Hash) (s : SignatureHash Hash)
      : Type 0 where
    pub registered : EntityField
    pub is_registered : unmarshal user.entity ≡ ok registered
    pub block_hash : Hash
    pub is_recent : headers ≡ ok (block_hash, s.block_height)
    pub is_hashed : hashed block_hash (approve_value s.approved) ≡ ok s.hash
    pub decides : (s.approved ≡ true) ↔ (verify_entity_is_subset entity registered ≡ ok tt)

  -- A hash that `VerifyPubKey` returns attests the entity together with the public key at the index:
  -- approved exactly if `VerifyEntityIsSubset` accepts it against the registered entity.
  pub verify_pub_key-Attests :
      (user : User PublicKey) (headers : Outcome Error (Hash × ℕ)) (entity : EntityField)
      (xpub : ExtendedKey) (index : ℕ) (s : SignatureHash Hash)
      → verify_pub_key P C unmarshal user headers entity xpub index ≡ ok s
      → (key : ExtendedKey) × (child_key xpub index ≡ ok key)
        × Attests user headers entity (entity_pub_key_sig_hash entity (public_key key)) s
  unfolding verify_pub_key
  verify_pub_key-Attests user headers entity xpub index s v =
      let (registered, u, v₁) = step-ok P "unmarshal user entity" (unmarshal user.entity) _ s v in
      let ((approved, text), a, v₂) = bind-ok (approval entity registered) _ s v₁ in
      let ((block, height), b, v₃) = step-ok P "get sig block hash" headers _ s v₂ in
      let (key, k, v₄) = step-ok P "generate public key" (child_key xpub index) _ s v₃ in
      let (hash, h, v₅) =
        step-ok P "generate signature"
          (entity_pub_key_sig_hash entity (public_key key) block (approve_value approved)) _ s v₄ in
      let same : record {
        hash = hash;
        block_height = height;
        approved = approved;
        description = text;
      }
          ≡ s =
        ok-injective _ s v₅ in
      rw (← same) (
        key,
        k,
        record {
          registered = registered;
          is_registered = u;
          block_hash = block;
          is_recent = b;
          is_hashed = h;
          decides = approval_iff entity registered approved text a;
        },
      )

  -- A hash that `VerifyXPub` returns attests the entity together with the extended keys.
  pub verify_xpub-Attests :
      (user : User PublicKey) (headers : Outcome Error (Hash × ℕ)) (entity : EntityField)
      (xpub : List ExtendedKey) (s : SignatureHash Hash)
      → verify_xpub P C unmarshal user headers entity xpub ≡ ok s
      → Attests user headers entity (entity_xpub_sig_hash entity xpub) s
  unfolding verify_xpub
  verify_xpub-Attests user headers entity xpub s v =
      let (registered, u, v₁) = step-ok P "unmarshal user entity" (unmarshal user.entity) _ s v in
      let ((approved, text), a, v₂) = bind-ok (approval entity registered) _ s v₁ in
      let ((block, height), b, v₃) = step-ok P "get sig block hash" headers _ s v₂ in
      let (hash, h, v₄) =
        step-ok P "generate signature"
          (entity_xpub_sig_hash entity xpub block (approve_value approved)) _ s v₃ in
      let same : record {
        hash = hash;
        block_height = height;
        approved = approved;
        description = text;
      }
          ≡ s =
        ok-injective _ s v₄ in
      rw (← same) (record {
        registered = registered;
        is_registered = u;
        block_hash = block;
        is_recent = b;
        is_hashed = h;
        decides = approval_iff entity registered approved text a;
      })
