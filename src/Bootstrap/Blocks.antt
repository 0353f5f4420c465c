-- ===== src/Bootstrap/Blocks.antt =====
-- The listener as the `Headers` of the handlers, as `Setup` passes it to `API`: the block that an answer
-- names, while headers arrive and requests are served at once.
use identity_oracle.Prelude.{ℕ, ◌%◌, ◌≡◌, inl, inr, Bool, Option, [], ◌∷◌, arith}
use identity_oracle.Prelude.Equality.{Comparable}
use identity_oracle.Errors.{Outcome, ok, err, panic, Text, ErrorsPkg, Outcome-cases}
use identity_oracle.Storage.{Bytes}
use identity_oracle.Database.{User, Tables, Driver}
use identity_oracle.Listener.{u32, Listener, recent_sig_hash}
use identity_oracle.Listener.Reports.{IsTracked}
use identity_oracle.Listener.Interleaving.{Sections, recent_sig_hash-Sections}
use identity_oracle.Signing.{Crypto, SignatureHash, approve_value}
use identity_oracle.Signing.Approval.{Attests, verify_pub_key-Attests}
use identity_oracle.Signing.Certificates.{Derived, create_receive_signature-hashes}
use identity_oracle.Web.{Body, data_body}
use identity_oracle.Handlers.{
  Services, Approver, signature_payload, transfer_payload, PayloadOf, expiration_at,
}
use identity_oracle.Handlers.Verify.{PubKeyRequest, pub_key_steps}
use identity_oracle.Handlers.Transfers.{TransferRequest, transfer_steps}
use identity_oracle.Handlers.Certificates.{Vouched, pub_key_steps-Vouched}
use identity_oracle.Handlers.Receipts.{transfer_steps-Receipt}

-- What the handlers get from the listener; its error is one of `errors.New` or `fmt.Errorf`.
unfoldable pub headers_of :
    (P : ErrorsPkg) {Hash : Type 0} → Listener Hash → Outcome P.Error (Hash × ℕ)
headers_of P l = elim (recent_sig_hash l) [
  | ok x ↦ ok x
  | err text ↦ err (P.plain text)
  | panic ↦ panic
]

headers_of-ok :
    (P : ErrorsPkg) {Hash : Type 0} (l : Listener Hash) (x : Hash × ℕ)
    → headers_of P l ≡ ok x
    → recent_sig_hash l ≡ ok x
unfolding headers_of
headers_of-ok P l x e = elim (Outcome-cases (recent_sig_hash l)) [
  | inl (y, q) ↦ ground (arith)
  | inr (inl (t, q)) ↦ absurd (ground arith)
  | inr (inr q) ↦ absurd (ground arith)
]

module _ (P : ErrorsPkg) (C : Crypto P.Error) (S : Services P.Error C) (D : Driver P.Error)
    (encode_error : PayloadOf C S → Option P.Error)
    (approver : Option (Approver P.Error C.PublicKey)) ⦃e : Comparable C.Hash⦄
    (true_height : C.Hash → ℕ) where
  open P use {Error}
  open C use {
    ExtendedKey, PublicKey, Hash, RawAddress, decode_address, decode_instrument_id, child_key,
    public_key, entity_pub_key_sig_hash, transfer_sig_hash,
  }
  open S use {sign, Signature, unmarshal_entity}

  -- An answer of `PubKeySignature`: the signature of a hash that attests the entity of a vouched user, and
  -- the height of the block that was hashed, which is the block's own.
  pub record Dated (k : Listener Hash) (r : PubKeyRequest ExtendedKey) (t : Tables PublicKey)
      (answer : Body (PayloadOf C S) × ℕ) : Type 0 where
    pub user : User PublicKey
    pub is_vouched : Vouched P C S D encode_error approver (headers_of P k) t (r.xpub ∷ []) user
    pub key : ExtendedKey
    pub is_key : child_key r.xpub r.index ≡ ok key
    pub hash : SignatureHash Hash
    pub attests :
        Attests P C unmarshal_entity user
          (headers_of P k)
          r.entity
          (entity_pub_key_sig_hash r.entity (public_key key))
          hash
    pub is_dated : hash.block_height ≡ true_height attests.block_hash % u32
    pub signature : Signature
    pub is_signed : sign hash.hash ≡ ok signature
    pub is_answer :
        (
          data_body
              (signature_payload hash.approved hash.description 1 signature hash.block_height),
          200,
        )
        ≡ answer

  -- However headers arrived before, if they were straight children and the node's replies honest, an
  -- answer of `PubKeySignature` is a signature for a vouched user, over the entity, the public key at the
  -- index and a block, and the height in the answer is that block's own, modulo 2 ^ 32.
  pub pub_key_steps-Dated :
      (l k : Listener Hash) (r : PubKeyRequest ExtendedKey) (t t' : Tables PublicKey)
      (answer : Body (PayloadOf C S) × ℕ)
      → IsTracked true_height l
      → Sections true_height l k
      → pub_key_steps P C S D encode_error approver (headers_of P k) r t ≡ ok (t', answer)
      → Dated k r t answer
  pub_key_steps-Dated l k r t t' answer tracked run q =
      let (same, (user, vouched, (s, h, (signature, g, is_answer)))) =
        pub_key_steps-Vouched P C S D encode_error approver (headers_of P k) r t t' answer q in
      let (key, c, a) =
        verify_pub_key-Attests P C unmarshal_entity user (headers_of P k) r.entity r.xpub r.index s
          h in
      record {
        user = user;
        is_vouched = vouched;
        key = key;
        is_key = c;
        hash = s;
        attests = a;
        is_dated =
            recent_sig_hash-Sections true_height l k a.block_hash s.block_height tracked run
              (headers_of-ok P k (a.block_hash, s.block_height) a.is_recent);
        signature = signature;
        is_signed = g;
        is_answer = is_answer;
      }

  -- An answer of `TransferSignature`: it names the block that was hashed, by hash and by the height that
  -- is its own, and carries the signature of the hash over the contract, the instrument, the address of
  -- the keys at the index, that block, the expiration and the flag in the answer.
  pub record DatedReceipt (now seconds : ℕ) (r : TransferRequest ExtendedKey) (t : Tables PublicKey)
      (answer : Body (PayloadOf C S) × ℕ) : Type 0 where
    pub approved : Bool
    pub description : Text
    pub block_hash : Hash
    pub height : ℕ
    pub is_dated : height ≡ true_height block_hash % u32
    pub code : Bytes
    pub is_code : decode_instrument_id r.instrument_id ≡ ok code
    pub target : RawAddress
    pub is_target : decode_address r.contract ≡ ok target
    pub address : RawAddress
    pub is_address : Derived P C D t r.xpubs r.index address
    pub hash : Hash
    pub is_hashed :
        transfer_sig_hash target code address block_hash
          (expiration_at now seconds)
          (approve_value approved)
        ≡ ok hash
    pub signature : Signature
    pub is_signed : sign hash ≡ ok signature
    pub is_answer :
        (
          data_body (
              transfer_payload approved description 1 signature height block_hash
                (expiration_at now seconds)),
          200,
        )
        ≡ answer

  -- However headers arrived before, if they were straight children and the node's replies honest, an
  -- answer of `TransferSignature` names the block that was hashed and that block's own height, modulo
  -- 2 ^ 32, and carries a signature over the contract, the instrument, the keys' address, the block, the
  -- expiration and the flag in the answer.
  pub transfer_steps-DatedReceipt :
      (l k : Listener Hash) (now seconds : ℕ) (r : TransferRequest ExtendedKey)
      (t t' : Tables PublicKey) (answer : Body (PayloadOf C S) × ℕ)
      → IsTracked true_height l
      → Sections true_height l k
      → transfer_steps P C S D encode_error approver now seconds (headers_of P k) r t
        ≡ ok (t', answer)
      → DatedReceipt now seconds r t answer
  transfer_steps-DatedReceipt l k now seconds r t t' answer tracked run q =
      let (same, x) =
        transfer_steps-Receipt P C S D encode_error approver now seconds (headers_of P k) r t t'
          answer q in
      let (recent, (code, (target, address, derived, i, g, h))) =
        create_receive_signature-hashes P C D t (headers_of P k) r.contract r.instrument_id r.xpubs
          r.index (expiration_at now seconds) x.approved x.hash x.block_hash x.height x.is_hashed in
      record {
        approved = x.approved;
        description = x.description;
        block_hash = x.block_hash;
        height = x.height;
        is_dated =
            recent_sig_hash-Sections true_height l k x.block_hash x.height tracked run
              (headers_of-ok P k (x.block_hash, x.height) recent);
        code = code;
        is_code = i;
        target = target;
        is_target = g;
        address = address;
        is_address = derived;
        hash = x.hash;
        is_hashed = h;
        signature = x.signature;
        is_signed = x.is_signed;
        is_answer = x.is_answer;
      }
