-- ===== src/Handlers/Authority.antt =====
-- Who may change the tables: a change is signed with the user's key, and the approver agreed to it.
use identity_oracle.Prelude.{
  ℕ, String, ◌≡◌, ◌∙◌, ap, ◌⊎◌, inl, inr, true, false, Option, List, arith, Option-cases,
}
use identity_oracle.Errors.{Outcome, ok, Invalid, ErrorsPkg}
use identity_oracle.Errors.Inversion.{bind-ok, ok-injective}
use identity_oracle.Entity.{EntityField}
use identity_oracle.Storage.{Bytes}
use identity_oracle.Database.{User, Tables, Driver}
use identity_oracle.Users.{create_user}
use identity_oracle.Signing.{Crypto}
use identity_oracle.Web.{Body, data_body, World, unmarshal}
use identity_oracle.Handlers.{Services, Approver, user_created, PayloadOf}
use identity_oracle.Handlers.Oracle.{
  RegisterRequest, check_signature, permit_registration, permit_update, register_steps, register,
}
use identity_oracle.Handlers.Steps.{
  call-ok, conclude-tables, Permitted, no_approver, agreed, permit-ok,
}

module _ (P : ErrorsPkg) (C : Crypto P.Error) (S : Services P.Error C) (D : Driver P.Error)
    (encode_error : PayloadOf C S → Option P.Error)
    (approver : Option (Approver P.Error C.PublicKey)) where
  open P use {Error}
  open C use {ExtendedKey, PublicKey, keys_bytes}
  open S use {
    Signature, verify, sha256, write_deterministic, marshal, unmarshal_entity, parse_uuid,
    is_private,
  }

  pub check_signature-ok :
      (signature : Signature) (message : Bytes) (key : PublicKey) (u : Unit {0})
      → check_signature P C S D encode_error approver signature message key ≡ ok u
      → verify signature (sha256 (sha256 message)) key ≡ true
  unfolding check_signature
  check_signature-ok signature message key u e = ground arith

  permit_registration-Permitted :
      (id : String) (entity : EntityField) (key : PublicKey)
      → permit_registration P C S D encode_error approver id entity key ≡ ok tt
      → Permitted approver (λ a. a.approve_registration id entity key)
  unfolding permit_registration
  permit_registration-Permitted id entity key e = elim (Option-cases approver) [
    | inl nobody ↦ no_approver nobody
    | inr (a, q) ↦
        let (d, y) =
          permit-ok P C S "approve registration" (a.approve_registration id entity key)
            (rw (q, permit_registration) at e) in
        agreed a d q y
  ]

  pub permit_update-Permitted :
      (id : String) (entity : EntityField)
      → permit_update P C S D encode_error approver id entity ≡ ok tt
      → Permitted approver (λ a. a.update_identity id entity)
  unfolding permit_update
  permit_update-Permitted id entity e = elim (Option-cases approver) [
    | inl nobody ↦ no_approver nobody
    | inr (a, q) ↦
        let (d, y) =
          permit-ok P C S "approve update entity" (a.update_identity id entity)
            (rw (q, permit_update) at e) in
        agreed a d q y
  ]

  -- A registration that went through.
  pub record Registered (user_id : String) (created modified : ℕ)
      (r : RegisterRequest PublicKey Signature) (t t' : Tables PublicKey) : Type 0 where
    pub message : Bytes
    pub is_message : write_deterministic r.entity ≡ ok message
    pub is_signed : verify r.signature (sha256 (sha256 message)) r.public_key ≡ true
    pub is_permitted :
        Permitted approver (λ a. a.approve_registration user_id r.entity r.public_key)
    pub entity : Bytes
    pub is_entity : marshal r.entity ≡ ok entity
    pub is_created :
        create_user P D unmarshal_entity
          (record {
            id = user_id;
            entity = entity;
            public_key = r.public_key;
            date_created = created;
            date_modified = modified;
            is_deleted = false;
          })
          t
        ≡ ok t'

  pub register_steps-Registered :
      (user_id : String) (created modified : ℕ) (r : RegisterRequest PublicKey Signature)
      (t t' : Tables PublicKey) (answer : Body (PayloadOf C S) × ℕ)
      → register_steps P C S D encode_error approver user_id created modified r t ≡ ok (t', answer)
      → Registered user_id created modified r t t'
  unfolding register_steps
  register_steps-Registered user_id created modified r t t' answer e =
      let out : Tables PublicKey × (Body (PayloadOf C S) × ℕ) = (t', answer) in
      let (message, m, e₁) = call-ok P "write entity" (write_deterministic r.entity) _ out e in
      let (u, s, e₂) =
        bind-ok (check_signature P C S D encode_error approver r.signature message r.public_key) _
          out e₁ in
      let (entity, b, e₃) = call-ok P "protobuf marshal entity" (marshal r.entity) _ out e₂ in
      let (v, p, e₄) =
        bind-ok (permit_registration P C S D encode_error approver user_id r.entity r.public_key) _
          out e₃ in
      let row : User PublicKey = record {
        id = user_id;
        entity = entity;
        public_key = r.public_key;
        date_created = created;
        date_modified = modified;
        is_deleted = false;
      } in
      let (t'', c, e₅) =
        call-ok P "create user" (create_user P D unmarshal_entity row t) _ out e₄ in
      let same =
        ok-injective (t'', (data_body (user_created "User Created" user_id), 200)) out e₅ in
      record {
        message = message;
        is_message = m;
        is_signed = check_signature-ok r.signature message r.public_key u s;
        is_permitted = permit_registration-Permitted user_id r.entity r.public_key p;
        entity = entity;
        is_entity = b;
        is_created = c ∙ ap (λ (x : Tables PublicKey × (Body (PayloadOf C S) × ℕ)). ok x.0) same;
      }

  -- `Register` leaves the tables as they were, or the request was decoded, is signed with its own
  -- public key, the approver agreed if there is one, and the tables are those that `CreateUser` makes.
  pub register-Registered :
      (failures : RegisterRequest PublicKey Signature → List Invalid)
      (decoded : Outcome Error (RegisterRequest PublicKey Signature)) (user_id : String)
      (created modified : ℕ) (w : World (Tables PublicKey) (PayloadOf C S))
      → let t' =
          (register P C S D encode_error approver failures decoded user_id created modified
            w).1.tables in
        (t' ≡ w.tables)
        ⊎ ((r : RegisterRequest PublicKey Signature) × (unmarshal P failures decoded ≡ ok r)
            × Registered user_id created modified r w.tables t')
  unfolding register
  register-Registered failures decoded user_id created modified w =
      elim (conclude-tables P encode_error w _) [
        | inl same ↦ inl same
        | inr (t, answer, m, same) ↦
            let (r, q, s) =
              call-ok P "unmarshal request" (unmarshal P failures decoded) _ (t, answer) m in
            inr (
              r,
              q,
              rw same (register_steps-Registered user_id created modified r w.tables t answer s),
            )
      ]
