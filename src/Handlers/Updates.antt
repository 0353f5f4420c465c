-- ===== src/Handlers/Updates.antt =====
-- Who may change an identity (`UpdateIdentity`): the user whose key signed the request, and the
-- approver.
use identity_oracle.Prelude.{
  ℕ, String, ◌≡◌, ◌∙◌, ap, ◌⊎◌, inl, inr, ◌++◌, true, Option, List, arith,
}
use identity_oracle.Errors.{Outcome, ok, Outcome-cases, Invalid, ErrorsPkg}
use identity_oracle.Errors.Inversion.{bind-ok, ok-injective}
use identity_oracle.Storage.{Bytes}
use identity_oracle.Database.{User, Tables, Driver}
use identity_oracle.Users.{fetch_user, update_user}
use identity_oracle.Signing.{Crypto}
use identity_oracle.Web.{Body, no_body, World, unmarshal}
use identity_oracle.Handlers.{Services, Approver, PayloadOf}
use identity_oracle.Handlers.Oracle.{
  UpdateIdentityRequest, check_signature, permit_update, fetch_registered, update_identity_steps,
  update_identity,
}
use identity_oracle.Handlers.Steps.{call-ok, conclude-tables, Permitted}
use identity_oracle.Handlers.Authority.{check_signature-ok, permit_update-Permitted}

module _ (P : ErrorsPkg) (C : Crypto P.Error) (S : Services P.Error C) (D : Driver P.Error)
    (encode_error : PayloadOf C S → Option P.Error)
    (approver : Option (Approver P.Error C.PublicKey)) where
  open P use {Error}
  open C use {ExtendedKey, PublicKey, keys_bytes}
  open S use {
    Signature, verify, sha256, write_deterministic, marshal, unmarshal_entity, parse_uuid,
    is_private,
  }

  fetch_registered-ok :
      (id : String) (t : Tables PublicKey) (u : User PublicKey)
      → fetch_registered P C S D encode_error approver id t ≡ ok u
      → fetch_user P D id t ≡ ok u
  unfolding fetch_registered
  fetch_registered-ok id t u e = elim (Outcome-cases (fetch_user P D id t)) [
    | inl (v, q) ↦ q ∙ ground arith
    | inr (inl (x, q)) ↦ absurd (ground arith)
    | inr (inr q) ↦ absurd (ground arith)
  ]

  -- An identity that was updated.
  pub record Updated (now : ℕ) (r : UpdateIdentityRequest Signature) (t t' : Tables PublicKey)
      : Type 0 where
    pub user : User PublicKey
    pub is_user : fetch_user P D r.user_id t ≡ ok user
    pub userid : Bytes
    pub is_userid : parse_uuid r.user_id ≡ ok userid
    pub message : Bytes
    pub is_message : write_deterministic r.entity ≡ ok message
    pub is_signed : verify r.signature (sha256 (sha256 (userid ++ message))) user.public_key ≡ true
    pub is_permitted : Permitted approver (λ a. a.update_identity user.id r.entity)
    pub entity : Bytes
    pub is_entity : marshal r.entity ≡ ok entity
    pub is_updated :
        update_user P D unmarshal_entity now (record user { entity = entity }) t ≡ ok t'

  update_identity_steps-Updated :
      (now : ℕ) (r : UpdateIdentityRequest Signature) (t t' : Tables PublicKey)
      (answer : Body (PayloadOf C S) × ℕ)
      → update_identity_steps P C S D encode_error approver now r t ≡ ok (t', answer)
      → Updated now r t t'
  unfolding update_identity_steps
  update_identity_steps-Updated now r t t' answer e =
      let out : Tables PublicKey × (Body (PayloadOf C S) × ℕ) = (t', answer) in
      let (user, u, e₁) =
        bind-ok (fetch_registered P C S D encode_error approver r.user_id t) _ out e in
      let (userid, i, e₂) = call-ok P "parse user id" (parse_uuid r.user_id) _ out e₁ in
      let (message, m, e₃) = call-ok P "write entity" (write_deterministic r.entity) _ out e₂ in
      let (v, s, e₄) =
        bind-ok
          (check_signature P C S D encode_error approver r.signature (userid ++ message)
            user.public_key)
          _ out e₃ in
      let (p, y, e₅) =
        bind-ok (permit_update P C S D encode_error approver user.id r.entity) _ out e₄ in
      let (entity, b, e₆) = call-ok P "protobuf marshal entity" (marshal r.entity) _ out e₅ in
      let (t'', c, e₇) =
        call-ok P "update user"
          (update_user P D unmarshal_entity now (record user { entity = entity }) t) _ out e₆ in
      let same = ok-injective (t'', (no_body, 200)) out e₇ in
      record {
        user = user;
        is_user = fetch_registered-ok r.user_id t user u;
        userid = userid;
        is_userid = i;
        message = message;
        is_message = m;
        is_signed =
            check_signature-ok P C S D encode_error approver r.signature (userid ++ message)
              user.public_key v s;
        is_permitted = permit_update-Permitted P C S D encode_error approver user.id r.entity y;
        entity = entity;
        is_entity = b;
        is_updated = c ∙ ap (λ (x : Tables PublicKey × (Body (PayloadOf C S) × ℕ)). ok x.0) same;
      }

  -- `UpdateIdentity` leaves the tables as they were, or the request is signed with the key of the user
  -- that is stored under its id, the approver agreed if there is one, and the tables are those that
  -- `UpdateUser` makes for that user with the new entity.
  pub update_identity-Updated :
      (failures : UpdateIdentityRequest Signature → List Invalid)
      (decoded : Outcome Error (UpdateIdentityRequest Signature)) (now : ℕ)
      (w : World (Tables PublicKey) (PayloadOf C S))
      → let t' = (update_identity P C S D encode_error approver failures decoded now w).1.tables in
        (t' ≡ w.tables)
        ⊎ ((r : UpdateIdentityRequest Signature) × (unmarshal P failures decoded ≡ ok r)
            × Updated now r w.tables t')
  unfolding update_identity
  update_identity-Updated failures decoded now w = elim (conclude-tables P encode_error w _) [
    | inl same ↦ inl same
    | inr (t, answer, m, same) ↦
        let (r, q, s) =
          call-ok P "unmarshal request" (unmarshal P failures decoded) _ (t, answer) m in
        inr (r, q, rw same (update_identity_steps-Updated now r w.tables t answer s))
  ]
