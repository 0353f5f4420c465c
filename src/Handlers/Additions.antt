-- ===== src/Handlers/Additions.antt =====
-- Who may add keys (`AddXPub`): the user whose key signed the request.
use identity_oracle.Prelude.{ℕ, String, ◌≡◌, ◌∙◌, ap, ◌⊎◌, inl, inr, true, false, Option, List, All}
use identity_oracle.Errors.{Outcome, ok, Invalid, ErrorsPkg}
use identity_oracle.Errors.Inversion.{bind-ok, ok-injective}
use identity_oracle.Storage.{Bytes}
use identity_oracle.Database.{User, XPub, Tables, Driver}
use identity_oracle.Users.{fetch_user}
use identity_oracle.XPubs.{create_xpub}
use identity_oracle.Signing.{Crypto}
use identity_oracle.Web.{Body, no_body, World, unmarshal}
use identity_oracle.Handlers.{Services, Approver, PayloadOf, check_public}
use identity_oracle.Handlers.Oracle.{
  AddXPubRequest, check_signature, xpub_message, add_xpub_steps, add_xpub,
}
use identity_oracle.Handlers.Steps.{call-ok, conclude-tables, check_public-ok}
use identity_oracle.Handlers.Authority.{check_signature-ok}

module _ (P : ErrorsPkg) (C : Crypto P.Error) (S : Services P.Error C) (D : Driver P.Error)
    (encode_error : PayloadOf C S → Option P.Error)
    (approver : Option (Approver P.Error C.PublicKey)) where
  open P use {Error}
  open C use {ExtendedKey, PublicKey, keys_bytes}
  open S use {
    Signature, verify, sha256, write_deterministic, marshal, unmarshal_entity, parse_uuid,
    is_private,
  }

  -- Keys that were added for a user.
  pub record AddedXPub (new_id : String) (now : ℕ) (r : AddXPubRequest ExtendedKey Signature)
      (t t' : Tables PublicKey) : Type 0 where
    pub are_public : All (λ k. is_private k ≡ false) r.xpubs
    pub user : User PublicKey
    pub is_user : fetch_user P D r.user_id t ≡ ok user
    pub userid : Bytes
    pub is_userid : parse_uuid r.user_id ≡ ok userid
    pub is_signed :
        verify r.signature
          (sha256 (sha256 (xpub_message P C S D encode_error approver userid r)))
          user.public_key
        ≡ true
    pub is_created :
        create_xpub P D new_id
          (record {
            id = "";
            user_id = r.user_id;
            xpub = keys_bytes r.xpubs;
            required_signers = r.required_signers;
            date_created = now;
          })
          t
        ≡ ok t'

  add_xpub_steps-AddedXPub :
      (new_id : String) (now : ℕ) (r : AddXPubRequest ExtendedKey Signature)
      (t t' : Tables PublicKey) (answer : Body (PayloadOf C S) × ℕ)
      → add_xpub_steps P C S D encode_error approver new_id now r t ≡ ok (t', answer)
      → AddedXPub new_id now r t t'
  unfolding add_xpub_steps
  add_xpub_steps-AddedXPub new_id now r t t' answer e =
      let out : Tables PublicKey × (Body (PayloadOf C S) × ℕ) = (t', answer) in
      let (p, k, e₁) = bind-ok (check_public P C S r.xpubs) _ out e in
      let (user, u, e₂) = call-ok P "fetch user" (fetch_user P D r.user_id t) _ out e₁ in
      let (userid, i, e₃) = call-ok P "parse user id" (parse_uuid r.user_id) _ out e₂ in
      let message = xpub_message P C S D encode_error approver userid r in
      let (v, s, e₄) =
        bind-ok (check_signature P C S D encode_error approver r.signature message user.public_key)
          _ out e₃ in
      let row : XPub = record {
        id = "";
        user_id = r.user_id;
        xpub = keys_bytes r.xpubs;
        required_signers = r.required_signers;
        date_created = now;
      } in
      let (t'', c, e₅) = call-ok P "create xpub" (create_xpub P D new_id row t) _ out e₄ in
      let same = ok-injective (t'', (no_body, 200)) out e₅ in
      record {
        are_public = check_public-ok P C S r.xpubs k;
        user = user;
        is_user = u;
        userid = userid;
        is_userid = i;
        is_signed =
            check_signature-ok P C S D encode_error approver r.signature message user.public_key v
              s;
        is_created = c ∙ ap (λ (x : Tables PublicKey × (Body (PayloadOf C S) × ℕ)). ok x.0) same;
      }

  -- `AddXPub` leaves the tables as they were, or no key of the request is private, the request is
  -- signed with the key of the user that is stored under its id, and the tables are those that
  -- `CreateXPub` makes.
  pub add_xpub-AddedXPub :
      (failures : AddXPubRequest ExtendedKey Signature → List Invalid)
      (decoded : Outcome Error (AddXPubRequest ExtendedKey Signature)) (new_id : String) (now : ℕ)
      (w : World (Tables PublicKey) (PayloadOf C S))
      → let t' = (add_xpub P C S D encode_error approver failures decoded new_id now w).1.tables in
        (t' ≡ w.tables)
        ⊎ ((r : AddXPubRequest ExtendedKey Signature) × (unmarshal P failures decoded ≡ ok r)
            × AddedXPub new_id now r w.tables t')
  unfolding add_xpub
  add_xpub-AddedXPub failures decoded new_id now w = elim (conclude-tables P encode_error w _) [
    | inl same ↦ inl same
    | inr (t, answer, m, same) ↦
        let (r, q, s) =
          call-ok P "unmarshal request" (unmarshal P failures decoded) _ (t, answer) m in
        inr (r, q, rw same (add_xpub_steps-AddedXPub new_id now r w.tables t answer s))
  ]
