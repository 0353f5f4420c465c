-- ===== src/Handlers/Journey.antt =====
-- What a new user does: `Register`, then `AddXPub`, and what the service finds for the keys afterwards.
use identity_oracle.Prelude.{
  Bool, ℕ, String, ◌≡◌, refl, ◌∙◌, ap, ◌++◌, true, false, Option, none, List, [], ◌∷◌, All,
}
use identity_oracle.Web.{Handler, no_body, data_body, Response, World, unmarshal, respond}
use identity_oracle.Web.Chain.{serve}
use identity_oracle.Web.Recovery.{app_middleware, start}
use identity_oracle.Handlers.Answers.{Succeeds, serve-Succeeds}
use identity_oracle.Prelude.Int.{is_int32}
use identity_oracle.Prelude.Equality.{◌==◌, string_comparable}
use identity_oracle.Prelude.Keys.{bytes_comparable}
use identity_oracle.Errors.{Outcome, ok, Invalid, xpub_not_found, ErrorsPkg}
use identity_oracle.Storage.{Bytes}
use identity_oracle.Database.{
  User, XPub, Tables, Driver, Statement, or_not_found, get, row_exists, users_insert, users_select,
  xpubs_insert, xpubs_select_user_id, users_select_by_xpub,
}
use identity_oracle.Database.Rows.{get-one}
use identity_oracle.Users.{user_rows, user_rows_by_xpub, fetch_user, fetch_user_by_xpub}
use identity_oracle.XPubs.{xpub_rows, fetch_user_id_by_xpub}
use identity_oracle.Consistency.Changes.{user_rows-create_user}
use identity_oracle.Consistency.FreeKeys.{unowned, AreFree, owned_by-free, xpub_rows-free}
use identity_oracle.Consistency.Lookup.{fetch_user-create_user}
use identity_oracle.Signing.{Crypto}
use identity_oracle.Handlers.{Services, Approver, user_created, user_payload, PayloadOf, conclude}
use identity_oracle.Handlers.Oracle.{
  RegisterRequest, AddXPubRequest, xpub_message, register, add_xpub, user, user_steps,
}
use identity_oracle.Handlers.Served.{
  Registrable, new_user, register-Registrable, Addable, new_xpub, add_xpub-Addable, create_user-new,
  check_public-all,
}

module _ (P : ErrorsPkg) (C : Crypto P.Error) (S : Services P.Error C) (D : Driver P.Error)
    (encode_error : PayloadOf C S → Option P.Error)
    (approver : Option (Approver P.Error C.PublicKey)) where
  open P use {Error}
  open C use {ExtendedKey, PublicKey, keys_bytes}
  open S use {Signature, verify, sha256, parse_uuid, is_private, unmarshal_entity}

  -- A registration in order, and a request for keys in order that the new user signed, for keys that
  -- nobody has.
  pub record IsJourney (user_id xpub_id : String) (r : RegisterRequest PublicKey Signature)
      (a : AddXPubRequest ExtendedKey Signature) (t : Tables PublicKey) : Type 0 where
    pub in_order : Registrable P C S D encode_error approver user_id r t
    pub is_own : a.user_id ≡ user_id
    pub are_public : All (λ k. is_private k ≡ false) a.xpubs
    pub userid : Bytes
    pub is_userid : parse_uuid a.user_id ≡ ok userid
    pub is_signed :
        verify a.signature
          (sha256 (sha256 (xpub_message P C S D encode_error approver userid a)))
          r.public_key
        ≡ true
    pub fits : is_int32 a.required_signers ≡ true
    pub is_new : row_exists (λ x. x.id == xpub_id) t.xpubs ≡ false
    pub are_free : AreFree (keys_bytes a.xpubs) t

  -- The tables after the two requests.
  abbrev pub after_journey : User PublicKey → XPub → Tables PublicKey → Tables PublicKey
  after_journey u x t = record { users = t.users ++ u ∷ []; xpubs = t.xpubs ++ x ∷ [] }

  -- `User` on keys that one user has.
  user-found :
      (failures : List ExtendedKey → List Invalid) (decoded : Outcome Error (List ExtendedKey))
      (xpubs : List ExtendedKey) (w : World (Tables PublicKey) (PayloadOf C S)) (x : XPub)
      → D.fault xpubs_select_user_id ≡ none
      → unmarshal P failures decoded ≡ ok xpubs
      → All (λ k. is_private k ≡ false) xpubs
      → xpub_rows (keys_bytes xpubs) w.tables ≡ x ∷ []
      → user P C S D encode_error approver failures decoded w ≡ (
        ok tt,
        record w {
          response = respond P encode_error (data_body (user_payload x.user_id)) 200 w.response;
        },
      )
  unfolding user user_steps fetch_user_id_by_xpub conclude
  user-found failures decoded xpubs w x f u p rows =
      let found : get P D xpubs_select_user_id (xpub_rows (keys_bytes xpubs) w.tables) ≡ ok x =
        rw rows (get-one P D xpubs_select_user_id x f) in
      rw (u, check_public-all P C S D encode_error approver xpubs p, found) refl

  module _ (no_faults : (s : Statement) → D.fault s ≡ none) (user_id xpub_id : String)
      (created modified now : ℕ) (r : RegisterRequest PublicKey Signature)
      (a : AddXPubRequest ExtendedKey Signature) (t : Tables PublicKey)
      (j : IsJourney user_id xpub_id r a t) where
    abbrev pub joined : User PublicKey
    joined =
        new_user P C S D encode_error approver user_id created modified r.public_key
          j.in_order.entity

    abbrev pub row : XPub
    row = new_xpub P C S D encode_error approver xpub_id now a

    joined-fetched :
        fetch_user P D a.user_id (record t { users = t.users ++ joined ∷ [] }) ≡ ok joined
    joined-fetched = rw j.is_own (
        fetch_user-create_user P D unmarshal_entity joined t
          (record t { users = t.users ++ joined ∷ [] }) (no_faults users_select) refl
          (create_user-new P D unmarshal_entity joined t j.in_order.stored (no_faults users_insert)
            j.in_order.is_stored j.in_order.is_new))

    row-added :
        (failures : AddXPubRequest ExtendedKey Signature → List Invalid)
        (decoded : Outcome Error (AddXPubRequest ExtendedKey Signature))
        (response : Response (PayloadOf C S))
        → unmarshal P failures decoded ≡ ok a
        → add_xpub P C S D encode_error approver failures decoded xpub_id now
            (record { tables = record t { users = t.users ++ joined ∷ [] }; response = response })
          ≡ (
            ok tt,
            record {
              tables = after_journey joined row t;
              response = respond P encode_error no_body 200 response;
            },
          )
    row-added failures decoded response u =
        let t₁ : Tables PublicKey = record t { users = t.users ++ joined ∷ [] } in
        let addable : Addable P C S D encode_error approver xpub_id a t₁ = record {
          are_public = j.are_public;
          user = joined;
          is_user = joined-fetched;
          userid = j.userid;
          is_userid = j.is_userid;
          is_signed = j.is_signed;
          fits = j.fits;
          is_new = j.is_new;
        } in
        rw (unowned (keys_bytes a.xpubs) a.user_id t.xpubs j.are_free) at (
          add_xpub-Addable P C S D encode_error approver failures decoded xpub_id now
            (record { tables = t₁; response = response }) a (no_faults xpubs_insert) u addable)

    user-owns : fetch_user_by_xpub P D (keys_bytes a.xpubs) (after_journey joined row t) ≡ ok joined
    unfolding fetch_user_by_xpub user_rows_by_xpub user_rows
    user-owns =
        let users = t.users ++ joined ∷ [] in
        let created_now =
          create_user-new P D unmarshal_entity joined t j.in_order.stored (no_faults users_insert)
            j.in_order.is_stored j.in_order.is_new in
        let one : user_rows user_id (record t { users = users }) ≡ joined ∷ [] =
          user_rows-create_user P D unmarshal_entity joined t (record t { users = users }) refl
            created_now in
        let rows : user_rows_by_xpub (keys_bytes a.xpubs) (after_journey joined row t)
            ≡ joined ∷ [] =
          owned_by-free (keys_bytes a.xpubs) t.xpubs row users j.are_free refl ∙ rw j.is_own one in
        ap (λ found. or_not_found P xpub_not_found "xpubs" (get P D users_select_by_xpub found))
          rows
        ∙ ap (or_not_found P xpub_not_found "xpubs")
            (get-one P D users_select_by_xpub joined (no_faults users_select_by_xpub))

    -- If the database does not fail, the encoder takes the answers, and both requests are in order: a new
    -- user registers, adds keys that nobody has, and then asks for these keys, as the three handlers are
    -- mounted. Each request is answered with status 200, the last with the id that the first answered
    -- with, and right after the keys were added `FetchUserByXPub`, which the signing handlers ask, finds
    -- the entity and the key that were registered.
    pub user-add_xpub-register :
        (is_options : Bool) (register_failures : RegisterRequest PublicKey Signature → List Invalid)
        (to_register : Outcome Error (RegisterRequest PublicKey Signature))
        (add_failures : AddXPubRequest ExtendedKey Signature → List Invalid)
        (to_add : Outcome Error (AddXPubRequest ExtendedKey Signature))
        (user_failures : List ExtendedKey → List Invalid)
        (to_find : Outcome Error (List ExtendedKey))
        → encode_error (user_created "User Created" user_id) ≡ none
        → encode_error (user_payload user_id) ≡ none
        → unmarshal P register_failures to_register ≡ ok r
        → unmarshal P add_failures to_add ≡ ok a
        → unmarshal P user_failures to_find ≡ ok a.xpubs
        → (w₁ : World (Tables PublicKey) (PayloadOf C S)) × (w₂ : World
            (Tables PublicKey)
            (PayloadOf C S))
          × (w₃ : World (Tables PublicKey) (PayloadOf C S)) × (serve P encode_error
                (register P C S D encode_error approver register_failures to_register user_id
                  created modified)
                []
                (app_middleware P encode_error is_options)
                t
              ≡ ok w₁)
          × (serve P encode_error
                (add_xpub P C S D encode_error approver add_failures to_add xpub_id now)
                []
                (app_middleware P encode_error is_options)
                w₁.tables
              ≡ ok w₂)
          × (serve P encode_error
                (user P C S D encode_error approver user_failures to_find)
                []
                (app_middleware P encode_error is_options)
                w₂.tables
              ≡ ok w₃)
          × Succeeds P encode_error
              (data_body (user_created "User Created" user_id))
              (record t { users = t.users ++ joined ∷ [] })
              w₁
          × Succeeds P encode_error no_body (after_journey joined row t) w₂
          × Succeeds P encode_error
              (data_body (user_payload user_id))
              (after_journey joined row t)
              w₃
          × (fetch_user_by_xpub P D (keys_bytes a.xpubs) w₂.tables ≡ ok joined)
    user-add_xpub-register is_options register_failures to_register add_failures to_add
          user_failures to_find b₁ b₃ u₁ u₂ u₃ =
        let t₁ : Tables PublicKey = record t { users = t.users ++ joined ∷ [] } in
        let t₂ : Tables PublicKey = after_journey joined row t in
        let registering =
          register P C S D encode_error approver register_failures to_register user_id created
            modified in
        let adding = add_xpub P C S D encode_error approver add_failures to_add xpub_id now in
        let finding = user P C S D encode_error approver user_failures to_find in
        let first =
          register-Registrable P C S D encode_error approver register_failures to_register user_id
            created modified (start P encode_error is_options t) r (no_faults users_insert) u₁
            j.in_order in
        let second =
          row-added add_failures to_add (start P encode_error is_options t₁).response u₂ in
        let third =
          user-found user_failures to_find a.xpubs (start P encode_error is_options t₂) row
            (no_faults xpubs_select_user_id) u₃ j.are_public
            (xpub_rows-free (keys_bytes a.xpubs) t₁ row j.are_free refl) in
        let (w₁, e₁, s₁) =
          serve-Succeeds P encode_error is_options registering t t₁
            (data_body (user_created "User Created" user_id)) first b₁ in
        let (w₂, e₂, s₂) =
          serve-Succeeds P encode_error is_options adding t₁ t₂ no_body second tt in
        let (w₃, e₃, s₃) =
          serve-Succeeds P encode_error is_options finding t₂ t₂ (data_body (user_payload user_id))
            (third ∙ rw j.is_own refl) b₃ in
        let mounted =
          λ (h : Handler (Tables PublicKey) (PayloadOf C S) Error) (z : Tables PublicKey).
            serve P encode_error h [] (app_middleware P encode_error is_options) z in
        (
          w₁,
          w₂,
          w₃,
          e₁,
          ap (mounted adding) s₁.2 ∙ e₂,
          ap (mounted finding) s₂.2 ∙ e₃,
          s₁,
          s₂,
          s₃,
          ap (fetch_user_by_xpub P D (keys_bytes a.xpubs)) s₂.2 ∙ user-owns,
        )
