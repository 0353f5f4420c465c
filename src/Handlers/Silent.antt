-- ===== src/Handlers/Silent.antt =====
-- The exit of `TransferSignature` of handlers/transfers.go that sends nothing.
use identity_oracle.Prelude.{
  ℕ, String, ◌≡◌, refl, ◌∙◌, ◌⊎◌, ◌↔◌, inl, inr, Bool, Option, none, some, List, [], arith,
  Option-cases,
}
use identity_oracle.Web.{Body, World, unmarshal}
use identity_oracle.Errors.{Outcome, ok, err, ◌>>=◌, Outcome-cases, Invalid, ErrorsPkg}
use identity_oracle.Database.{User, Tables, Driver}
use identity_oracle.Users.{fetch_user_by_xpub}
use identity_oracle.Signing.{Crypto, create_receive_signature}
use identity_oracle.Web.Chain.{serve}
use identity_oracle.Web.Recovery.{app_middleware, serve-chain}
use identity_oracle.Handlers.{
  Services, Approver, PayloadOf, Exit, silent, call, request, check_public, expiration_at,
}
use identity_oracle.Handlers.Transfers.{
  TransferRequest, approve_transfer, transfer_steps, transfer_signature,
}
use identity_oracle.Handlers.Answers.{IsLoud, call-IsLoud}
use identity_oracle.Handlers.Loud.{check_public-IsLoud}
use identity_oracle.Handlers.Silence.{
  Speaks, bind-Speaks, bind-silent, loud-silent, call-ok_value, IsEmptySuccess, concluded-silent,
}

module _ (P : ErrorsPkg) (C : Crypto P.Error) (S : Services P.Error C) (D : Driver P.Error)
    (encode_error : PayloadOf C S → Option P.Error)
    (approver : Option (Approver P.Error C.PublicKey)) where
  open P use {Error}
  open C use {ExtendedKey, PublicKey, Hash, keys_bytes}
  open S use {sign}

  approve_transfer-silent :
      (contract instrument id : String) (a : Approver Error PublicKey) (e : Error)
      → approver ≡ some a
      → a.approve_transfer contract instrument id ≡ err e
      → approve_transfer P C S D encode_error approver contract instrument id ≡ err silent
  unfolding approve_transfer
  approve_transfer-silent contract instrument id a e p x = rw (p, approve_transfer) (rw x refl)

  transfer_steps-silent :
      (now seconds : ℕ) (headers : Outcome Error (Hash × ℕ)) (t : Tables PublicKey)
      (r : TransferRequest ExtendedKey) (user : User PublicKey)
      → check_public P C S r.xpubs ≡ ok tt
      → fetch_user_by_xpub P D (keys_bytes r.xpubs) t ≡ ok user
      → approve_transfer P C S D encode_error approver r.contract r.instrument_id user.id
        ≡ err silent
      → transfer_steps P C S D encode_error approver now seconds headers r t ≡ err silent
  unfolding transfer_steps
  transfer_steps-silent now seconds headers t r user k u x = rw (k, u, x, transfer_steps) refl

  approve_transfer-fails :
      (contract instrument id : String)
      → approve_transfer P C S D encode_error approver contract instrument id ≡ err silent
      → (a : Approver Error PublicKey) × (e : Error) × (approver ≡ some a)
        × (a.approve_transfer contract instrument id ≡ err e)
  unfolding approve_transfer
  approve_transfer-fails contract instrument id q = elim (Option-cases approver) [
    | inl n ↦ absurd (ground arith)
    | inr (a, p) ↦ elim (Outcome-cases (a.approve_transfer contract instrument id)) [
      | inl (answer, x) ↦ absurd (ground arith)
      | inr (inl (e, x)) ↦ (a, e, p, x)
      | inr (inr x) ↦ absurd (ground arith)
    ]
  ]

  approve_transfer-or :
      (contract instrument id : String)
      → (approve_transfer P C S D encode_error approver contract instrument id ≡ err silent)
        ⊎ IsLoud P encode_error
            (approve_transfer P C S D encode_error approver contract instrument id)
  unfolding approve_transfer
  approve_transfer-or contract instrument id = elim (Option-cases approver) [
    | inl n ↦ inr (rw (n, approve_transfer) tt)
    | inr (a, p) ↦ elim (Outcome-cases (a.approve_transfer contract instrument id)) [
      | inl (answer, x) ↦ inr (rw (p, approve_transfer) (rw x tt))
      | inr (inl (e, x)) ↦ inl (approve_transfer-silent contract instrument id a e p x)
      | inr (inr x) ↦ inr (rw (p, approve_transfer) (rw x tt))
    ]
  ]

  -- A request for a receipt that gets as far as the approver, whose answer is an error.
  pub record ApproverFails (failures : TransferRequest ExtendedKey → List Invalid)
      (decoded : Outcome Error (TransferRequest ExtendedKey)) (t : Tables PublicKey) : Type 0 where
    pub request : TransferRequest ExtendedKey
    pub is_request : unmarshal P failures decoded ≡ ok request
    pub are_public : check_public P C S request.xpubs ≡ ok tt
    pub user : User PublicKey
    pub is_user : fetch_user_by_xpub P D (keys_bytes request.xpubs) t ≡ ok user
    pub asked : Approver Error PublicKey
    pub is_asked : approver ≡ some asked
    pub error : Error
    pub is_error : asked.approve_transfer request.contract request.instrument_id user.id ≡ err error

  module _ (now seconds : ℕ) (headers : Outcome Error (Hash × ℕ)) (t : Tables PublicKey) where
    steps :
        (TransferRequest ExtendedKey → List Invalid)
        → Outcome Error (TransferRequest ExtendedKey)
        → Outcome (Exit Error (PayloadOf C S)) (Tables PublicKey × (Body (PayloadOf C S) × ℕ))
    steps failures decoded = do
      r ← request P failures decoded
      transfer_steps P C S D encode_error approver now seconds headers r t

    steps-silent :
        (failures : TransferRequest ExtendedKey → List Invalid)
        (decoded : Outcome Error (TransferRequest ExtendedKey))
        → steps failures decoded ≡ err silent
        → ApproverFails failures decoded t
    unfolding steps transfer_steps
    steps-silent failures decoded e =
        let (r, q, e₁) =
          loud-silent P encode_error (request P failures decoded) _
            (call-IsLoud P encode_error "unmarshal request" (unmarshal P failures decoded)) e in
        let (public, k, e₂) =
          loud-silent P encode_error (check_public P C S r.xpubs) _
            (check_public-IsLoud P C S encode_error r.xpubs) e₁ in
        let (u, f, e₃) =
          loud-silent P encode_error
            (call P "fetch user" (fetch_user_by_xpub P D (keys_bytes r.xpubs) t)) _
            (call-IsLoud P encode_error "fetch user"
              (fetch_user_by_xpub P D (keys_bytes r.xpubs) t))
            e₂ in
        let asking : approve_transfer P C S D encode_error approver r.contract r.instrument_id u.id
            ≡ err silent =
          elim (bind-silent P encode_error
            (approve_transfer P C S D encode_error approver r.contract r.instrument_id u.id) _ e₃) [
              | inl x ↦ x
              | inr (answer, x, e₄) ↦
                  let (s, y, e₅) =
                    loud-silent P encode_error _ _
                      (call-IsLoud P encode_error "create signature" (
                        create_receive_signature P C D t headers r.contract r.instrument_id r.xpubs
                          r.index (expiration_at now seconds) answer.0))
                      e₄ in
                  let (sig, z, e₆) =
                    loud-silent P encode_error _ _ (call-IsLoud P encode_error "sign" (sign s.0))
                      e₅ in
                  absurd (ground (arith, e₆))
            ] in
        let (a, x, p, y) = approve_transfer-fails r.contract r.instrument_id u.id asking in
        record {
          request = r;
          is_request =
              call-ok_value P encode_error "unmarshal request" (unmarshal P failures decoded) r q;
          are_public = k;
          user = u;
          is_user =
              call-ok_value P encode_error "fetch user"
                (fetch_user_by_xpub P D (keys_bytes r.xpubs) t) u f;
          asked = a;
          is_asked = p;
          error = x;
          is_error = y;
        }

    steps-fails :
        (failures : TransferRequest ExtendedKey → List Invalid)
        (decoded : Outcome Error (TransferRequest ExtendedKey))
        → ApproverFails failures decoded t
        → steps failures decoded ≡ err silent
    unfolding steps
    steps-fails failures decoded g =
        rw (g.is_request, steps)
          (transfer_steps-silent now seconds headers t g.request g.user g.are_public g.is_user (
            approve_transfer-silent g.request.contract g.request.instrument_id g.user.id g.asked
              g.error g.is_asked g.is_error))

    transfer_steps-or :
        (encodes : (d : PayloadOf C S) → encode_error d ≡ none) (r : TransferRequest ExtendedKey)
        → (transfer_steps P C S D encode_error approver now seconds headers r t ≡ err silent)
          ⊎ Speaks P encode_error
              (transfer_steps P C S D encode_error approver now seconds headers r t)
    unfolding transfer_steps
    transfer_steps-or encodes r =
        bind-Speaks P encode_error (check_public P C S r.xpubs) _
          (check_public-IsLoud P C S encode_error r.xpubs)
          (λ public.
            bind-Speaks P encode_error
              (call P "fetch user" (fetch_user_by_xpub P D (keys_bytes r.xpubs) t)) _
              (call-IsLoud P encode_error "fetch user"
                (fetch_user_by_xpub P D (keys_bytes r.xpubs) t))
              (λ u. elim (approve_transfer-or r.contract r.instrument_id u.id) [
                | inl x ↦ inl (rw x refl)
                | inr l ↦ bind-Speaks P encode_error _ _ l (λ answer.
                    bind-Speaks P encode_error _ _
                      (call-IsLoud P encode_error "create signature" (
                        create_receive_signature P C D t headers r.contract r.instrument_id r.xpubs
                          r.index (expiration_at now seconds) answer.0))
                      (λ s.
                        bind-Speaks P encode_error _ _
                          (call-IsLoud P encode_error "sign" (sign s.0))
                          (λ sig. inr (refl, encodes _))))
              ]))

    steps-or :
        (encodes : (d : PayloadOf C S) → encode_error d ≡ none)
        (failures : TransferRequest ExtendedKey → List Invalid)
        (decoded : Outcome Error (TransferRequest ExtendedKey))
        → (steps failures decoded ≡ err silent) ⊎ Speaks P encode_error (steps failures decoded)
    unfolding steps
    steps-or encodes failures decoded =
        bind-Speaks P encode_error (request P failures decoded) _
          (call-IsLoud P encode_error "unmarshal request" (unmarshal P failures decoded))
          (transfer_steps-or encodes)

    -- If the encoder takes every payload: the client of a request for a receipt gets an empty answer with
    -- the status 200 of success exactly if the approver answered with an error. The error is lost. Every
    -- other request ends in an answer with a body or with another status.
    pub transfer_signature-approver_error :
        (is_options : Bool) (failures : TransferRequest ExtendedKey → List Invalid)
        (decoded : Outcome Error (TransferRequest ExtendedKey))
        → ((d : PayloadOf C S) → encode_error d ≡ none)
        → (w : World (Tables PublicKey) (PayloadOf C S)) × (serve P encode_error
              (transfer_signature P C S D encode_error approver failures decoded now seconds
                headers)
              []
              (app_middleware P encode_error is_options)
              t
            ≡ ok w)
          × (IsEmptySuccess P encode_error w.response ↔ ApproverFails failures decoded t)
    unfolding transfer_signature steps
    transfer_signature-approver_error is_options failures decoded encodes =
        let (w, ends, (to, back)) =
          concluded-silent P encode_error is_options t (steps failures decoded)
            (steps-or encodes failures decoded) in
        (
          w,
          serve-chain P encode_error is_options
                (transfer_signature P C S D encode_error approver failures decoded now seconds
                  headers)
                t
              ∙ ends,
          (λ x. steps-silent failures decoded (to x), λ g. back (steps-fails failures decoded g)),
        )
