-- ===== src/Handlers/Runs.antt =====
-- The tables over a run of the service: any sequence of requests to the three handlers that write.
use identity_oracle.Prelude.{ℕ, String, inl, inr, Option, List}
use identity_oracle.Errors.{Outcome, Invalid, ErrorsPkg}
use identity_oracle.Database.{Tables, Driver}
use identity_oracle.Consistency.{IsConsistent}
use identity_oracle.Consistency.Preservation.{
  create_user-IsConsistent, create_xpub-IsConsistent, update_user-IsConsistent,
}
use identity_oracle.Signing.{Crypto}
use identity_oracle.Web.{World}
use identity_oracle.Handlers.{Services, Approver, PayloadOf}
use identity_oracle.Handlers.Oracle.{
  RegisterRequest, AddXPubRequest, UpdateIdentityRequest, register, add_xpub, update_identity,
}
use identity_oracle.Handlers.Authority.{register-Registered}
use identity_oracle.Handlers.Additions.{add_xpub-AddedXPub}
use identity_oracle.Handlers.Updates.{update_identity-Updated}

module _ (P : ErrorsPkg) (C : Crypto P.Error) (S : Services P.Error C) (D : Driver P.Error)
    (encode_error : PayloadOf C S → Option P.Error) where
  open P use {Error}
  open C use {ExtendedKey, PublicKey}
  open S use {Signature, unmarshal_entity}

  -- One request, whatever it holds, whatever the clock and the ids are, and whoever approves.
  pub data Request : Type 0 where
    to_register :
        Option (Approver Error PublicKey)
        → (RegisterRequest PublicKey Signature → List Invalid)
        → Outcome Error (RegisterRequest PublicKey Signature)
        → String
        → ℕ
        → ℕ
        → Request
    to_add_xpub :
        Option (Approver Error PublicKey)
        → (AddXPubRequest ExtendedKey Signature → List Invalid)
        → Outcome Error (AddXPubRequest ExtendedKey Signature)
        → String
        → ℕ
        → Request
    to_update_identity :
        Option (Approver Error PublicKey)
        → (UpdateIdentityRequest Signature → List Invalid)
        → Outcome Error (UpdateIdentityRequest Signature)
        → ℕ
        → Request

  abbrev pub serve_request : Request → World (Tables PublicKey) (PayloadOf C S) → Tables PublicKey
  serve_request (to_register approver failures decoded id created modified) w =
      (register P C S D encode_error approver failures decoded id created modified w).1.tables
  serve_request (to_add_xpub approver failures decoded id now) w =
      (add_xpub P C S D encode_error approver failures decoded id now w).1.tables
  serve_request (to_update_identity approver failures decoded now) w =
      (update_identity P C S D encode_error approver failures decoded now w).1.tables

  -- The tables that a run of requests can lead to.
  pub data Reachable (start : Tables PublicKey) : Tables PublicKey → Type 0 where
    at_start : Reachable start start
    served :
        (w : World (Tables PublicKey) (PayloadOf C S)) (request : Request)
        → Reachable start w.tables
        → Reachable start (serve_request request w)

  pub serve_request-IsConsistent :
      (request : Request) (w : World (Tables PublicKey) (PayloadOf C S))
      → IsConsistent w.tables
      → IsConsistent (serve_request request w)
  serve_request-IsConsistent (to_register approver failures decoded id created modified) w c =
      elim (register-Registered P C S D encode_error approver failures decoded id created modified
        w) [
          | inl same ↦ rw same c
          | inr (r, q, done) ↦
              create_user-IsConsistent P D unmarshal_entity _ w.tables _ c done.is_created
        ]
  serve_request-IsConsistent (to_add_xpub approver failures decoded id now) w c =
      elim (add_xpub-AddedXPub P C S D encode_error approver failures decoded id now w) [
        | inl same ↦ rw same c
        | inr (r, q, done) ↦ create_xpub-IsConsistent P D id _ w.tables _ c done.is_created
      ]
  serve_request-IsConsistent (to_update_identity approver failures decoded now) w c =
      elim (update_identity-Updated P C S D encode_error approver failures decoded now w) [
        | inl same ↦ rw same c
        | inr (r, q, done) ↦
            update_user-IsConsistent P D unmarshal_entity now _ w.tables _ c done.is_updated
      ]

  -- Whatever requests are served, tables that met the keys and the references of the schema at the
  -- start meet them ever after.
  pub Reachable-IsConsistent :
      (start t : Tables PublicKey) → IsConsistent start → Reachable start t → IsConsistent t
  Reachable-IsConsistent start t c at_start = c
  Reachable-IsConsistent start t c (served w request before) =
      serve_request-IsConsistent request w (Reachable-IsConsistent start w.tables c before)
