-- ===== src/Handlers/Endpoints.antt =====
-- handlers/routes.go: every route of `API`, from the tables that it finds to those that it leaves,
-- under the whole chain of middleware.
use identity_oracle.Prelude.{String, ◌≡◌, refl, Bool, Option, [], All}
use identity_oracle.Errors.{ok, ErrorsPkg}
use identity_oracle.Database.{Tables, Driver}
use identity_oracle.Consistency.{IsConsistent}
use identity_oracle.Signing.{Crypto}
use identity_oracle.Web.{World, Handler}
use identity_oracle.Web.App.{Route, handle}
use identity_oracle.Web.Recovery.{app_middleware, start, serve-tables}
use identity_oracle.Web.Chain.{serve}
use identity_oracle.Registry.{view, Change}
use identity_oracle.Registry.Refinement.{serve_request-Change, unchanged}
use identity_oracle.Handlers.{Services, PayloadOf, status_payload}
use identity_oracle.Handlers.Runs.{
  Request, to_register, to_add_xpub, to_update_identity, serve_request, serve_request-IsConsistent,
}
use identity_oracle.Handlers.ReadOnly.{
  IsReadOnly, health-IsReadOnly, identity-IsReadOnly, user-IsReadOnly,
  transfer_signature-IsReadOnly, pub_key_signature-IsReadOnly, xpub_signature-IsReadOnly,
  admin_certificate-IsReadOnly,
}
use identity_oracle.Handlers.Api.{Environment, Incoming, api}

-- On consistent tables a request ends, on consistent tables that are one change of the registry away.
pub record Safe {PublicKey D E : Type 0} (route : Route (Tables PublicKey) D E) (is_options : Bool)
    (t : Tables PublicKey) : Type 0 where
  pub after : World (Tables PublicKey) D
  pub ends : route.run is_options t ≡ ok after
  pub is_consistent : IsConsistent after.tables
  pub is_change : Change (view t) (view after.tables)

module _ (P : ErrorsPkg) (C : Crypto P.Error) (S : Services P.Error C) (D : Driver P.Error)
    (encode_error : PayloadOf C S → Option P.Error) (is_options : Bool) where
  open P use {Error}
  open C use {PublicKey}

  abbrev TableHandler : Type 0
  TableHandler = Handler (Tables PublicKey) (PayloadOf C S) Error

  abbrev mounted : String → String → TableHandler → Route (Tables PublicKey) (PayloadOf C S) Error
  mounted verb path h = record {
    verb = verb;
    path = path;
    run = λ o. serve P encode_error h [] (app_middleware P encode_error o);
  }

  reading :
      (verb path : String) (h : TableHandler) (t : Tables PublicKey)
      → IsReadOnly h
      → IsConsistent t
      → Safe (mounted verb path h) is_options t
  reading verb path h t same c =
      let (w, ends, kept) = serve-tables P encode_error is_options h t in
      let here : w.tables ≡ t = cc (kept, same (start P encode_error is_options t)) in
      record {
        after = w;
        ends = ends;
        is_consistent = rw here c;
        is_change = unchanged P C S D encode_error t w.tables here;
      }

  -- A handler that serves one of the requests that write.
  writing :
      (verb path : String) (h : TableHandler) (t : Tables PublicKey)
      (r : Request P C S D encode_error)
      → ((w : World (Tables PublicKey) (PayloadOf C S))
          → (h w).1.tables ≡ serve_request P C S D encode_error r w)
      → IsConsistent t
      → Safe (mounted verb path h) is_options t
  writing verb path h t r serves c =
      let (w, ends, kept) = serve-tables P encode_error is_options h t in
      let w₀ = start P encode_error is_options t in
      let here : w.tables ≡ serve_request P C S D encode_error r w₀ = cc (kept, serves w₀) in
      record {
        after = w;
        ends = ends;
        is_consistent = rw here (serve_request-IsConsistent P C S D encode_error r w₀ c);
        is_change = rw here (serve_request-Change P C S D encode_error r w₀ c);
      }

  -- Whatever a request brings, on consistent tables every route of the service ends, leaves the tables
  -- consistent, and changes the registry of users by at most one change.
  pub api-Safe :
      (env : Environment P C S) (incoming : Incoming P C S) (t : Tables PublicKey)
      → IsConsistent t
      → All (λ route. Safe route is_options t) (api P C S D encode_error env incoming).routes
  unfolding api handle
  api-Safe env incoming t c =
      let d = incoming.decoded in
      let v = env.validator in
      let a = env.approver in
      (
        reading "GET" "/health" _ t
            (health-IsReadOnly P encode_error status_payload incoming.checked) c,
        (
          reading "GET" "/oracle/id" _ t
              (identity-IsReadOnly P C S D encode_error a env.contract_address env.key) c,
          (
            writing "POST" "/oracle/register" _ t
                (to_register a v.register_failures d.as_register incoming.new_id incoming.created
                  incoming.now)
                (λ w. refl) c,
            (
              writing "POST" "/oracle/addXPub" _ t
                  (to_add_xpub a v.add_xpub_failures d.as_add_xpub incoming.new_id incoming.now)
                  (λ w. refl) c,
              (
                reading "POST" "/oracle/user" _ t
                    (user-IsReadOnly P C S D encode_error a v.user_failures d.as_user) c,
                (
                  writing "POST" "/oracle/updateIdentity" _ t
                      (to_update_identity a v.update_identity_failures d.as_update_identity
                        incoming.now)
                      (λ w. refl) c,
                  (
                    reading "POST" "/transfer/approve" _ t
                        (transfer_signature-IsReadOnly P C S D encode_error a v.transfer_failures
                          d.as_transfer incoming.now env.transfer_expiration_duration_seconds
                          incoming.headers)
                        c,
                    (
                      reading "POST" "/identity/verifyPubKey" _ t
                          (pub_key_signature-IsReadOnly P C S D encode_error a incoming.headers
                            v.pub_key_failures d.as_pub_key)
                          c,
                      (
                        reading "POST" "/identity/verifyXPub" _ t
                            (xpub_signature-IsReadOnly P C S D encode_error a incoming.headers
                              v.xpub_failures d.as_xpub)
                            c,
                        (
                          reading "POST" "/identity/verifyAdmin" _ t
                              (admin_certificate-IsReadOnly P C S D encode_error a incoming.headers
                                v.admin_failures d.as_admin incoming.contracts incoming.now
                                env.identity_expiration_duration_seconds)
                              c,
                          tt,
                        ),
                      ),
                    ),
                  ),
                ),
              ),
            ),
          ),
        ),
      )
