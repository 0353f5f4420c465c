-- ===== src/Bootstrap/Serving.antt =====
-- The handler of the server that `Setup` makes: the request logger around the routes of `API`.
use identity_oracle.Prelude.{ap, ℕ, ◌≡◌, Bool, Option, List, [], ◌∷◌, All}
use identity_oracle.Errors.{◌>>=◌, Outcome, ok, ErrorsPkg}
use identity_oracle.Web.{finished, World}
use identity_oracle.Storage.{Bytes, ObjectStore}
use identity_oracle.Database.{Tables, Driver}
use identity_oracle.Consistency.{IsConsistent}
use identity_oracle.Sessions.{Sql}
use identity_oracle.Signing.{Crypto}
use identity_oracle.Web.App.{Route}
use identity_oracle.Registry.{view, Change}
use identity_oracle.Logging.{Request, Entry, handler}
use identity_oracle.Logging.Entries.{handler-entry}
use identity_oracle.Handlers.{Services, PayloadOf}
use identity_oracle.Handlers.Api.{Incoming, api}
use identity_oracle.Handlers.Endpoints.{Safe, api-Safe}
use identity_oracle.Bootstrap.{Oracle}

-- `webHandler = requestLogger.Handler(webHandler)`, for a request that takes a route, and what net/http
-- sends after it.
abbrev pub web_handler :
    {T D E : Type 0} → Request → Bytes → ℕ → Route T D E → Bool → T → Outcome E (World T D × Entry)
web_handler request new_id elapsed route is_options t = do
  (w, entry) ← handler request new_id elapsed (route.run is_options t)
  ok (record w { response = finished w.response }, entry)

-- The request ends with one line in the log, which has the status that the logging writer kept, and on
-- consistent tables that are at most one change of the registry away.
pub record Served {PublicKey D E : Type 0} (request : Request) (new_id : Bytes) (elapsed : ℕ)
    (is_options : Bool) (t : Tables PublicKey) (route : Route (Tables PublicKey) D E) : Type 0 where
  pub after : World (Tables PublicKey) D
  pub entry : Entry
  pub ends : web_handler request new_id elapsed route is_options t ≡ ok (after, entry)
  pub is_logged : entry.status ≡ after.response.logged
  pub is_consistent : IsConsistent after.tables
  pub is_change : Change (view t) (view after.tables)

Safe-Served :
    {PublicKey D E : Type 0} (request : Request) (new_id : Bytes) (elapsed : ℕ) (is_options : Bool)
    (t : Tables PublicKey) (routes : List (Route (Tables PublicKey) D E))
    → All (λ route. Safe route is_options t) routes
    → All (λ route. Served request new_id elapsed is_options t route) routes
unfolding finished
Safe-Served request new_id elapsed is_options t [] h = tt
Safe-Served request new_id elapsed is_options t (route ∷ routes) (s, h) =
    let (entry, ends, status, level) =
      handler-entry request new_id elapsed (route.run is_options t) s.after s.ends in
    (
      record {
        after = record s.after { response = finished s.after.response };
        entry = entry;
        ends = ap (λ o. do (w, z) ← o; ok (record w { response = finished w.response }, z)) ends;
        is_logged = status;
        is_consistent = s.is_consistent;
        is_change = s.is_change;
      },
      Safe-Served request new_id elapsed is_options t routes h,
    )

module _ (P : ErrorsPkg) (C : Crypto P.Error) (S : Services P.Error C) (O : ObjectStore P.Error)
    (Q : Sql P.Error) (D : Driver P.Error) (encode_error : PayloadOf C S → Option P.Error) where
  open C use {PublicKey}

  -- Whatever a request brings, on consistent tables every route of a service ends without a panic, is
  -- logged once with the status that the logging writer kept, leaves the tables consistent, and changes
  -- the registry of users by at most one change.
  pub web_handler-Served :
      (o : Oracle P C S O Q) (incoming : Incoming P C S) (request : Request) (new_id : Bytes)
      (elapsed : ℕ) (is_options : Bool) (t : Tables PublicKey)
      → IsConsistent t
      → All
          (λ route. Served request new_id elapsed is_options t route)
          (api P C S D encode_error o.environment incoming).routes
  web_handler-Served o incoming request new_id elapsed is_options t c =
      Safe-Served request new_id elapsed is_options t
        (api P C S D encode_error o.environment incoming).routes
        (api-Safe P C S D encode_error is_options o.environment incoming t c)
