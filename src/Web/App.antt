-- ===== src/Web/App.antt =====
-- internal/platform/web/web.go: the application, its middleware and its table of routes. Which route a
-- request takes is decided by the package httptreemux. The method of the request tells `CORS` whether
-- it is a preflight.
use identity_oracle.Prelude.{String, Bool, Option, none, some, List, [], ◌∷◌, ◌++◌, map}
use identity_oracle.Errors.{Outcome, ErrorsPkg}
use identity_oracle.Web.{Response, World, Handler}
use identity_oracle.Web.Chain.{Middleware, serve}

-- A verb and a path with the function that `Handle` mounts for them.
pub record Route (T D E : Type 0) : Type 0 where
  pub verb : String
  pub path : String
  pub run : Bool → T → Outcome E (World T D)

pub record App (T D E : Type 0) : Type 0 where
  pub mw : List (Bool → Middleware T D E)
  pub routes : List (Route T D E)
  pub options_handler : Option (Bool → Response D → Response D)

module _ {T D E : Type 0} where
  abbrev pub new : List (Bool → Middleware T D E) → App T D E
  new mw = record { mw = mw; routes = []; options_handler = none }

  abbrev pub add_middleware : List (Bool → Middleware T D E) → App T D E → App T D E
  add_middleware mw app = record app { mw = app.mw ++ mw }

  abbrev pub handle_options : (Bool → Response D → Response D) → App T D E → App T D E
  handle_options handler app = record app { options_handler = some handler }

module _ (P : ErrorsPkg) {T D : Type 0} (encode_error : D → Option P.Error) where
  open P use {Error}

  -- `Handle`: the middleware is that which the application has at the time of the call.
  unfoldable pub handle :
      String
      → String
      → Handler T D Error
      → List (Bool → Middleware T D Error)
      → App T D Error
      → App T D Error
  unfolding serve
  handle verb path handler mw app = record app {
    routes =
        app.routes
        ++ record {
          verb = verb;
          path = path;
          run = λ is_options.
              serve P encode_error handler (map (λ m. m is_options) mw)
                (map (λ m. m is_options) app.mw);
        }
          ∷ [];
  }
