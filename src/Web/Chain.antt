-- ===== src/Web/Chain.antt =====
-- internal/platform/web/middleware.go and web.go, internal/mid/errors.go and internal/mid/cors.go:
-- the chain of middleware around a handler. The route of a request, the tracing and the log are not
-- kept.
use identity_oracle.Prelude.{
  ℕ, zero, suc, ◌≡◌, refl, ◌∙◌, ap, Bool, true, Option, none, some, List, [], ◌∷◌, length,
  get_elem?, if◌then◌else◌,
}
use identity_oracle.Errors.{Outcome, ok, err, panic, literal, ErrorsPkg}
use identity_oracle.Web.{Response, World, Handler, set_header, no_response, respond_error, error}

-- `Middleware`, which may be nil.
abbrev pub Middleware : Type 0 → Type 0 → Type 0 → Type 0
Middleware T D E = Option (Handler T D E → Handler T D E)

-- `CORSHandler`; `is_options` tells the request's method.
unfoldable pub cors_handler : {D : Type 0} → Bool → Response D → Response D
cors_handler is_options r =
    let r' =
      if is_options
      then set_header "Access-Control-Allow-Headers"
          "Accept, Authorization, Content-Type, X-CSRF-Token, X-Request-ID"
          (set_header "Access-Control-Allow-Methods" "POST, PUT, GET, HEAD, DELETE, OPTIONS" r)
      else r in
    set_header "Access-Control-Allow-Origin" "*" r'

module _ {T D E : Type 0} where
  abbrev pub apply : Middleware T D E → Handler T D E → Handler T D E
  apply none h = h
  apply (some m) h = m h

  -- The loop of `wrapMiddleware`, with the indices below `n` still to come. The loop starts at the
  -- length, so no index is out of range.
  unfoldable pub wrap_from : ℕ → Handler T D E → List (Middleware T D E) → Handler T D E
  wrap_from zero handler mw = handler
  wrap_from (suc i) handler mw =
      wrap_from i (elim (get_elem? mw i) [ none ↦ handler | some m ↦ apply m handler ]) mw

  unfoldable pub wrap_middleware : Handler T D E → List (Middleware T D E) → Handler T D E
  unfolding wrap_from
  wrap_middleware handler mw = wrap_from (length mw) handler mw

  -- `CORS`
  unfoldable pub cors : Bool → Handler T D E → Handler T D E
  unfolding cors_handler
  cors is_options next w = next (record w { response = cors_handler is_options w.response })

module _ (P : ErrorsPkg) {T D : Type 0} (encode_error : D → Option P.Error) where
  open P use {Error, plain}

  -- The deferred function of `ErrorHandler`: after a panic the call returns nil.
  unfoldable pub recovered :
      Outcome Error (Unit {0}) × World T D → Outcome Error (Unit {0}) × World T D
  recovered (panic, w) = (
    ok tt,
    record w {
      response =
          respond_error P encode_error (plain (literal "unhandled")) 500
            (record w.response { failed = true });
    },
  )
  recovered (ok u, w) = (ok u, w)
  recovered (err e, w) = (err e, w)

  -- `ErrorHandler`
  unfoldable pub error_handler : Handler T D Error → Handler T D Error
  unfolding recovered
  error_handler next w = recovered (next w)

  -- The end of the function that `Handle` mounts.
  unfoldable pub answered : Outcome Error (Unit {0}) × World T D → Outcome Error (World T D)
  answered (ok u, w) = ok w
  answered (err e, w) = ok (record w { response = error P encode_error e w.response })
  answered (panic, w) = panic

  -- `Handle`: what one request does. `panic` is a panic that leaves the function.
  unfoldable pub serve :
      Handler T D Error
      → List (Middleware T D Error)
      → List (Middleware T D Error)
      → T
      → Outcome Error (World T D)
  unfolding answered wrap_middleware
  serve handler mw app_mw tables = answered (
      wrap_middleware (wrap_middleware handler mw) app_mw
        (record { tables = tables; response = no_response }))

-- The middleware of a list around a handler, the first of the list outermost.
abbrev pub nested : {T D E : Type 0} → List (Middleware T D E) → Handler T D E → Handler T D E
nested [] h = h
nested (m ∷ mw) h = apply m (nested mw h)

module _ {T D E : Type 0} where
  wrap_from-cons :
      (n : ℕ) (h : Handler T D E) (m : Middleware T D E) (mw : List (Middleware T D E))
      → wrap_from (suc n) h (m ∷ mw) ≡ apply m (wrap_from n h mw)
  unfolding wrap_from
  wrap_from-cons zero h m mw = refl
  wrap_from-cons (suc n) h m mw =
      wrap_from-cons n (elim (get_elem? mw n) [ none ↦ h | some k ↦ apply k h ]) m mw

  -- The loop wraps the handler in the middleware that is not nil, the first of the list outermost.
  pub wrap_middleware-nested :
      (mw : List (Middleware T D E)) (h : Handler T D E) → wrap_middleware h mw ≡ nested mw h
  unfolding wrap_middleware
  wrap_middleware-nested [] h = refl
  wrap_middleware-nested (m ∷ mw) h =
      wrap_from-cons (length mw) h m mw ∙ ap (apply m) (wrap_middleware-nested mw h)
