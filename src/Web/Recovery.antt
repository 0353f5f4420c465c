-- ===== src/Web/Recovery.antt =====
-- What a request ends in under the chain of handlers/routes.go, `web.New(config, mid.ErrorHandler,
-- mid.CORS)`.
use identity_oracle.Prelude.{
  String, ◌≡◌, ◌≢◌, refl, ◌∙◌, ap, Bool, true, Option, none, some, List, [], ◌∷◌, arith,
}
use identity_oracle.Errors.{Outcome, ok, err, panic, literal, ErrorsPkg, cause_kind}
use identity_oracle.Web.{
  Response, World, Handler, no_response, respond_error, respond_described, error, translate,
}
use identity_oracle.Web.Statuses.{Answered, status_of, error-translate, described}
use identity_oracle.Web.Chain.{
  Middleware, cors, cors_handler, error_handler, recovered, answered, serve, wrap_middleware,
}

module _ (P : ErrorsPkg) {T D : Type 0} (encode_error : D → Option P.Error)
    (is_options : Bool) where
  open P use {Error, plain}

  abbrev pub app_middleware : List (Middleware T D Error)
  app_middleware = some (error_handler P encode_error) ∷ some (cors is_options) ∷ []

  -- What the handler is called on.
  abbrev pub start : T → World T D
  start tables = record { tables = tables; response = cors_handler is_options no_response }

  pub start-sent : (tables : T) → (start tables).response.sent ≡ none
  unfolding cors_handler
  start-sent tables = ground arith

  pub start-written : (tables : T) → (start tables).response.written ≡ []
  unfolding cors_handler
  start-written tables = ground arith

  pub serve-chain :
      (h : Handler T D Error) (tables : T)
      → serve P encode_error h [] app_middleware tables
        ≡ answered P encode_error (recovered P encode_error (h (start tables)))
  unfolding serve wrap_middleware error_handler cors
  serve-chain h tables = refl

  -- Whatever the handler does, a request ends, with the tables that the handler leaves.
  pub serve-tables :
      (h : Handler T D Error) (tables : T)
      → (w' : World T D) × (serve P encode_error h [] app_middleware tables ≡ ok w')
        × (w'.tables ≡ (h (start tables)).1.tables)
  unfolding recovered answered
  serve-tables h tables =
      let (w', ends, kept) = answer (h (start tables)) in (w', serve-chain h tables ∙ ends, kept)
    where
      answer :
          (r : Outcome Error (Unit {0}) × World T D)
          → (w' : World T D) × (answered P encode_error (recovered P encode_error r) ≡ ok w')
            × (w'.tables ≡ r.1.tables)
      answer (ok u, w) = (w, refl, refl)
      answer (err x, w) = (record w { response = error P encode_error x w.response }, refl, refl)
      answer (panic, w) = (_, refl, refl)

  -- Whatever the handler does, a request does not end in a panic.
  pub serve-ends :
      (h : Handler T D Error) (tables : T) → serve P encode_error h [] app_middleware tables ≢ panic
  serve-ends h tables e = let (w', ends, kept) = serve-tables h tables in cc

  -- A handler that panics before it sends a status is answered with status 500, the request is marked
  -- as failed, and the tables stay as the handler left them.
  pub serve-panic :
      (h : Handler T D Error) (tables : T) (w : World T D)
      → h (start tables) ≡ (panic, w)
      → w.response.sent ≡ none
      → (w' : World T D) × (serve P encode_error h [] app_middleware tables ≡ ok w')
        × Answered P encode_error 500 w'.response
        × (w'.response.failed ≡ true)
        × (w'.tables ≡ w.tables)
  unfolding recovered answered respond_error respond_described
  serve-panic h tables w e n =
      let e₀ : Error = plain (literal "unhandled") in
      let r : Response D = record w.response { failed = true } in
      (
        record w { response = respond_error P encode_error e₀ 500 r },
        serve-chain h tables ∙ ap (λ o. answered P encode_error (recovered P encode_error o)) e,
        described P encode_error (P.message e₀) [] 500 r n (λ p. omega arith),
        ground arith,
        refl,
      )

  -- A handler that translates and returns an error before it sends a status is answered with the
  -- status of the error's cause, and the tables stay as the handler left them.
  pub serve-err :
      (h : Handler T D Error) (tables : T) (w : World T D) (e : Error) (text : String)
      → h (start tables) ≡ (err (translate P (P.wrap e text)), w)
      → w.response.sent ≡ none
      → (w' : World T D) × (serve P encode_error h [] app_middleware tables ≡ ok w')
        × Answered P encode_error (status_of (cause_kind P e)) w'.response
        × (w'.tables ≡ w.tables)
  unfolding recovered answered
  serve-err h tables w e text q n = (
    record w { response = error P encode_error (translate P (P.wrap e text)) w.response },
    serve-chain h tables ∙ ap (λ o. answered P encode_error (recovered P encode_error o)) q,
    error-translate P encode_error e text w.response n,
    refl,
  )
