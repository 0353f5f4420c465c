-- ===== src/Web.antt =====
-- internal/platform/web: responses, errors and the chain of middleware; internal/mid/errors.go and
-- internal/mid/cors.go: the two members of the chain; handlers/errors.go: `translate`.
-- A payload is a value of the type `D`. The JSON encoder is a parameter: which payloads it refuses.
-- A body that describes an error is a struct of texts, which it always encodes.
pub mod Statuses
pub mod Chain
pub mod App
pub mod Context
pub mod Fields
pub mod Recovery
pub mod Refusals
pub mod Tests
use identity_oracle.Prelude.{
  ℕ, String, ◌≡◌, Bool, true, false, Option, none, some, List, [], ◌∷◌, ◌++◌, map, if◌then◌else◌,
}
use identity_oracle.Prelude.Equality.{◌==◌, nat_comparable}
use identity_oracle.Errors.{
  Outcome, ok, err, panic, ◌>>=◌, Text, literal, not_healthy, web_not_found, invalid_id, validation,
  unauthorized, forbidden, of_web, of_oracle, xpub_not_found, user_not_found, invalid_signature,
  Invalid, Kind, is_sentinel, is_invalid, is_other, ErrorsPkg, cause_kind,
}

pub data Body (D : Type 0) : Type 0 where
  no_body : Body D
  plain_body data_body : D → Body D
  error_body : Text → List Invalid → Body D

-- The response writer of net/http, which keeps the first status that it is given, the `statusCode` of
-- the `loggingResponseWriter` of internal/mid/request_logging.go around it, 404 at first, and the
-- `Values` of the request.
pub record Response (D : Type 0) : Type 0 where
  pub status_code : ℕ
  pub failed : Bool
  pub headers : List (String × String)
  pub sent : Option ℕ
  pub logged : ℕ
  pub written : List (Body D)

module _ {D : Type 0} where
  abbrev pub no_response : Response D
  no_response = record {
    status_code = 0;
    failed = false;
    headers = [];
    sent = none;
    logged = 404;
    written = [];
  }

  abbrev pub set_header : String → String → Response D → Response D
  set_header name value r = record r { headers = r.headers ++ (name, value) ∷ [] }

  -- `WriteHeader`: the client gets the status of the first call, the logging writer keeps the last.
  abbrev pub write_header : ℕ → Response D → Response D
  write_header code r = record r {
    sent = elim r.sent [ none ↦ some code | some c ↦ some c ];
    logged = code;
  }

  -- net/http, when a handler returns that sent nothing: it sends the status 200.
  unfoldable pub finished : Response D → Response D
  finished r = record r { sent = elim r.sent [ none ↦ some 200 | some c ↦ some c ] }

  -- The end of `Respond`, for a body that was encoded.
  abbrev pub send : Body D → ℕ → Response D → Response D
  send body code r =
      let r' = write_header code (set_header "Content-Type" "application/json" r) in
      record r' { written = r'.written ++ body ∷ [] }

module _ (P : ErrorsPkg) {D : Type 0} (encode_error : D → Option P.Error) where
  open P use {Error, message, plain, invalid, wrap, sentinel}

  -- `Respond` on a body that describes an error.
  unfoldable pub respond_described : Text → List Invalid → ℕ → Response D → Response D
  respond_described detail fields code r =
      let r' = record r { status_code = code } in
      if code == 204 then write_header code r' else send (error_body detail fields) code r'

  unfoldable pub respond_error : Error → ℕ → Response D → Response D
  unfolding respond_described
  respond_error e code r = respond_described (message e) [] code r

  -- `Respond` on a payload; `body` is how it is wrapped.
  unfoldable pub respond_payload : D → Body D → ℕ → Response D → Response D
  unfolding respond_error
  respond_payload d body code r =
      let r' = record r { status_code = code } in
      if code == 204
      then write_header code r'
      else elim (encode_error d) [ none ↦ send body code r' | some e ↦ respond_error e 500 r' ]

  unfoldable pub respond : Body D → ℕ → Response D → Response D
  unfolding respond_payload respond_described
  respond no_body code r = write_header code (record r { status_code = code })
  respond (plain_body d) code r = respond_payload d (plain_body d) code r
  respond (data_body d) code r = respond_payload d (data_body d) code r
  respond (error_body detail fields) code r = respond_described detail fields code r

  -- `RespondData`
  unfoldable pub respond_data : D → ℕ → Response D → Response D
  unfolding respond
  respond_data d code r = respond (data_body d) code r

  -- `RespondRedirect`
  unfoldable pub respond_redirect : Body D → String → ℕ → Response D → Response D
  unfolding respond
  respond_redirect body location code r = respond body code (set_header "Location" location r)

  -- `RespondHTML`; `content` stands for the text, which is sent as it is.
  abbrev pub respond_html : Body D → ℕ → Response D → Response D
  respond_html content code r =
      let r' =
        write_header code
          (set_header "Content-Type" "text/html" (record r { status_code = code })) in
      record r' { written = r'.written ++ content ∷ [] }

  -- `Error`, by the cause of the error.
  unfoldable pub respond_by_cause : Kind → Error → Response D → Response D
  unfolding respond_error respond_described
  respond_by_cause (is_sentinel (of_web not_healthy)) e r = respond_error e 500 r
  respond_by_cause (is_sentinel (of_web web_not_found)) e r = respond_error e 404 r
  respond_by_cause (is_sentinel (of_web validation)) e r = respond_error e 400 r
  respond_by_cause (is_sentinel (of_web invalid_id)) e r = respond_error e 400 r
  respond_by_cause (is_sentinel (of_web unauthorized)) e r = respond_error e 401 r
  respond_by_cause (is_sentinel (of_web forbidden)) e r = respond_error e 403 r
  respond_by_cause (is_invalid fields) e r =
      respond_described (literal "Field validation errors occurred") fields 422 r
  respond_by_cause _ e r = respond_error e 500 r

  unfoldable pub error : Error → Response D → Response D
  unfolding respond_by_cause
  error e r = respond_by_cause (cause_kind P e) e r

-- What a handler reads and writes: the tables, and the response.
pub record World (T D : Type 0) : Type 0 where
  pub tables : T
  pub response : Response D

-- `Handler`: it returns nil or an error, or panics; what it has written stays written.
abbrev pub Handler : Type 0 → Type 0 → Type 0 → Type 0
Handler T D E = World T D → Outcome E (Unit {0}) × World T D

-- `Validate`: the fields that fail, as the validator names them, become an `InvalidError`.
unfoldable pub validate : (P : ErrorsPkg) {A : Type 0} → (A → List Invalid) → A → Outcome P.Error A
validate P failures v = elim (failures v) [ [] ↦ ok v | f ∷ fs ↦ err (P.invalid (f ∷ fs)) ]

-- `Unmarshal`: `decoded` is what the JSON decoder makes of the request's body.
unfoldable pub unmarshal :
    (P : ErrorsPkg) {A : Type 0} → (A → List Invalid) → Outcome P.Error A → Outcome P.Error A
unfolding validate
unmarshal P failures decoded = do v ← decoded; validate P failures v

-- `translate` of handlers/errors.go.
abbrev pub translate_by_cause : (P : ErrorsPkg) → Kind → P.Error → P.Error
translate_by_cause P (is_sentinel (of_oracle xpub_not_found)) e =
    P.wrap_text (P.sentinel (of_web web_not_found)) (P.message e)
translate_by_cause P (is_sentinel (of_oracle user_not_found)) e =
    P.wrap_text (P.sentinel (of_web web_not_found)) (P.message e)
translate_by_cause P (is_sentinel (of_oracle invalid_signature)) e =
    P.wrap_text (P.sentinel (of_web unauthorized)) (P.message e)
translate_by_cause P _ e = e

unfoldable pub translate : (P : ErrorsPkg) → P.Error → P.Error
translate P e = translate_by_cause P (cause_kind P e) e
