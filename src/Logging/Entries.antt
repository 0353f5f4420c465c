-- ===== src/Logging/Entries.antt =====
-- What the log has of a request that the chain of middleware served.
use identity_oracle.Prelude.{
  ℕ, String, ◌≡◌, refl, ◌∙◌, ap, sym, inl, inr, ◌↔◌, Bool, Option, none, some, [], length, ltb,
  if◌then◌else◌, arith, Bool-cases,
}
use identity_oracle.Prelude.Equality.{◌==◌, nat_comparable}
use identity_oracle.Errors.{Outcome, ok, err, ErrorsPkg, cause_kind}
use identity_oracle.Storage.{Bytes}
use identity_oracle.Web.{World, Handler, translate}
use identity_oracle.Web.Chain.{serve}
use identity_oracle.Web.Statuses.{status_of}
use identity_oracle.Web.Recovery.{app_middleware, start, serve-err}
use identity_oracle.Logging.{
  Request, Entry, login_failed, level_of, build_trace_id, log_http_request, handler,
}
use identity_oracle.Logging.Addresses.{get_remote_address-total}

log_http_request-status :
    {E : Type 0} (r : Request) (trace : Bytes) (elapsed status : ℕ)
    → (entry : Entry) × (log_http_request {E = E} r trace elapsed status ≡ ok entry)
      × (entry.status ≡ status)
      × (entry.level ≡ level_of r.basic_auth status)
unfolding log_http_request
log_http_request-status {E = E} r trace elapsed status =
    let (address, q) = get_remote_address-total {E = E} r.forwarded_for r.remote_address in
    (
      record {
        level = level_of r.basic_auth status;
        trace = trace;
        elapsed = elapsed;
        status = status;
        method = r.method;
        path = r.path;
        remote = address;
        params = if ltb 0 (length r.raw_query) then some r.raw_query else none;
      },
      rw (q, log_http_request) refl,
      refl,
      refl,
    )

-- A failed login is a request with a user that ends in 401.
level_of_iff :
    (auth : Option String) (user : String) (status : ℕ)
    → (level_of auth status ≡ login_failed user) ↔ ((auth ≡ some user) × (status ≡ 401))
level_of_iff none user status = (λ q. absurd (ground arith), λ (a, b). absurd (ground arith))
level_of_iff (some name) user status = elim (Bool-cases (status == 401)) [
  | inl y ↦ (
    λ q. (ap some (login_failed-injective name user (rw y at q)), ground arith),
    λ (a, b). rw y (ap login_failed (some-injective name user a)),
  )
  | inr n ↦ (λ q. absurd (ground arith), λ (a, b). absurd (ground arith))
]
  where
    some-injective : (a b : String) → some a ≡ some b → a ≡ b
    some-injective a b q = cc

    login_failed-injective : (a b : String) → login_failed a ≡ login_failed b → a ≡ b
    login_failed-injective a b q = cc

pub handler-entry :
    {E T D : Type 0} (r : Request) (new_id : Bytes) (elapsed : ℕ) (served : Outcome E (World T D))
    (w : World T D)
    → served ≡ ok w
    → (entry : Entry) × (handler r new_id elapsed served ≡ ok (w, entry))
      × (entry.status ≡ w.response.logged)
      × (entry.level ≡ level_of r.basic_auth w.response.logged)
unfolding handler
handler-entry {E} r new_id elapsed served w s =
    let (entry, q, st, lv) =
      log_http_request-status {E = E} r (build_trace_id r.x_trace r.x_request_id new_id) elapsed
        w.response.logged in
    (entry, rw (s, handler) (rw q refl), st, lv)

module _ (P : ErrorsPkg) {T D : Type 0} (encode_error : D → Option P.Error)
    (is_options : Bool) where
  open P use {Error}

  -- A request whose handler returns an error before it sends a status gets one line in the log, with
  -- the status that the client gets, which is that of the error's cause; it is a failed login exactly
  -- if there is a user and that status is 401.
  pub handler-err :
      (r : Request) (new_id : Bytes) (elapsed : ℕ) (h : Handler T D Error) (tables : T)
      (w : World T D) (e : Error) (text : String)
      → h (start P encode_error is_options tables) ≡ (err (translate P (P.wrap e text)), w)
      → w.response.sent ≡ none
      → (w' : World T D) × ((entry : Entry) × (handler r new_id elapsed
              (serve P encode_error h [] (app_middleware P encode_error is_options) tables)
            ≡ ok (w', entry))
          × (w'.response.sent ≡ some entry.status)
          × (entry.status ≡ status_of (cause_kind P e))
          × ((user : String)
              → (entry.level ≡ login_failed user)
                ↔ ((r.basic_auth ≡ some user) × (status_of (cause_kind P e) ≡ 401))))
  handler-err r new_id elapsed h tables w e text q n =
      let (w', s, (sent, code, logged), same) =
        serve-err P encode_error is_options h tables w e text q n in
      let (entry, k, st, lv) =
        handler-entry r new_id elapsed
          (serve P encode_error h [] (app_middleware P encode_error is_options) tables) w' s in
      (
        w',
        (
          entry,
          k,
          sent ∙ ap some (sym (st ∙ logged)),
          st ∙ logged,
          λ user.
              rw (lv ∙ ap (level_of r.basic_auth) logged)
                (level_of_iff r.basic_auth user (status_of (cause_kind P e))),
        ),
      )
