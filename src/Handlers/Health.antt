-- ===== src/Handlers/Health.antt =====
-- cmd/identityoracled/handlers/health.go. `check` is what `checkDB` returns, which
-- Sessions/Status has.
use identity_oracle.Prelude.{◌≡◌, ◌++◌, none, some, Option, [], ◌∷◌, arith}
use identity_oracle.Errors.{Outcome, ok, err, panic, Text, ErrorsPkg}
use identity_oracle.Web.{no_body, plain_body, World, Handler, respond, respond_payload}

module _ (P : ErrorsPkg) {T D : Type 0} (encode_error : D → Option P.Error)
    (status : Text → D) where
  open P use {Error, message}

  -- `Health`; `status` is the struct with the one field.
  unfoldable pub health : Outcome Error (Unit {0}) → Handler T D Error
  health (ok u) w = (ok tt, record w { response = respond P encode_error no_body 200 w.response })
  health (err e) w =
      let r = respond P encode_error (plain_body (status (message e))) 500 w.response in
      (ok tt, record w { response = respond P encode_error no_body 200 r })
  health panic w = (panic, w)

  -- After a failed check the client gets status 500 and the message, but the log has status 200.
  pub health-failed :
      (e : Error) (w : World T D)
      → w.response.sent ≡ none
      → encode_error (status (message e)) ≡ none
      → let r = (health (err e) w).1.response in
        (r.sent ≡ some 500)
        × (r.written ≡ w.response.written ++ plain_body (status (message e)) ∷ [])
        × (r.status_code ≡ 200)
        × (r.logged ≡ 200)
  unfolding health respond respond_payload
  health-failed e w n d = ground arith
