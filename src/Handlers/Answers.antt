-- ===== src/Handlers/Answers.antt =====
-- What the client learns from the status of a request that writes: handlers/oracle.go under the chain
-- of middleware of handlers/routes.go.
use identity_oracle.Web.{respond, Body, World, Handler}
use identity_oracle.Prelude.{
  ℕ, String, ◌≡◌, ◌≢◌, refl, ◌∙◌, ap, ◌⊎◌, inl, inr, Bool, Option, some, [], arith,
}
use identity_oracle.Errors.{Outcome, ok, err, panic, ◌>>=◌, ErrorsPkg}
use identity_oracle.Web.Chain.{recovered, answered, serve}
use identity_oracle.Web.Recovery.{app_middleware, start, start-sent, start-written, serve-chain}
use identity_oracle.Web.Refusals.{
  Refuses, Encodes, error-Refuses, respond_error-Refuses, respond-Refuses, respond-sent, bodies,
  respond-written,
}
use identity_oracle.Handlers.{Exit, failed, refused, silent, call, conclude}

module _ (P : ErrorsPkg) {D : Type 0} (encode_error : D → Option P.Error) where
  open P use {Error}

  -- A step that does not end a request in silence, nor refuses it with the status of success.
  abbrev pub IsLoudExit : Exit Error D → Type 0
  IsLoudExit (failed e) = Unit
  IsLoudExit (refused body code) = code ≢ 200
  IsLoudExit silent = ⊥

  abbrev pub IsLoud : {A : Type 0} → Outcome (Exit Error D) A → Type 0
  IsLoud (ok a) = Unit
  IsLoud (err e) = IsLoudExit e
  IsLoud panic = Unit

  -- Steps that also end with success only with a payload that the encoder takes.
  abbrev pub IsClear : {T : Type 0} → Outcome (Exit Error D) (T × (Body D × ℕ)) → Type 0
  IsClear (ok (t, (body, code))) = (code ≡ 200) × Encodes P encode_error body
  IsClear (err e) = IsLoudExit e
  IsClear panic = Unit

  pub bind-IsClear :
      {A T : Type 0} (m : Outcome (Exit Error D) A)
      (f : A → Outcome (Exit Error D) (T × (Body D × ℕ)))
      → IsLoud m
      → ((a : A) → IsClear (f a))
      → IsClear (m >>= f)
  bind-IsClear (ok a) f l h = h a
  bind-IsClear (err e) f l h = l
  bind-IsClear panic f l h = tt

  pub call-IsLoud :
      {A : Type 0} (text : String) (m : Outcome Error A) → IsLoud (call P {D = D} text m)
  call-IsLoud text (ok a) = tt
  call-IsLoud text (err e) = tt
  call-IsLoud text panic = tt

  -- The client gets the status 200 and the body of the steps, and the tables are those of the steps; or
  -- another status, and the tables are those that the request found.
  abbrev pub Tells :
      {T : Type 0} → Outcome (Exit Error D) (T × (Body D × ℕ)) → T → World T D → Type 0
  Tells {T} steps t w =
      ((t' : T) × (body : Body D) × (steps ≡ ok (t', (body, 200)))
        × (w.response.sent ≡ some 200)
        × (w.response.written ≡ bodies body)
        × (w.tables ≡ t'))
      ⊎ (((answer : T × (Body D × ℕ)) → steps ≢ ok answer) × Refuses w.response × (w.tables ≡ t))

  -- The client gets the status 200 and the body, and the tables are those.
  abbrev pub Succeeds : {T : Type 0} → Body D → T → World T D → Type 0
  Succeeds body t w =
      (w.response.sent ≡ some 200) × (w.response.written ≡ bodies body) × (w.tables ≡ t)

  module _ {T : Type 0} (is_options : Bool) where
    concluded :
        (t : T) (steps : Outcome (Exit Error D) (T × (Body D × ℕ)))
        → IsClear steps
        → (w : World T D) × (answered P encode_error (
              recovered P encode_error
                (conclude P encode_error (start P encode_error is_options t) steps))
            ≡ ok w)
          × Tells steps t w
    unfolding conclude recovered answered
    concluded t (ok (t', (body, code))) (c, b) = (
      _,
      refl,
      inl (
        t',
        body,
        rw c refl,
        rw c (respond-sent P encode_error body _ (start-sent P encode_error is_options t) b),
        rw c (respond-written P encode_error body _ (start-written P encode_error is_options t) b),
        refl,
      ),
    )
    concluded t (err (failed e)) l = (
      _,
      refl,
      inr (
        λ a q. cc,
        error-Refuses P encode_error e _ (start-sent P encode_error is_options t),
        refl,
      ),
    )
    concluded t (err (refused body code)) l = (
      _,
      refl,
      inr (
        λ a q. cc,
        respond-Refuses P encode_error body code _ (start-sent P encode_error is_options t) l,
        refl,
      ),
    )
    concluded t (err silent) l = absurd l
    concluded t panic l = (
      _,
      refl,
      inr (
        λ a q. cc,
        respond_error-Refuses P encode_error _ 500 _ (start-sent P encode_error is_options t)
            (λ p. omega arith),
        refl,
      ),
    )

    pub serve-Tells :
        (h : Handler T D Error) (t : T) (steps : Outcome (Exit Error D) (T × (Body D × ℕ)))
        → h (start P encode_error is_options t)
          ≡ conclude P encode_error (start P encode_error is_options t) steps
        → IsClear steps
        → (w : World T D) × (serve P encode_error h [] (app_middleware P encode_error is_options) t
            ≡ ok w)
          × Tells steps t w
    serve-Tells h t steps e c =
        let (w, ends, tells) = concluded t steps c in
        (
          w,
          serve-chain P encode_error is_options h t
              ∙ ap (λ o. answered P encode_error (recovered P encode_error o)) e
              ∙ ends,
          tells,
        )

    -- A handler that answers with success, as it is mounted.
    pub serve-Succeeds :
        (h : Handler T D Error) (t t' : T) (body : Body D)
        → h (start P encode_error is_options t) ≡ (
          ok tt,
          record {
            tables = t';
            response = respond P encode_error body 200 (start P encode_error is_options t).response;
          },
        )
        → Encodes P encode_error body
        → (w : World T D) × (serve P encode_error h [] (app_middleware P encode_error is_options) t
            ≡ ok w)
          × Succeeds body t' w
    unfolding recovered answered
    serve-Succeeds h t t' body e b = (
      _,
      serve-chain P encode_error is_options h t
          ∙ ap (λ o. answered P encode_error (recovered P encode_error o)) e,
      (
        respond-sent P encode_error body _ (start-sent P encode_error is_options t) b,
        respond-written P encode_error body _ (start-written P encode_error is_options t) b,
        refl,
      ),
    )
