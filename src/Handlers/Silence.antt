-- ===== src/Handlers/Silence.antt =====
-- What a client gets from a handler whose steps end in silence, as those of handlers/transfers.go may.
use identity_oracle.Prelude.{
  true, ℕ, String, ◌≡◌, ◌≢◌, refl, ◌⊎◌, ◌↔◌, inl, inr, Bool, Option, none, some, [], arith,
}
use identity_oracle.Web.{
  error, respond, respond_error, Body, no_body, plain_body, data_body, error_body, Response, World,
  finished,
}
use identity_oracle.Errors.{literal, Outcome, ok, err, panic, ◌>>=◌, ErrorsPkg}
use identity_oracle.Web.Chain.{recovered, answered}
use identity_oracle.Web.Recovery.{start, start-sent, start-written}
use identity_oracle.Web.Refusals.{
  Refuses, error-Refuses, respond_error-Refuses, respond-Refuses, respond-written,
}
use identity_oracle.Handlers.{Exit, failed, refused, silent, call, conclude}
use identity_oracle.Handlers.Answers.{IsLoud, IsLoudExit}

module _ (P : ErrorsPkg) {D : Type 0} (encode_error : D → Option P.Error) where
  open P use {Error}

  -- A body that is sent.
  abbrev HasPayload : Body D → Type 0
  HasPayload no_body = ⊥
  HasPayload (plain_body d) = encode_error d ≡ none
  HasPayload (data_body d) = encode_error d ≡ none
  HasPayload (error_body detail fields) = ⊥

  -- Steps that end in an answer with a payload, or in a refusal that says so.
  abbrev pub Speaks : {T : Type 0} → Outcome (Exit Error D) (T × (Body D × ℕ)) → Type 0
  Speaks (ok (t, (body, code))) = (code ≡ 200) × HasPayload body
  Speaks (err e) = IsLoudExit P encode_error e
  Speaks panic = Unit

  loud-ne-silent :
      {A : Type 0} (m : Outcome (Exit Error D) A) → IsLoud P encode_error m → m ≢ err silent
  loud-ne-silent (ok a) l e = cc
  loud-ne-silent (err (failed x)) l e = cc
  loud-ne-silent (err (refused body code)) l e = cc
  loud-ne-silent (err silent) l e = l
  loud-ne-silent panic l e = cc

  -- A loud step, and what follows it.
  pub bind-Speaks :
      {A T : Type 0} (m : Outcome (Exit Error D) A)
      (f : A → Outcome (Exit Error D) (T × (Body D × ℕ)))
      → IsLoud P encode_error m
      → ((a : A) → (f a ≡ err silent) ⊎ Speaks (f a))
      → ((m >>= f) ≡ err silent) ⊎ Speaks (m >>= f)
  bind-Speaks (ok a) f l h = h a
  bind-Speaks (err e) f l h = inr l
  bind-Speaks panic f l h = inr tt

  pub bind-silent :
      {A B : Type 0} (m : Outcome (Exit Error D) A) (f : A → Outcome (Exit Error D) B)
      → (m >>= f) ≡ err silent
      → (m ≡ err silent) ⊎ ((a : A) × (m ≡ ok a) × (f a ≡ err silent))
  bind-silent (ok a) f e = inr (a, refl, e)
  bind-silent (err x) f e = inl (cc)
  bind-silent panic f e = absurd (ground arith)

  -- A loud step before silence went through.
  pub loud-silent :
      {A B : Type 0} (m : Outcome (Exit Error D) A) (f : A → Outcome (Exit Error D) B)
      → IsLoud P encode_error m
      → (m >>= f) ≡ err silent
      → (a : A) × (m ≡ ok a) × (f a ≡ err silent)
  loud-silent m f l e = elim (bind-silent m f e) [
    | inl q ↦ absurd (loud-ne-silent m l q)
    | inr r ↦ r
  ]

  pub call-ok_value :
      {A : Type 0} (text : String) (m : Outcome Error A) (a : A)
      → ◌≡◌ {A = Outcome (Exit Error D) A} (call P text m) (ok a)
      → m ≡ ok a
  call-ok_value text (ok b) a e = cc
  call-ok_value text (err x) a e = cc
  call-ok_value text panic a e = cc

  -- The client gets an empty answer of success.
  abbrev pub IsEmptySuccess : Response D → Type 0
  IsEmptySuccess r = ((finished r).sent ≡ some 200) × ((finished r).written ≡ [])

  Refuses-not_empty : (r : Response D) → Refuses r → ¬ IsEmptySuccess r
  unfolding finished
  Refuses-not_empty r (code, sent, other) (e, w) = absurd (ground (arith, other))

  abbrev unhandled : Error
  unhandled = P.plain (literal "unhandled")

  module _ {T : Type 0} (is_options : Bool) (t : T) where
    -- Silence is an empty success, and nothing else is.
    pub concluded-silent :
        (steps : Outcome (Exit Error D) (T × (Body D × ℕ)))
        → (steps ≡ err silent) ⊎ Speaks steps
        → (w : World T D) × (answered P encode_error (
              recovered P encode_error
                (conclude P encode_error (start P encode_error is_options t) steps))
            ≡ ok w)
          × (IsEmptySuccess w.response ↔ (steps ≡ err silent))
    unfolding conclude recovered answered finished
    concluded-silent (ok (t', (body, code))) (inl q) = absurd (ground arith)
    concluded-silent (ok (t', (no_body, code))) (inr (c, b)) = absurd b
    concluded-silent (ok (t', (error_body detail fields, code))) (inr (c, b)) = absurd b
    concluded-silent (ok (t', (plain_body d, code))) (inr (c, b)) = (
      _,
      refl,
      (
        λ (sent, written).
            let sends =
              respond-written P encode_error (plain_body d)
                (start P encode_error is_options t).response
                (start-written P encode_error is_options t) b in
            cc (c, sends, written),
        λ q. absurd (ground arith),
      ),
    )
    concluded-silent (ok (t', (data_body d, code))) (inr (c, b)) = (
      _,
      refl,
      (
        λ (sent, written).
            let sends =
              respond-written P encode_error (data_body d)
                (start P encode_error is_options t).response
                (start-written P encode_error is_options t) b in
            cc (c, sends, written),
        λ q. absurd (ground arith),
      ),
    )
    concluded-silent (err (failed e)) s = (
      _,
      refl,
      (
        λ x. absurd (
            Refuses-not_empty (error P encode_error e (start P encode_error is_options t).response)
              (error-Refuses P encode_error e (start P encode_error is_options t).response
                (start-sent P encode_error is_options t))
              x),
        λ q. cc,
      ),
    )
    concluded-silent (err (refused body code)) (inl q) = absurd (ground arith)
    concluded-silent (err (refused body code)) (inr l) = (
      _,
      refl,
      (
        λ x. absurd (
            Refuses-not_empty
              (respond P encode_error body code (start P encode_error is_options t).response)
              (respond-Refuses P encode_error body code (start P encode_error is_options t).response
                (start-sent P encode_error is_options t) l)
              x),
        λ q. cc,
      ),
    )
    concluded-silent (err silent) s = (
      _,
      refl,
      (
        λ x. refl,
        λ q. (
          ground (arith, start-sent P encode_error is_options t),
          start-written P encode_error is_options t,
        ),
      ),
    )
    concluded-silent panic s = (
      _,
      refl,
      (
        λ x. absurd (
            Refuses-not_empty
              (respond_error P encode_error unhandled 500
                (record (start P encode_error is_options t).response { failed = true }))
              (respond_error-Refuses P encode_error unhandled 500
                (record (start P encode_error is_options t).response { failed = true })
                (start-sent P encode_error is_options t) (λ p. omega arith))
              x),
        λ q. cc,
      ),
    )
