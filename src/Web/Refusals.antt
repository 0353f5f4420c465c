-- ===== src/Web/Refusals.antt =====
-- Which answers of internal/platform/web/response.go have the status 200 of success.
use identity_oracle.Prelude.{
  ℕ, ◌≡◌, ◌≢◌, Option, none, some, List, [], ◌∷◌, arith, inl, inr, Option-cases, Bool-cases,
}
use identity_oracle.Prelude.Equality.{◌==◌, nat_comparable}
use identity_oracle.Errors.{
  Text, literal, not_healthy, web_not_found, invalid_id, validation, unauthorized, forbidden,
  of_web, of_oracle, of_db, of_foreign, Invalid, Kind, is_sentinel, is_invalid, is_other, ErrorsPkg,
  cause_kind,
}
use identity_oracle.Web.{
  Body, no_body, plain_body, data_body, error_body, Response, respond_error, respond_described,
  respond_by_cause, respond_payload, respond, error,
}

module _ {D : Type 0} where
  -- The client gets a status that does not say success.
  abbrev pub Refuses : Response D → Type 0
  Refuses r = (code : ℕ) × (r.sent ≡ some code) × (code ≢ 200)

  -- What is written for a body.
  abbrev pub bodies : Body D → List (Body D)
  bodies no_body = []
  bodies (plain_body d) = plain_body d ∷ []
  bodies (data_body d) = data_body d ∷ []
  bodies (error_body detail fields) = error_body detail fields ∷ []

module _ (P : ErrorsPkg) {D : Type 0} (encode_error : D → Option P.Error) where
  open P use {Error}

  -- The encoder takes the payload.
  abbrev pub Encodes : Body D → Type 0
  Encodes no_body = Unit
  Encodes (plain_body d) = encode_error d ≡ none
  Encodes (data_body d) = encode_error d ≡ none
  Encodes (error_body detail fields) = Unit

  described-Refuses :
      (detail : Text) (fields : List Invalid) (code : ℕ) (r : Response D)
      → r.sent ≡ none
      → code ≢ 200
      → Refuses (respond_described P encode_error detail fields code r)
  unfolding respond_described
  described-Refuses detail fields code r n c = (code, ground arith, c)

  by_cause-Refuses :
      (k : Kind) (e : Error) (r : Response D)
      → r.sent ≡ none
      → Refuses (respond_by_cause P encode_error k e r)
  unfolding respond_by_cause respond_error
  by_cause-Refuses (is_sentinel (of_web not_healthy)) e r n =
      described-Refuses (P.message e) [] 500 r n (λ p. omega arith)
  by_cause-Refuses (is_sentinel (of_web web_not_found)) e r n =
      described-Refuses (P.message e) [] 404 r n (λ p. omega arith)
  by_cause-Refuses (is_sentinel (of_web validation)) e r n =
      described-Refuses (P.message e) [] 400 r n (λ p. omega arith)
  by_cause-Refuses (is_sentinel (of_web invalid_id)) e r n =
      described-Refuses (P.message e) [] 400 r n (λ p. omega arith)
  by_cause-Refuses (is_sentinel (of_web unauthorized)) e r n =
      described-Refuses (P.message e) [] 401 r n (λ p. omega arith)
  by_cause-Refuses (is_sentinel (of_web forbidden)) e r n =
      described-Refuses (P.message e) [] 403 r n (λ p. omega arith)
  by_cause-Refuses (is_invalid fields) e r n =
      described-Refuses (literal "Field validation errors occurred") fields 422 r n
        (λ p. omega arith)
  by_cause-Refuses (is_sentinel (of_oracle x)) e r n =
      described-Refuses (P.message e) [] 500 r n (λ p. omega arith)
  by_cause-Refuses (is_sentinel (of_db x)) e r n =
      described-Refuses (P.message e) [] 500 r n (λ p. omega arith)
  by_cause-Refuses (is_sentinel (of_foreign x)) e r n =
      described-Refuses (P.message e) [] 500 r n (λ p. omega arith)
  by_cause-Refuses is_other e r n = described-Refuses (P.message e) [] 500 r n (λ p. omega arith)

  -- No error is answered with success.
  pub error-Refuses :
      (e : Error) (r : Response D) → r.sent ≡ none → Refuses (error P encode_error e r)
  unfolding error
  error-Refuses e r n = by_cause-Refuses (cause_kind P e) e r n

  pub respond_error-Refuses :
      (e : Error) (code : ℕ) (r : Response D)
      → r.sent ≡ none
      → code ≢ 200
      → Refuses (respond_error P encode_error e code r)
  unfolding respond_error
  respond_error-Refuses e code r n c = described-Refuses (P.message e) [] code r n c

  payload-Refuses :
      (d : D) (body : Body D) (code : ℕ) (r : Response D)
      → r.sent ≡ none
      → code ≢ 200
      → Refuses (respond_payload P encode_error d body code r)
  unfolding respond_payload respond_error respond_described
  payload-Refuses d body code r n c = elim (Option-cases (encode_error d)) [
    | inl q ↦ (code, ground arith, c)
    | inr (e, q) ↦ elim (Bool-cases (code == 204)) [
      | inl y ↦ (code, ground arith, c)
      | inr z ↦ (500, ground arith, λ p. omega arith)
    ]
  ]

  -- An answer with another status than success is one, also if the encoder refuses its payload.
  pub respond-Refuses :
      (body : Body D) (code : ℕ) (r : Response D)
      → r.sent ≡ none
      → code ≢ 200
      → Refuses (respond P encode_error body code r)
  unfolding respond
  respond-Refuses no_body code r n c = (code, ground arith, c)
  respond-Refuses (plain_body d) code r n c = payload-Refuses d (plain_body d) code r n c
  respond-Refuses (data_body d) code r n c = payload-Refuses d (data_body d) code r n c
  respond-Refuses (error_body detail fields) code r n c = described-Refuses detail fields code r n c

  -- An answer of success that the encoder takes is sent as one.
  pub respond-sent :
      (body : Body D) (r : Response D)
      → r.sent ≡ none
      → Encodes body
      → (respond P encode_error body 200 r).sent ≡ some 200
  unfolding respond respond_payload respond_described
  respond-sent no_body r n c = ground arith
  respond-sent (plain_body d) r n c = ground arith
  respond-sent (data_body d) r n c = ground arith
  respond-sent (error_body detail fields) r n c = ground arith

  pub respond-written :
      (body : Body D) (r : Response D)
      → r.written ≡ []
      → Encodes body
      → (respond P encode_error body 200 r).written ≡ bodies body
  unfolding respond respond_payload respond_described
  respond-written no_body r n c = ground arith
  respond-written (plain_body d) r n c = ground arith
  respond-written (data_body d) r n c = ground arith
  respond-written (error_body detail fields) r n c = ground arith
