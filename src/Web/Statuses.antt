-- ===== src/Web/Statuses.antt =====
-- The HTTP status of every error that a handler returns.
use identity_oracle.Prelude.{
  ℕ, String, ◌≡◌, ◌≢◌, refl, ◌∙◌, ap, Option, none, some, List, [], arith,
}
use identity_oracle.Errors.{
  Text, literal, OracleError, WebError, not_healthy, web_not_found, invalid_id, validation,
  unauthorized, forbidden, of_web, of_oracle, of_db, of_foreign, xpub_not_found, user_not_found,
  invalid_signature, Invalid, Kind, is_sentinel, is_invalid, is_other, ErrorsPkg, cause_kind,
}
use identity_oracle.Web.{
  Response, respond_error, respond_described, respond_by_cause, error, translate,
  translate_by_cause,
}

-- The status that the API documents for a cause.
abbrev pub web_status : WebError → ℕ
web_status not_healthy = 500
web_status web_not_found = 404
web_status invalid_id = 400
web_status validation = 400
web_status unauthorized = 401
web_status forbidden = 403

abbrev pub oracle_status : OracleError → ℕ
oracle_status xpub_not_found = 404
oracle_status user_not_found = 404
oracle_status invalid_signature = 401

abbrev pub status_of : Kind → ℕ
status_of (is_sentinel (of_oracle e)) = oracle_status e
status_of (is_sentinel (of_web e)) = web_status e
status_of (is_sentinel (of_db e)) = 500
status_of (is_sentinel (of_foreign e)) = 500
status_of (is_invalid fields) = 422
status_of is_other = 500

-- What is left after `translate`: no sentinel of internal/oracle.
abbrev pub IsWebKind : Kind → Type 0
IsWebKind (is_sentinel (of_oracle e)) = ⊥
IsWebKind (is_sentinel (of_web e)) = Unit
IsWebKind (is_sentinel (of_db e)) = Unit
IsWebKind (is_sentinel (of_foreign e)) = Unit
IsWebKind (is_invalid fields) = Unit
IsWebKind is_other = Unit

module _ (P : ErrorsPkg) {D : Type 0} (encode_error : D → Option P.Error) where
  open P use {Error}

  -- The status is sent, and is the one that the log and the values of the request have.
  abbrev pub Answered : ℕ → Response D → Type 0
  Answered code r = (r.sent ≡ some code) × (r.status_code ≡ code) × (r.logged ≡ code)

  renamed :
      (w : WebError) (t : Text)
      → cause_kind P (P.wrap_text (P.sentinel (of_web w)) t) ≡ is_sentinel (of_web w)
  renamed w t =
      ap P.kind (P.cause-wrap_text (P.sentinel (of_web w)) t ∙ P.cause-sentinel (of_web w))
      ∙ P.kind-sentinel (of_web w)

  translated :
      (k : Kind) (e : Error)
      → cause_kind P e ≡ k
      → status_of (cause_kind P (translate_by_cause P k e)) ≡ status_of k
  translated (is_sentinel (of_oracle xpub_not_found)) e q =
      ap status_of (renamed web_not_found (P.message e))
  translated (is_sentinel (of_oracle user_not_found)) e q =
      ap status_of (renamed web_not_found (P.message e))
  translated (is_sentinel (of_oracle invalid_signature)) e q =
      ap status_of (renamed unauthorized (P.message e))
  translated (is_sentinel (of_web w)) e q = ap status_of q
  translated (is_sentinel (of_db x)) e q = ap status_of q
  translated (is_sentinel (of_foreign x)) e q = ap status_of q
  translated (is_invalid fields) e q = ap status_of q
  translated is_other e q = ap status_of q

  pub described :
      (detail : Text) (fields : List Invalid) (code : ℕ) (r : Response D)
      → r.sent ≡ none
      → code ≢ 204
      → Answered code (respond_described P encode_error detail fields code r)
  unfolding respond_described
  described detail fields code r n c = ground arith

  by_cause :
      (k : Kind) (e : Error) (r : Response D)
      → r.sent ≡ none
      → IsWebKind k
      → Answered (status_of k) (respond_by_cause P encode_error k e r)
  unfolding respond_by_cause respond_error
  by_cause (is_sentinel (of_web not_healthy)) e r n w =
      described (P.message e) [] 500 r n (λ p. omega arith)
  by_cause (is_sentinel (of_web web_not_found)) e r n w =
      described (P.message e) [] 404 r n (λ p. omega arith)
  by_cause (is_sentinel (of_web validation)) e r n w =
      described (P.message e) [] 400 r n (λ p. omega arith)
  by_cause (is_sentinel (of_web invalid_id)) e r n w =
      described (P.message e) [] 400 r n (λ p. omega arith)
  by_cause (is_sentinel (of_web unauthorized)) e r n w =
      described (P.message e) [] 401 r n (λ p. omega arith)
  by_cause (is_sentinel (of_web forbidden)) e r n w =
      described (P.message e) [] 403 r n (λ p. omega arith)
  by_cause (is_invalid fields) e r n w =
      described (literal "Field validation errors occurred") fields 422 r n (λ p. omega arith)
  by_cause (is_sentinel (of_oracle x)) e r n w = absurd w
  by_cause (is_sentinel (of_db x)) e r n w = described (P.message e) [] 500 r n (λ p. omega arith)
  by_cause (is_sentinel (of_foreign x)) e r n w =
      described (P.message e) [] 500 r n (λ p. omega arith)
  by_cause is_other e r n w = described (P.message e) [] 500 r n (λ p. omega arith)

  translated-IsWebKind :
      (k : Kind) (e : Error)
      → cause_kind P e ≡ k
      → IsWebKind (cause_kind P (translate_by_cause P k e))
  translated-IsWebKind (is_sentinel (of_oracle xpub_not_found)) e q =
      rw (renamed web_not_found (P.message e)) tt
  translated-IsWebKind (is_sentinel (of_oracle user_not_found)) e q =
      rw (renamed web_not_found (P.message e)) tt
  translated-IsWebKind (is_sentinel (of_oracle invalid_signature)) e q =
      rw (renamed unauthorized (P.message e)) tt
  translated-IsWebKind (is_sentinel (of_web w)) e q = rw q tt
  translated-IsWebKind (is_sentinel (of_db x)) e q = rw q tt
  translated-IsWebKind (is_sentinel (of_foreign x)) e q = rw q tt
  translated-IsWebKind (is_invalid fields) e q = rw q tt
  translated-IsWebKind is_other e q = rw q tt

  -- An error that a handler translates and returns is answered with the status of its cause, however
  -- it was wrapped, if nothing was sent before.
  pub error-translate :
      (e : Error) (text : String) (r : Response D)
      → r.sent ≡ none
      → Answered (status_of (cause_kind P e)) (error P encode_error (translate P (P.wrap e text)) r)
  unfolding error translate
  error-translate e text r n =
      let k = ap P.kind (P.cause-wrap e text) in
      let e' = translate_by_cause P (cause_kind P (P.wrap e text)) (P.wrap e text) in
      let (sent, code, logged) =
        by_cause (cause_kind P e') e' r n
          (translated-IsWebKind (cause_kind P (P.wrap e text)) (P.wrap e text) refl) in
      let same = translated (cause_kind P (P.wrap e text)) (P.wrap e text) refl ∙ ap status_of k in
      (sent ∙ ap some same, code ∙ same, logged ∙ same)
