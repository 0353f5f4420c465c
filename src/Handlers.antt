-- ===== src/Handlers.antt =====
-- cmd/identityoracled/handlers: what the handlers share. A handler is a sequence of steps on the
-- tables that each return a value, or end the request. The packages bitcoin, protocol, proto, uuid
-- and sha256 are the parameter `Services`, the approver is passed as an `Approver` or none.
pub mod Oracle
pub mod Verify
pub mod Transfers
pub mod Health
pub mod Steps
pub mod Authority
pub mod Additions
pub mod Updates
pub mod Certificates
pub mod Receipts
pub mod Runs
pub mod ReadOnly
pub mod Served
pub mod Journey
pub mod JourneyTests
pub mod SharedKeys
pub mod Answers
pub mod Messages
pub mod Loud
pub mod Truthful
pub mod Silence
pub mod Silent
pub mod Questions
pub mod Registrations
pub mod Definite
pub mod AnswerTests
pub mod Api
pub mod Endpoints
pub mod Tests
pub mod SignatureTests
pub mod ApiTests
use identity_oracle.Prelude.{
  ℕ, String, ◌+◌, ◌*◌, ◌%◌, ◌^◌, ◌≡◌, Bool, true, false, Option, none, some, List, [], ◌∷◌,
  if◌then◌else◌,
}
use identity_oracle.Errors.{Outcome, ok, err, panic, ◌>>=◌, Text, Invalid, ErrorsPkg, with_context}
use identity_oracle.Entity.{EntityField}
use identity_oracle.Storage.{Bytes}
use identity_oracle.Signing.{Crypto}
use identity_oracle.Web.{Body, plain_body, Response, World, respond, translate, unmarshal}

pub record Services (Error : Type 0) (C : Crypto Error) : Type 1 where
  pub Signature : Type 0
  pub is_private : C.ExtendedKey → Bool
  pub verify : Signature → Bytes → C.PublicKey → Bool
  pub sign : C.Hash → Outcome Error Signature
  pub sha256 : Bytes → Bytes
  pub write_deterministic : EntityField → Outcome Error Bytes
  pub marshal : EntityField → Outcome Error Bytes
  pub unmarshal_entity : Bytes → Outcome Error EntityField
  pub parse_uuid : String → Outcome Error Bytes

-- `ApproverInterface`
pub record Approver (Error PublicKey : Type 0) : Type 0 where
  pub approve_registration : String → EntityField → PublicKey → Outcome Error (Bool × Text)
  pub update_identity : String → EntityField → Outcome Error (Bool × Text)
  pub approve_identity : String → Outcome Error (Bool × Text)
  pub approve_transfer : String → String → String → Outcome Error (Bool × Text)

-- The values that the handlers encode.
pub data Payload (RawAddress PublicKey Signature Hash : Type 0) : Type 0 where
  text_payload : String → Payload RawAddress PublicKey Signature Hash
  status_payload : Text → Payload RawAddress PublicKey Signature Hash
  identity_payload : RawAddress → PublicKey → Payload RawAddress PublicKey Signature Hash
  user_created : String → String → Payload RawAddress PublicKey Signature Hash
  user_payload : String → Payload RawAddress PublicKey Signature Hash
  signature_payload : Bool → Text → ℕ → Signature → ℕ → Payload RawAddress PublicKey Signature Hash
  certificate_payload :
      Bool → Text → Signature → ℕ → ℕ → Payload RawAddress PublicKey Signature Hash
  transfer_payload :
      Bool → Text → ℕ → Signature → ℕ → Hash → ℕ → Payload RawAddress PublicKey Signature Hash

abbrev pub PayloadOf : {Error : Type 0} → (C : Crypto Error) → Services Error C → Type 0
PayloadOf C S = Payload C.RawAddress C.PublicKey S.Signature C.Hash

-- How a step ends a request before the handler's last line: it returns an error, or answers and
-- returns nil, or returns nil without an answer.
pub data Exit (E D : Type 0) : Type 0 where
  failed : E → Exit E D
  refused : Body D → ℕ → Exit E D
  silent : Exit E D

module _ (P : ErrorsPkg) {D : Type 0} where
  open P use {Error}

  -- `return translate(errors.Wrap(err, text))` where a call failed.
  abbrev pub call : {A : Type 0} → String → Outcome Error A → Outcome (Exit Error D) A
  call text (ok a) = ok a
  call text (err e) = err (failed (translate P (P.wrap e text)))
  call text panic = panic

  -- The request, decoded and validated.
  abbrev pub request :
      {A : Type 0} → (A → List Invalid) → Outcome Error A → Outcome (Exit Error D) A
  request failures decoded = call "unmarshal request" (unmarshal P failures decoded)

  -- The end of a handler: what the steps came to, and what is sent.
  unfoldable pub conclude :
      {T : Type 0}
      → (D → Option Error)
      → World T D
      → Outcome (Exit Error D) (T × (Body D × ℕ))
      → Outcome Error (Unit {0}) × World T D
  conclude encode_error w (ok (t, (body, code))) =
      (ok tt, record { tables = t; response = respond P encode_error body code w.response })
  conclude encode_error w (err (failed e)) = (err e, w)
  conclude encode_error w (err (refused body code)) =
      (ok tt, record w { response = respond P encode_error body code w.response })
  conclude encode_error w (err silent) = (ok tt, w)
  conclude encode_error w panic = (panic, w)

module _ (P : ErrorsPkg) (C : Crypto P.Error) (S : Services P.Error C) where
  open P use {Error}
  open C use {ExtendedKey}
  open S use {is_private}

  -- `for _, xpub := range xpubs { if xpub.IsPrivate() { … } }`
  unfoldable pub check_public : List ExtendedKey → Outcome (Exit Error (PayloadOf C S)) (Unit {0})
  check_public [] = ok tt
  check_public (xpub ∷ xpubs) =
      if is_private xpub
      then err (refused (plain_body (text_payload "private keys not allowed")) 422)
      else check_public xpubs

  -- `if approved, description, err := …; err != nil { … } else if !approved { … }`
  unfoldable pub permit :
      String → Outcome Error (Bool × Text) → Outcome (Exit Error (PayloadOf C S)) (Unit {0})
  permit text answer = do
    (approved, description) ← call P text answer
    if approved then ok tt else err (refused (plain_body (status_payload description)) 403)

-- `uint64(time.Now().Add(time.Duration(seconds) * time.Second).UnixNano())`
abbrev pub expiration_at : ℕ → ℕ → ℕ
expiration_at now seconds = (now + seconds * 1000000000) % 2 ^ 64
