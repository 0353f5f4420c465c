-- ===== src/Handlers/AnswerTests.antt =====
-- The status of requests at concrete inputs.
use identity_oracle.Errors.{literal, Outcome, ok}
use identity_oracle.Web.{unmarshal, validate, World}
use identity_oracle.Handlers.{check_public}
use identity_oracle.Users.{fetch_user_by_xpub, user_rows_by_xpub}
use identity_oracle.Database.{get, rows_where, Tables}
use identity_oracle.Samples.{alice, first_row, company, numbers, simple, agreeing, with_alice}
use identity_oracle.Handlers.Transfers.{TransferRequest, transfer_signature}
use identity_oracle.Handlers.Silence.{IsEmptySuccess}
use identity_oracle.Handlers.Silent.{ApproverFails, transfer_signature-approver_error}
use identity_oracle.Prelude.Int.{pos, negsuc}
use native.Mathlib.Omega.{arith}
use identity_oracle.Storage.{Bytes, codes}
use identity_oracle.Handlers.Oracle.{AddXPubRequest, xpub_message}
use identity_oracle.Handlers.Messages.{xpub_message-injective}
use identity_oracle.Prelude.{◌↔◌, ℕ, ◌≡◌, refl, false, none, some, [], ◌∷◌}
use identity_oracle.Errors.Plain.{PlainError, plain_errors}
use identity_oracle.Web.Chain.{serve}
use identity_oracle.Web.Recovery.{app_middleware}
use identity_oracle.Handlers.Runs.{Request, to_register}
use identity_oracle.Handlers.Questions.{Question, of_transfer}
use identity_oracle.Handlers.Tests.{Answers, never, accepts}

-- It is signed with another key.
abbrev forged : Request plain_errors numbers simple first_row never
forged =
    to_register (some agreeing) accepts
      (ok (record { entity = company; public_key = 42; signature = 43 })) "alice" 1 1

abbrev block : Outcome PlainError (ℕ × ℕ)
block = ok (100, 700000)

abbrev receipt : Question plain_errors numbers simple first_row never none block
receipt =
    of_transfer accepts
      (ok (record { xpubs = 7 ∷ []; index = 3; contract = "contract"; instrument_id = "token" })) 5
      60

abbrev one_signer : AddXPubRequest ℕ ℕ
one_signer = record {
  user_id = "alice";
  xpubs = 8 ∷ [];
  required_signers = pos 1;
  is_int = omega arith;
  signature = 42;
}

-- As many signers as a uint32 can hold, which is minus one as an int32.
abbrev less_than_one : AddXPubRequest ℕ ℕ
less_than_one = record one_signer { required_signers = negsuc 0; is_int = omega arith }

xpub_message-injective_example :
    (xpub_message plain_errors numbers simple first_row never none (codes "alice") one_signer
      ≡ xpub_message plain_errors numbers simple first_row never none (codes "alice") less_than_one)
    ↔ ((codes "alice" ≡ codes "alice") × (◌≡◌ {A = Bytes} (8 ∷ []) (8 ∷ [])) × (pos 1 ≡ negsuc 0))
xpub_message-injective_example =
    xpub_message-injective plain_errors numbers simple first_row never none (codes "alice")
      (codes "alice") one_signer less_than_one refl refl refl

abbrev asked_for : TransferRequest ℕ
asked_for = record { xpubs = 7 ∷ []; index = 3; contract = "contract"; instrument_id = "token" }

-- The approver is offline.
transfer_signature-approver_error_example :
    (w : World (Tables ℕ) Answers) × (serve plain_errors never
        (transfer_signature plain_errors numbers simple first_row never
          (some agreeing)
          accepts
          (ok asked_for)
          5
          60
          block)
        []
        (app_middleware plain_errors never false)
        with_alice
      ≡ ok w)
    × (IsEmptySuccess plain_errors never w.response
        ↔ ApproverFails plain_errors numbers simple first_row never
            (some agreeing)
            accepts
            (ok asked_for)
            with_alice)
transfer_signature-approver_error_example =
    transfer_signature-approver_error plain_errors numbers simple first_row never (some agreeing) 5
      60 block with_alice false accepts (ok asked_for) (λ d. refl)

offline : PlainError
offline = plain_errors.plain (literal "offline")

-- The case in question does occur.
offline-ApproverFails :
    ApproverFails plain_errors numbers simple first_row never
      (some agreeing)
      accepts
      (ok asked_for)
      with_alice
unfolding unmarshal validate check_public fetch_user_by_xpub get user_rows_by_xpub rows_where
    offline
offline-ApproverFails = record {
  request = asked_for;
  is_request = refl;
  are_public = refl;
  user = alice;
  is_user = refl;
  asked = agreeing;
  is_asked = refl;
  error = offline;
  is_error = refl;
}
