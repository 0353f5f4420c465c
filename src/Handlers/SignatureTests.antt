-- ===== src/Handlers/SignatureTests.antt =====
-- The handlers that sign, and `Health`, at concrete inputs.
use identity_oracle.Prelude.{ℕ, ◌≡◌, refl, true, none, some, [], ◌∷◌}
use identity_oracle.Errors.{Outcome, ok, err, literal, empty}
use identity_oracle.Errors.Plain.{PlainError, plain_errors}
use identity_oracle.Entity.{verify_entity_is_subset, check_field, check_list, check_name_to_phone}
use identity_oracle.Database.{get, rows_where}
use identity_oracle.Users.{fetch_user_by_xpub, user_rows_by_xpub}
use identity_oracle.XPubs.{fetch_xpub_by_xpub, xpub_rows}
use identity_oracle.Formations.{ContractFormation}
use identity_oracle.Signing.{
  approval, admin_entity, create_admin_certificate, create_receive_signature,
}
use identity_oracle.Web.{Body, plain_body, data_body, Response}
use identity_oracle.Handlers.{
  status_payload, certificate_payload, check_public, permit, transfer_payload,
}
use identity_oracle.Handlers.Verify.{AdminRequest, admin_steps, permit_identity}
use identity_oracle.Handlers.Transfers.{TransferRequest, transfer_steps, approve_transfer}
use identity_oracle.Handlers.Health.{health, health-failed}
use identity_oracle.Samples.{first_row, company, numbers, simple, with_alice}
use identity_oracle.Handlers.Tests.{Answers, never, world}

abbrev headers : Outcome PlainError (ℕ × ℕ)
headers = ok (100, 700000)

abbrev contracts : ℕ → Outcome PlainError ContractFormation
contracts a = ok (record { timestamp = 1; issuer = none })

abbrev admin_request : AdminRequest ℕ ℕ
admin_request = record { xpubs = 7 ∷ []; index = 3; issuer = company; contract = 0 }

abbrev admin_answer : Body Answers × ℕ
admin_answer = (data_body (certificate_payload true empty 111 700000 9), 200)

run_admin :
    admin_steps plain_errors numbers simple first_row never none headers contracts 9 admin_request
      with_alice
    ≡ ok (with_alice, admin_answer)
unfolding admin_steps check_public permit_identity permit fetch_user_by_xpub get user_rows_by_xpub
    rows_where create_admin_certificate fetch_xpub_by_xpub xpub_rows admin_entity approval
    verify_entity_is_subset check_name_to_phone check_field check_list
run_admin = refl

abbrev transfer : TransferRequest ℕ
transfer = record { xpubs = 7 ∷ []; index = 3; contract = "contract"; instrument_id = "token" }

abbrev down : PlainError
down = plain_errors.plain (literal "no connection")

abbrev after_health : Response Answers
after_health = (health plain_errors never status_payload (err down) (world with_alice)).1.response

health-failed_example :
    (after_health.sent ≡ some 500)
    × (after_health.written ≡ plain_body (status_payload (literal "no connection")) ∷ [])
    × (after_health.status_code ≡ 200)
    × (after_health.logged ≡ 200)
health-failed_example =
    health-failed plain_errors never status_payload down (world with_alice) refl refl

abbrev receipt : Body Answers × ℕ
receipt = (data_body (transfer_payload true empty 1 116 700000 100 60000000005), 200)

run_transfer :
    transfer_steps plain_errors numbers simple first_row never none 5 60 headers transfer with_alice
    ≡ ok (with_alice, receipt)
unfolding transfer_steps check_public approve_transfer fetch_user_by_xpub get user_rows_by_xpub
    rows_where create_receive_signature fetch_xpub_by_xpub xpub_rows
run_transfer = refl
