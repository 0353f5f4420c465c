-- ===== src/Signing/Tests.antt =====
-- Signature hashes at concrete inputs.
use identity_oracle.Prelude.{ℕ, ◌≡◌, refl, true, none, [], ◌∷◌, ◌⊎◌}
use identity_oracle.Errors.{Outcome, ok, empty}
use identity_oracle.Errors.Plain.{PlainError, plain_errors}
use identity_oracle.Entity.{
  EntityField, verify_entity_is_subset, check_field, check_list, check_name_to_phone,
}
use identity_oracle.Database.{get, rows_where}
use identity_oracle.XPubs.{fetch_xpub_by_xpub, xpub_rows}
use identity_oracle.Formations.{ContractFormation}
use identity_oracle.Signing.{
  SignatureHash, approval, verify_pub_key, verify_xpub, admin_entity, create_admin_certificate,
  create_receive_signature,
}
use identity_oracle.Signing.Approval.{Attests, verify_pub_key-Attests}
use identity_oracle.Signing.Certificates.{Derived, Certified, create_admin_certificate-Attests}
use identity_oracle.Samples.{first_row, company, numbers, simple, alice, with_alice}

abbrev headers : Outcome PlainError (ℕ × ℕ)
headers = ok (100, 700000)

abbrev contracts : ℕ → Outcome PlainError ContractFormation
contracts a = ok (record { timestamp = 1; issuer = none })

abbrev answer : ℕ → SignatureHash ℕ
answer n = record { hash = n; block_height = 700000; approved = true; description = empty }

run_pub_key :
    verify_pub_key plain_errors numbers simple.unmarshal_entity alice headers company 7 3
    ≡ ok (answer 111)
unfolding verify_pub_key approval verify_entity_is_subset check_name_to_phone check_field check_list
run_pub_key = refl

verify_pub_key-Attests_example :
    (key : ℕ) × (numbers.child_key 7 3 ≡ ok key)
    × Attests plain_errors numbers simple.unmarshal_entity alice headers company
        (numbers.entity_pub_key_sig_hash company (numbers.public_key key))
        (answer 111)
verify_pub_key-Attests_example =
    verify_pub_key-Attests plain_errors numbers simple.unmarshal_entity alice headers company 7 3
      (answer 111) run_pub_key

run_xpub :
    verify_xpub plain_errors numbers simple.unmarshal_entity alice headers company (7 ∷ [])
    ≡ ok (answer 108)
unfolding verify_xpub approval verify_entity_is_subset check_name_to_phone check_field check_list
run_xpub = refl

run_admin :
    create_admin_certificate plain_errors numbers first_row simple.unmarshal_entity with_alice alice
      headers contracts
      (7 ∷ [])
      3
      company
      0
      9
    ≡ ok (answer 111)
unfolding create_admin_certificate admin_entity fetch_xpub_by_xpub get xpub_rows rows_where approval
    verify_entity_is_subset check_name_to_phone check_field check_list
run_admin = refl

create_admin_certificate-Attests_example :
    (address : ℕ) × Derived plain_errors numbers first_row with_alice (7 ∷ []) 3 address
    × ((hashed : EntityField ⊎ ℕ) × ((checked : EntityField) × Certified plain_errors numbers
            first_row contracts company 0 hashed checked
          × Attests plain_errors numbers simple.unmarshal_entity alice headers checked
              (λ block. numbers.contract_admin_sig_hash address hashed block 9)
              (answer 111)))
create_admin_certificate-Attests_example =
    create_admin_certificate-Attests plain_errors numbers first_row simple.unmarshal_entity
      with_alice alice headers contracts (7 ∷ []) 3 company 0 9 (answer 111) run_admin

run_receive :
    create_receive_signature plain_errors numbers first_row with_alice headers "contract" "token"
      (7 ∷ [])
      3
      9
      true
    ≡ ok (116, (700000, 100))
unfolding create_receive_signature fetch_xpub_by_xpub get xpub_rows rows_where
run_receive = refl
