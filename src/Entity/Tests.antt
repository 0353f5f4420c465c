-- ===== src/Entity/Tests.antt =====
-- `VerifyEntityIsSubset` at concrete entities.
use identity_oracle.Prelude.{String, ◌≡◌, refl, ◌≢◌, ◌↔◌, Option, some, List, [], ◌∷◌}
use identity_oracle.Errors.{ok, err, panic, literal}
use identity_oracle.Entity.{
  AdministratorField, EntityField, verify_entity_is_subset, check_name_to_phone, check_list,
  administrator_is_in_list,
}
use identity_oracle.Entity.Subset.{IsWhole, IsSubset}
use identity_oracle.Entity.Laws.{
  verify_entity_is_subset-iff-IsSubset, verify_entity_is_subset-total,
}

abbrev entity : String → String → List (Option AdministratorField) → EntityField
entity name email administration = record {
  name = name;
  kind = "";
  lei = "";
  unit_number = "";
  building_number = "";
  street = "";
  suburb_city = "";
  territory_state_province_code = "";
  country_code = "";
  postal_zip_code = "";
  email_address = email;
  phone_number = "";
  administration = administration;
  management = [];
  domain_name = "";
  paymail_handle = "";
}

abbrev satoshi : Option AdministratorField
satoshi = some (record { role = 2; name = "Satoshi Nakamoto" })

abbrev chairman : Option AdministratorField
chairman = some (record { role = 5; name = "Satoshi Nakamoto" })

abbrev nobody : EntityField
nobody = entity "" "" []

abbrev named : EntityField
named = entity "Tokenized" "" (satoshi ∷ [])

abbrev full : EntityField
full = entity "Tokenized" "satoshi@tokenized.com" (chairman ∷ satoshi ∷ [])

named-IsWhole : IsWhole named
named-IsWhole = record { administration = (cc, tt); management = tt }

full-IsWhole : IsWhole full
full-IsWhole = record { administration = (cc, (cc, tt)); management = tt }

nobody-IsWhole : IsWhole nobody
nobody-IsWhole = record { administration = tt; management = tt }

named_in_full : verify_entity_is_subset named full ≡ ok tt
unfolding verify_entity_is_subset check_name_to_phone check_list administrator_is_in_list
named_in_full = refl

full_in_named : verify_entity_is_subset full named ≡ err (literal "EmailAddress doesn't match")
unfolding verify_entity_is_subset check_name_to_phone check_list administrator_is_in_list
full_in_named = refl

verify_entity_is_subset-iff-IsSubset_example :
    (verify_entity_is_subset named full ≡ ok tt) ↔ IsSubset named full
verify_entity_is_subset-iff-IsSubset_example =
    verify_entity_is_subset-iff-IsSubset named full named-IsWhole full-IsWhole

verify_entity_is_subset-total_example : verify_entity_is_subset full named ≢ panic
verify_entity_is_subset-total_example =
    verify_entity_is_subset-total full named full-IsWhole named-IsWhole
