-- ===== src/Entity.antt =====
-- internal/oracle/entity.go: is the data of one entity contained in another?
-- The struct is `actions.EntityField`, with the fields that the code reads; a list of pointers is
-- a list of options, since a nil pointer in it makes the code panic.
pub mod Subset
mod Checks
pub mod Laws
mod Tests
use identity_oracle.Prelude.{
  ℕ, suc, String, Bool, true, false, not, ◌&&◌, Option, none, some, List, [], ◌∷◌, if◌then◌else◌,
}
use identity_oracle.Prelude.Equality.{◌==◌, nat_comparable, string_comparable}
use identity_oracle.Errors.{Outcome, ok, err, panic, ◌>>=◌, ◌>>◌, Text, literal, numbered}

-- `actions.AdministratorField` and `actions.ManagerField`: a role and a name.
pub record AdministratorField : Type 0 where
  pub role : ℕ
  pub name : String

pub record ManagerField : Type 0 where
  pub role : ℕ
  pub name : String

pub record EntityField : Type 0 where
  pub name : String
  pub kind : String
  pub lei : String
  pub unit_number : String
  pub building_number : String
  pub street : String
  pub suburb_city : String
  pub territory_state_province_code : String
  pub country_code : String
  pub postal_zip_code : String
  pub email_address : String
  pub phone_number : String
  pub administration : List (Option AdministratorField)
  pub management : List (Option ManagerField)
  pub domain_name : String
  pub paymail_handle : String

unfoldable pub administrator_is_in_list :
    Option AdministratorField → List (Option AdministratorField) → Outcome Text Bool
administrator_is_in_list admin [] = ok false
administrator_is_in_list none (item ∷ list) = panic
administrator_is_in_list (some admin) (none ∷ list) = panic
administrator_is_in_list (some admin) (some item ∷ list) =
    if admin.role == item.role && admin.name == item.name
    then ok true
    else administrator_is_in_list (some admin) list

unfoldable pub manager_is_in_list :
    Option ManagerField → List (Option ManagerField) → Outcome Text Bool
manager_is_in_list manager [] = ok false
manager_is_in_list none (item ∷ list) = panic
manager_is_in_list (some manager) (none ∷ list) = panic
manager_is_in_list (some manager) (some item ∷ list) =
    if manager.role == item.role && manager.name == item.name
    then ok true
    else manager_is_in_list (some manager) list

-- `if len(sub) != 0 && sub != full { return errors.New(text) }`
unfoldable pub check_field : String → String → String → Outcome Text (Unit {0})
check_field sub full text =
    if not (sub == "") && not (sub == full) then err (literal text) else ok tt

-- `for i, x := range sub { if !isInList(x, full) { return fmt.Errorf(word, i) } }`, from index `i`.
unfoldable pub check_list :
    {A : Type 0}
    → (A → List A → Outcome Text Bool)
    → String
    → ℕ
    → List A
    → List A
    → Outcome Text (Unit {0})
check_list is_in_list word i [] full = ok tt
check_list is_in_list word i (x ∷ sub) full =
    let rest = check_list is_in_list word (suc i) sub full in
    do found ← is_in_list x full; if found then rest else err (numbered word i)

unfoldable pub check_name_to_phone : EntityField → EntityField → Outcome Text (Unit {0})
unfolding check_field
check_name_to_phone sub full = do
  check_field sub.name full.name "Name doesn't match"
  check_field sub.kind full.kind "Type doesn't match"
  check_field sub.lei full.lei "LEI doesn't match"
  check_field sub.unit_number full.unit_number "UnitNumber doesn't match"
  check_field sub.building_number full.building_number "BuildingNumber doesn't match"
  check_field sub.street full.street "Street doesn't match"
  check_field sub.suburb_city full.suburb_city "SuburbCity doesn't match"
  check_field sub.territory_state_province_code full.territory_state_province_code
      "TerritoryStateProvinceCode doesn't match"
  check_field sub.country_code full.country_code "CountryCode doesn't match"
  check_field sub.postal_zip_code full.postal_zip_code "PostalZIPCode doesn't match"
  check_field sub.email_address full.email_address "EmailAddress doesn't match"
  check_field sub.phone_number full.phone_number "PhoneNumber doesn't match"

unfoldable pub verify_entity_is_subset : EntityField → EntityField → Outcome Text (Unit {0})
verify_entity_is_subset sub full = do
  check_name_to_phone sub full
  check_list administrator_is_in_list "Administrator" 0 sub.administration full.administration
  check_list manager_is_in_list "Manager" 0 sub.management full.management
  check_field sub.domain_name full.domain_name "DomainName doesn't match"
  check_field sub.paymail_handle full.paymail_handle "PaymailHandle doesn't match"
