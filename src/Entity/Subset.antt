-- ===== src/Entity/Subset.antt =====
-- What `VerifyEntityIsSubset` promises, stated without reference to how it checks.
use identity_oracle.Prelude.{◌≡◌, ◌⊎◌, String, Option, none, List, [], ◌∷◌, All, ◌≢◌}
use identity_oracle.Entity.{EntityField}

-- A text of `sub` is left out, or is that of `full`.
pub data Matches (sub full : String) : Type 0 where
  left_out : sub ≡ "" → Matches sub full
  same : sub ≡ full → Matches sub full

abbrev pub Among : {A : Type 0} → A → List A → Type 0
Among x [] = ⊥
Among x (y ∷ ys) = (x ≡ y) ⊎ Among x ys

-- No pointer of the list is nil.
abbrev pub NoNil : {A : Type 0} → List (Option A) → Type 0
NoNil xs = All (λ x. x ≢ none) xs

-- The entity's lists hold no nil pointer.
pub record IsWhole (e : EntityField) : Type 0 where
  pub administration : NoNil e.administration
  pub management : NoNil e.management

pub record IsSubset (sub full : EntityField) : Type 0 where
  pub name : Matches sub.name full.name
  pub kind : Matches sub.kind full.kind
  pub lei : Matches sub.lei full.lei
  pub unit_number : Matches sub.unit_number full.unit_number
  pub building_number : Matches sub.building_number full.building_number
  pub street : Matches sub.street full.street
  pub suburb_city : Matches sub.suburb_city full.suburb_city
  pub territory : Matches sub.territory_state_province_code full.territory_state_province_code
  pub country_code : Matches sub.country_code full.country_code
  pub postal_zip_code : Matches sub.postal_zip_code full.postal_zip_code
  pub email_address : Matches sub.email_address full.email_address
  pub phone_number : Matches sub.phone_number full.phone_number
  pub administration : All (λ x. Among x full.administration) sub.administration
  pub management : All (λ x. Among x full.management) sub.management
  pub domain_name : Matches sub.domain_name full.domain_name
  pub paymail_handle : Matches sub.paymail_handle full.paymail_handle
