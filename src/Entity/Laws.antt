-- ===== src/Entity/Laws.antt =====
-- `VerifyEntityIsSubset` decides `IsSubset`, which is reflexive and transitive.
use identity_oracle.Prelude.{
  ◌≢◌, Option, ◌++◌, length, ap, ◌≡◌, refl, ◌∙◌, ◌↔◌, inl, inr, String, List, [], ◌∷◌, All,
}
use native.Mathlib.Omega.{arith}
use identity_oracle.Errors.{ok, err, panic, numbered}
use identity_oracle.Entity.{
  EntityField, AdministratorField, administrator_is_in_list, check_name_to_phone,
  verify_entity_is_subset,
}
use identity_oracle.Entity.Subset.{Matches, left_out, same, Among, IsWhole, IsSubset}
use identity_oracle.Entity.Checks.{
  both, total, check_field-total, check_list-total, check_list-missing, check_field-Matches,
  administrator-Decides, manager-Decides, check_list-All,
}

-- The texts from the name to the phone number, and those after the lists.
abbrev TextsMatch : EntityField → EntityField → Type 0
TextsMatch sub full =
    Matches sub.name full.name
    × (Matches sub.kind full.kind
        × (Matches sub.lei full.lei
            × (Matches sub.unit_number full.unit_number
                × (Matches sub.building_number full.building_number
                    × (Matches sub.street full.street
                        × (Matches sub.suburb_city full.suburb_city
                            × (Matches sub.territory_state_province_code
                                  full.territory_state_province_code
                                × (Matches sub.country_code full.country_code
                                    × (Matches sub.postal_zip_code full.postal_zip_code
                                        × (Matches sub.email_address full.email_address
                                            × (Matches sub.phone_number full.phone_number)))))))))))

abbrev ListsMatch : EntityField → EntityField → Type 0
ListsMatch sub full =
    All (λ x. Among x full.administration) sub.administration
    × (All (λ x. Among x full.management) sub.management
        × (Matches sub.domain_name full.domain_name
            × Matches sub.paymail_handle full.paymail_handle))

check_name_to_phone-TextsMatch :
    (sub full : EntityField) → (check_name_to_phone sub full ≡ ok tt) ↔ TextsMatch sub full
unfolding check_name_to_phone
check_name_to_phone-TextsMatch sub full =
    (both _ _ (check_field-Matches sub.name full.name _) (
      both _ _ (check_field-Matches sub.kind full.kind _) (
        both _ _ (check_field-Matches sub.lei full.lei _) (
          both _ _ (check_field-Matches sub.unit_number full.unit_number _) (
            both _ _ (check_field-Matches sub.building_number full.building_number _) (
              both _ _ (check_field-Matches sub.street full.street _) (
                both _ _ (check_field-Matches sub.suburb_city full.suburb_city _) (
                  both _ _
                    (check_field-Matches sub.territory_state_province_code
                      full.territory_state_province_code _)
                    (both _ _ (check_field-Matches sub.country_code full.country_code _) (
                      both _ _ (check_field-Matches sub.postal_zip_code full.postal_zip_code _) (
                        both _ _ (check_field-Matches sub.email_address full.email_address _)
                          (check_field-Matches sub.phone_number full.phone_number _))))))))))))

regroup : (sub full : EntityField) → (TextsMatch sub full × ListsMatch sub full) ↔ IsSubset sub full
regroup sub full = (λ t. assumption, λ s. assumption)

-- The check succeeds exactly if `sub` is a subset of `full`, for entities without nil pointers.
pub verify_entity_is_subset-iff-IsSubset :
    (sub full : EntityField)
    → IsWhole sub
    → IsWhole full
    → (verify_entity_is_subset sub full ≡ ok tt) ↔ IsSubset sub full
unfolding verify_entity_is_subset
verify_entity_is_subset-iff-IsSubset sub full ws wf =
    let passes = both _ _ (check_name_to_phone-TextsMatch sub full) (
      both _ _
        (check_list-All _ administrator-Decides "Administrator" 0 _ _ ws.administration
          wf.administration)
        (both _ _ (check_list-All _ manager-Decides "Manager" 0 _ _ ws.management wf.management) (
          both _ _ (check_field-Matches sub.domain_name full.domain_name "DomainName doesn't match")
            (check_field-Matches sub.paymail_handle full.paymail_handle
              "PaymailHandle doesn't match")))) in
    (λ h. (regroup sub full).0 (passes.0 h), λ s. passes.1 ((regroup sub full).1 s))

Among-All_self :
    {A : Type 0} (xs ys : List A) → ((x : A) → Among x xs → Among x ys) → All (λ x. Among x ys) xs
Among-All_self [] ys k = tt
Among-All_self (x ∷ xs) ys k = (k x (inl refl), Among-All_self xs ys (λ z m. k z (inr m)))

Among-trans :
    {A : Type 0} (x : A) (ys zs : List A) → Among x ys → All (λ y. Among y zs) ys → Among x zs
Among-trans x [] zs m h = absurd m
Among-trans x (y ∷ ys) zs (inl e) h = rw e h.0
Among-trans x (y ∷ ys) zs (inr m) h = Among-trans x ys zs m h.1

All-Among-trans :
    {A : Type 0} (xs ys zs : List A)
    → All (λ x. Among x ys) xs
    → All (λ y. Among y zs) ys
    → All (λ x. Among x zs) xs
All-Among-trans [] ys zs h k = tt
All-Among-trans (x ∷ xs) ys zs h k = (Among-trans x ys zs h.0 k, All-Among-trans xs ys zs h.1 k)

Matches-trans : {a b c : String} → Matches a b → Matches b c → Matches a c
Matches-trans (left_out e) m = left_out e
Matches-trans (same e) (left_out f) = left_out (e ∙ f)
Matches-trans (same e) (same f) = same (e ∙ f)

IsSubset-refl : (e : EntityField) → IsSubset e e
IsSubset-refl e =
    let admins = Among-All_self e.administration e.administration (λ x m. m) in
    let managers = Among-All_self e.management e.management (λ x m. m) in
    search (admins, managers, same)

IsSubset-trans : {a b c : EntityField} → IsSubset a b → IsSubset b c → IsSubset a c
IsSubset-trans {a} {b} {c} p q = record {
  name = Matches-trans p.name q.name;
  kind = Matches-trans p.kind q.kind;
  lei = Matches-trans p.lei q.lei;
  unit_number = Matches-trans p.unit_number q.unit_number;
  building_number = Matches-trans p.building_number q.building_number;
  street = Matches-trans p.street q.street;
  suburb_city = Matches-trans p.suburb_city q.suburb_city;
  territory = Matches-trans p.territory q.territory;
  country_code = Matches-trans p.country_code q.country_code;
  postal_zip_code = Matches-trans p.postal_zip_code q.postal_zip_code;
  email_address = Matches-trans p.email_address q.email_address;
  phone_number = Matches-trans p.phone_number q.phone_number;
  administration =
      All-Among-trans a.administration b.administration c.administration p.administration
        q.administration;
  management = All-Among-trans a.management b.management c.management p.management q.management;
  domain_name = Matches-trans p.domain_name q.domain_name;
  paymail_handle = Matches-trans p.paymail_handle q.paymail_handle;
}

-- An entity is accepted as a subset of itself.
pub verify_entity_is_subset_refl :
    (e : EntityField) → IsWhole e → verify_entity_is_subset e e ≡ ok tt
verify_entity_is_subset_refl e w =
    (verify_entity_is_subset-iff-IsSubset e e w w).1 (IsSubset-refl e)

-- If `a` is accepted against `b` and `b` against `c`, then `a` is accepted against `c`.
pub verify_entity_is_subset_trans :
    (a b c : EntityField)
    → IsWhole a
    → IsWhole b
    → IsWhole c
    → verify_entity_is_subset a b ≡ ok tt
    → verify_entity_is_subset b c ≡ ok tt
    → verify_entity_is_subset a c ≡ ok tt
verify_entity_is_subset_trans a b c wa wb wc p q =
    (verify_entity_is_subset-iff-IsSubset a c wa wc).1 (
      IsSubset-trans ((verify_entity_is_subset-iff-IsSubset a b wa wb).0 p)
        ((verify_entity_is_subset-iff-IsSubset b c wb wc).0 q))

check_name_to_phone-total : (sub full : EntityField) → check_name_to_phone sub full ≢ panic
unfolding check_name_to_phone
check_name_to_phone-total sub full =
    (total _ _ (check_field-total sub.name full.name _) (
      total _ _ (check_field-total sub.kind full.kind _) (
        total _ _ (check_field-total sub.lei full.lei _) (
          total _ _ (check_field-total sub.unit_number full.unit_number _) (
            total _ _ (check_field-total sub.building_number full.building_number _) (
              total _ _ (check_field-total sub.street full.street _) (
                total _ _ (check_field-total sub.suburb_city full.suburb_city _) (
                  total _ _
                    (check_field-total sub.territory_state_province_code
                      full.territory_state_province_code _)
                    (total _ _ (check_field-total sub.country_code full.country_code _) (
                      total _ _ (check_field-total sub.postal_zip_code full.postal_zip_code _) (
                        total _ _ (check_field-total sub.email_address full.email_address _)
                          (check_field-total sub.phone_number full.phone_number _))))))))))))

-- For entities without nil pointers the check returns, with success or with an error.
pub verify_entity_is_subset-total :
    (sub full : EntityField) → IsWhole sub → IsWhole full → verify_entity_is_subset sub full ≢ panic
unfolding verify_entity_is_subset
verify_entity_is_subset-total sub full ws wf = total _ _ (check_name_to_phone-total sub full) (
    total _ _
      (check_list-total _ administrator-Decides "Administrator" full.administration
        wf.administration 0 sub.administration ws.administration)
      (total _ _
        (check_list-total _ manager-Decides "Manager" full.management wf.management 0 sub.management
          ws.management)
        (total _ _ (check_field-total sub.domain_name full.domain_name "DomainName doesn't match") (
          check_field-total sub.paymail_handle full.paymail_handle "PaymailHandle doesn't match"))))

-- If the texts from the name to the phone number match, the administrators `before` are all in
-- `full` and the one after them is not, the error names that one by its index.
pub verify_entity_is_subset-administrator :
    (sub full : EntityField) (before after : List (Option AdministratorField))
    (x : Option AdministratorField)
    → IsWhole sub
    → IsWhole full
    → TextsMatch sub full
    → sub.administration ≡ before ++ x ∷ after
    → All (λ y. Among y full.administration) before
    → ¬ Among x full.administration
    → verify_entity_is_subset sub full ≡ err (numbered "Administrator" (length before))
unfolding verify_entity_is_subset
verify_entity_is_subset-administrator sub full before after x ws wf t e h n =
    rw ((check_name_to_phone-TextsMatch sub full).1 t, e)
      (rw
        (check_list-missing administrator_is_in_list administrator-Decides "Administrator"
          full.administration wf.administration 0 before after x (rw e at ws.administration) h n)
        (ap (λ k. err (numbered "Administrator" k)) (omega arith)))
