-- ===== src/Registry/OrderTests.antt =====
-- Tables with their rows in another order, at concrete inputs.
use identity_oracle.Prelude.{ℕ, ◌≡◌, refl, [], ◌∷◌}
use identity_oracle.Errors.{ok}
use identity_oracle.Errors.Plain.{plain_errors}
use identity_oracle.Database.{User, Tables, row_exists, execute}
use identity_oracle.Users.{create_user, insert_user_row}
use identity_oracle.Consistency.{IsConsistent}
use identity_oracle.Consistency.Tests.{with_alice-IsConsistent}
use identity_oracle.Registry.Commuting.{stored, create_user_comm}
use identity_oracle.Samples.{first_row, simple, alice, with_alice}

abbrev bob : User ℕ
bob = record alice { id = "bob"; public_key = 43 }

abbrev carol : User ℕ
carol = record alice { id = "carol"; public_key = 44 }

abbrev with_bob : Tables ℕ
with_bob = record with_alice { users = alice ∷ bob ∷ [] }

abbrev with_carol : Tables ℕ
with_carol = record with_alice { users = alice ∷ bob ∷ carol ∷ [] }

bob_joins : create_user plain_errors first_row simple.unmarshal_entity bob with_alice ≡ ok with_bob
unfolding create_user insert_user_row execute row_exists
bob_joins = refl

carol_joins :
    create_user plain_errors first_row simple.unmarshal_entity carol with_bob ≡ ok with_carol
unfolding create_user insert_user_row execute row_exists
carol_joins = refl

create_user_comm_example :
    (r : Tables ℕ) × (r' : Tables ℕ) × (c : IsConsistent with_carol) × (d : IsConsistent r')
    × (create_user plain_errors first_row simple.unmarshal_entity carol with_alice ≡ ok r)
    × (create_user plain_errors first_row simple.unmarshal_entity bob r ≡ ok r')
    × (stored with_carol c ≡ stored r' d)
create_user_comm_example =
    create_user_comm plain_errors first_row simple.unmarshal_entity bob carol with_alice with_bob
      with_carol with_alice-IsConsistent bob_joins carol_joins
