-- ===== src/Registry/Tests.antt =====
-- The registry of users at concrete inputs: a new entity for a user who has one.
use identity_oracle.Prelude.{ℕ, ◌≡◌, refl, some, [], ◌∷◌}
use identity_oracle.Errors.{ok}
use identity_oracle.Errors.Plain.{plain_errors}
use identity_oracle.Storage.{codes}
use identity_oracle.Database.{User, Tables, rows_where, get, execute}
use identity_oracle.Users.{user_rows, fetch_user, update_user}
use identity_oracle.Consistency.{IsConsistent}
use identity_oracle.Consistency.Tests.{with_alice-IsConsistent}
use identity_oracle.Handlers.Oracle.{UpdateIdentityRequest}
use identity_oracle.Handlers.Runs.{Request, to_update_identity, serve_request, at_start, served}
use identity_oracle.Handlers.Tests.{never, world, accepts}
use identity_oracle.Registry.{Identity, view}
use identity_oracle.Registry.Refinement.{public_key-Reachable}
use identity_oracle.Registry.Interleaving.{at_rest, then_write, updated, fetch_user-Writes}
use identity_oracle.Samples.{first_row, company, numbers, simple, agreeing, alice, with_alice}

abbrev change : UpdateIdentityRequest ℕ
change = record { user_id = "alice"; entity = company; signature = 42 }

abbrev asked : Request plain_errors numbers simple first_row never
asked = to_update_identity (some agreeing) accepts (ok change) 9

abbrev changed : Tables ℕ
changed = serve_request plain_errors numbers simple first_row never asked (world with_alice)

abbrev before : Identity ℕ
before = record { entity = codes "Tokenized"; public_key = 42 }

view-alice : view with_alice "alice" ≡ some before
unfolding user_rows rows_where
view-alice = refl

public_key-Reachable_example :
    (y : Identity ℕ) × (view changed "alice" ≡ some y) × (y.public_key ≡ 42)
public_key-Reachable_example =
    public_key-Reachable plain_errors numbers simple first_row never with_alice changed "alice"
      before with_alice-IsConsistent (served (world with_alice) asked at_start) view-alice

abbrev renamed : Tables ℕ
renamed = record with_alice {
  users = record alice { entity = codes "Renamed"; date_modified = 9 } ∷ [];
}

rename_alice :
    update_user plain_errors first_row simple.unmarshal_entity 9
      (record alice { entity = codes "Renamed" })
      with_alice
    ≡ ok renamed
unfolding update_user execute
rename_alice = refl

fetch_alice : fetch_user plain_errors first_row "alice" with_alice ≡ ok alice
unfolding fetch_user get user_rows rows_where
fetch_alice = refl

-- Another request renames the user between the two statements of a request.
fetch_user-Writes_example :
    IsConsistent renamed
    × ((row : User ℕ) × (user_rows "alice" renamed ≡ row ∷ []) × (row.public_key ≡ 42))
fetch_user-Writes_example =
    fetch_user-Writes plain_errors first_row simple.unmarshal_entity "alice" with_alice renamed
      alice with_alice-IsConsistent fetch_alice
      (then_write at_rest (updated 9 (record alice { entity = codes "Renamed" }) rename_alice))
