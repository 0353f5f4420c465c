-- ===== src/Registry.antt =====
-- What the service promises of its users, without tables: each id has an identity or none.
-- `view` is what the rows of `users` say, and `Change` what one request may do. This is the contract
-- of internal/oracle/user.go and of the handlers that use it.
pub mod Refinement
pub mod Interleaving
pub mod Order
pub mod Commuting
pub mod OrderTests
pub mod Tests
use identity_oracle.Prelude.{String, ◌≡◌, ◌≢◌, Option, none, some, List, [], ◌∷◌}
use identity_oracle.Storage.{Bytes}
use identity_oracle.Database.{User, Tables}
use identity_oracle.Users.{user_rows}

pub record Identity (PublicKey : Type 0) : Type 0 where
  pub entity : Bytes
  pub public_key : PublicKey

abbrev pub Registry : Type 0 → Type 0
Registry PublicKey = String → Option (Identity PublicKey)

module _ {PublicKey : Type 0} where
  abbrev pub first_identity : List (User PublicKey) → Option (Identity PublicKey)
  first_identity [] = none
  first_identity (u ∷ users) = some (record { entity = u.entity; public_key = u.public_key })

  abbrev pub view : Tables PublicKey → Registry PublicKey
  view t id = first_identity (user_rows id t)

  -- The ids other than one keep what they have.
  abbrev pub SameElsewhere : String → Registry PublicKey → Registry PublicKey → Type 0
  SameElsewhere id v v' = (j : String) → j ≢ id → v' j ≡ v j

  -- One request leaves everything, gives an identity to an id that has none, or gives a new entity to
  -- an id that has one, under the same public key.
  pub data Change (v v' : Registry PublicKey) : Type 0 where
    stays : ((j : String) → v' j ≡ v j) → Change v v'
    joins :
        (id : String) (x : Identity PublicKey)
        → v id ≡ none
        → v' id ≡ some x
        → SameElsewhere id v v'
        → Change v v'
    updates :
        (id : String) (x : Identity PublicKey) (entity : Bytes)
        → v id ≡ some x
        → v' id ≡ some (record x { entity = entity })
        → SameElsewhere id v v'
        → Change v v'
