-- ===== src/Handlers/Tests.antt =====
-- The handlers at concrete inputs.
use identity_oracle.Prelude.Int.{pos}
use native.Mathlib.Omega.{arith}
use identity_oracle.Prelude.{ℕ, ◌≡◌, refl, ◌⊎◌, Option, none, some, List, [], ◌∷◌}
use identity_oracle.Errors.{ok, Invalid}
use identity_oracle.Errors.Plain.{PlainError, plain_errors}
use identity_oracle.Database.{Tables, row_exists, execute}
use identity_oracle.Users.{create_user, insert_user_row}
use identity_oracle.Web.{World, no_response, unmarshal}
use identity_oracle.Handlers.{PayloadOf, permit, conclude}
use identity_oracle.Handlers.Oracle.{
  RegisterRequest, AddXPubRequest, UpdateIdentityRequest, register, register_steps, check_signature,
  permit_registration, add_xpub, update_identity,
}
use identity_oracle.Handlers.Authority.{Registered, register-Registered}
use identity_oracle.Handlers.Additions.{AddedXPub, add_xpub-AddedXPub}
use identity_oracle.Handlers.Updates.{Updated, update_identity-Updated}
use identity_oracle.Samples.{
  first_row, company, numbers, simple, agreeing, alice, with_alice, no_rows_yet,
}

abbrev pub Answers : Type 0
Answers = PayloadOf numbers simple

abbrev pub never : Answers → Option PlainError
never d = none

abbrev pub world : Tables ℕ → World (Tables ℕ) Answers
world t = record { tables = t; response = no_response }

abbrev pub accepts : {A : Type 0} → A → List Invalid
accepts r = []

abbrev registration : RegisterRequest ℕ ℕ
registration = record { entity = company; public_key = 42; signature = 42 }

abbrev more_keys : AddXPubRequest ℕ ℕ
more_keys = record {
  user_id = "alice";
  xpubs = 8 ∷ [];
  required_signers = pos 1;
  is_int = omega arith;
  signature = 42;
}

abbrev change : UpdateIdentityRequest ℕ
change = record { user_id = "alice"; entity = company; signature = 42 }

abbrev registered : Tables ℕ
registered =
    (register plain_errors numbers simple first_row never (some agreeing) accepts (ok registration)
      "alice" 1 1 (world no_rows_yet)).1.tables

-- The run does register the user.
registered_alice : registered ≡ record { users = alice ∷ []; xpubs = [] }
unfolding register create_user insert_user_row execute row_exists conclude unmarshal register_steps
    check_signature permit_registration permit
registered_alice = refl

register-Registered_example :
    (registered ≡ no_rows_yet)
    ⊎ ((r : RegisterRequest ℕ ℕ) × (unmarshal plain_errors accepts (ok registration) ≡ ok r)
        × Registered plain_errors numbers simple first_row never
            (some agreeing)
            "alice"
            1
            1
            r
            no_rows_yet
            registered)
register-Registered_example =
    register-Registered plain_errors numbers simple first_row never (some agreeing) accepts
      (ok registration) "alice" 1 1 (world no_rows_yet)

abbrev with_more_keys : Tables ℕ
with_more_keys =
    (add_xpub plain_errors numbers simple first_row never none accepts (ok more_keys) "x2" 5
      (world with_alice)).1.tables

add_xpub-AddedXPub_example :
    (with_more_keys ≡ with_alice)
    ⊎ ((r : AddXPubRequest ℕ ℕ) × (unmarshal plain_errors accepts (ok more_keys) ≡ ok r)
        × AddedXPub plain_errors numbers simple first_row never none "x2" 5 r with_alice
            with_more_keys)
add_xpub-AddedXPub_example =
    add_xpub-AddedXPub plain_errors numbers simple first_row never none accepts (ok more_keys) "x2"
      5 (world with_alice)

abbrev changed : Tables ℕ
changed =
    (update_identity plain_errors numbers simple first_row never (some agreeing) accepts (ok change)
      9 (world with_alice)).1.tables

update_identity-Updated_example :
    (changed ≡ with_alice)
    ⊎ ((r : UpdateIdentityRequest ℕ) × (unmarshal plain_errors accepts (ok change) ≡ ok r)
        × Updated plain_errors numbers simple first_row never
            (some agreeing)
            9
            r
            with_alice
            changed)
update_identity-Updated_example =
    update_identity-Updated plain_errors numbers simple first_row never (some agreeing) accepts
      (ok change) 9 (world with_alice)
