-- ===== src/Handlers/JourneyTests.antt =====
-- A new user's requests and keys that two users have, at concrete inputs.
use identity_oracle.Prelude.{false, ℕ, ◌≡◌, refl, some, [], ◌∷◌, ◌++◌, ◌&&◌}
use identity_oracle.Web.Chain.{serve}
use identity_oracle.Web.Recovery.{app_middleware}
use identity_oracle.Handlers.Answers.{Succeeds}
use identity_oracle.Prelude.Int.{pos}
use native.Mathlib.Omega.{arith}
use identity_oracle.Prelude.Equality.{◌==◌, string_comparable}
use identity_oracle.Prelude.Keys.{bytes_comparable}
use identity_oracle.Errors.{ok, literal}
use identity_oracle.Errors.Plain.{PlainError, plain, plain_errors}
use identity_oracle.Storage.{codes}
use identity_oracle.Database.{User, XPub, Tables, Driver, rows_where, row_exists, get}
use identity_oracle.Users.{user_rows, fetch_user, fetch_user_by_xpub}
use identity_oracle.XPubs.{xpub_rows, fetch_xpub_by_xpub}
use identity_oracle.Web.{World, no_body, data_body, unmarshal}
use identity_oracle.Handlers.{user_created, user_payload}
use identity_oracle.Handlers.Oracle.{RegisterRequest, AddXPubRequest, register, add_xpub, user}
use identity_oracle.Handlers.Steps.{agreed}
use identity_oracle.Handlers.Served.{Registrable, Addable}
use identity_oracle.Handlers.Journey.{IsJourney, user-add_xpub-register}
use identity_oracle.Handlers.SharedKeys.{last_row, fetch_xpub_by_xpub-add_xpub}
use identity_oracle.Handlers.Tests.{Answers, never, world, accepts}
use identity_oracle.Samples.{
  first_row, company, numbers, simple, agreeing, alice, alice_keys, no_rows_yet,
}

abbrev signing_up : RegisterRequest ℕ ℕ
signing_up = record { entity = company; public_key = 42; signature = 42 }

abbrev own_keys : AddXPubRequest ℕ ℕ
own_keys = record {
  user_id = "alice";
  xpubs = 8 ∷ [];
  required_signers = pos 1;
  is_int = omega arith;
  signature = 42;
}

nobody : row_exists (λ (u : User ℕ). u.id == "alice") [] ≡ false
unfolding row_exists
nobody = refl

no_keys : row_exists (λ (x : XPub). x.id == "x1") [] ≡ false
unfolding row_exists
no_keys = refl

abbrev in_order :
    Registrable plain_errors numbers simple first_row never
      (some agreeing)
      "alice"
      signing_up
      no_rows_yet
in_order = record {
  message = codes "Tokenized";
  is_message = refl;
  is_signed = refl;
  entity = codes "Tokenized";
  is_entity = refl;
  stored = company;
  is_stored = refl;
  is_permitted = agreed agreeing (literal "yes") refl refl;
  is_new = nobody;
}

abbrev journey :
    IsJourney plain_errors numbers simple first_row never
      (some agreeing)
      "alice"
      "x1"
      signing_up
      own_keys
      no_rows_yet
journey = record {
  in_order = in_order;
  is_own = refl;
  are_public = (refl, tt);
  userid = codes "alice";
  is_userid = refl;
  is_signed = refl;
  fits = refl;
  is_new = no_keys;
  are_free = tt;
}

user-add_xpub-register_example :
    (w₁ : World (Tables ℕ) Answers) × (w₂ : World (Tables ℕ) Answers) × (w₃ : World
      (Tables ℕ)
      Answers)
    × (serve plain_errors never
          (register plain_errors numbers simple first_row never
            (some agreeing)
            accepts
            (ok signing_up)
            "alice"
            1
            1)
          []
          (app_middleware plain_errors never false)
          no_rows_yet
        ≡ ok w₁)
    × (serve plain_errors never
          (add_xpub plain_errors numbers simple first_row never
            (some agreeing)
            accepts
            (ok own_keys)
            "x1"
            2)
          []
          (app_middleware plain_errors never false)
          w₁.tables
        ≡ ok w₂)
    × (serve plain_errors never
          (user plain_errors numbers simple first_row never (some agreeing) accepts (ok (8 ∷ [])))
          []
          (app_middleware plain_errors never false)
          w₂.tables
        ≡ ok w₃)
    × Succeeds plain_errors never
        (data_body (user_created "User Created" "alice"))
        (record { users = alice ∷ []; xpubs = [] })
        w₁
    × Succeeds plain_errors never no_body
        (record { users = alice ∷ []; xpubs = record alice_keys { xpub = 8 ∷ [] } ∷ [] })
        w₂
    × Succeeds plain_errors never
        (data_body (user_payload "alice"))
        (record { users = alice ∷ []; xpubs = record alice_keys { xpub = 8 ∷ [] } ∷ [] })
        w₃
    × (fetch_user_by_xpub plain_errors first_row (8 ∷ []) w₂.tables ≡ ok alice)
user-add_xpub-register_example =
    user-add_xpub-register plain_errors numbers simple first_row never (some agreeing) (λ s. refl)
      "alice" "x1" 1 1 2 signing_up own_keys no_rows_yet journey false accepts (ok signing_up)
      accepts (ok own_keys) accepts (ok (8 ∷ [])) refl refl (unfold unmarshal in refl)
      (unfold unmarshal in refl) (unfold unmarshal in refl)

-- A second user, who asks for the keys of the first with two signers.
abbrev bob : User ℕ
bob = record alice { id = "bob"; public_key = 43 }

abbrev two_users : Tables ℕ
two_users = record { users = alice ∷ bob ∷ []; xpubs = alice_keys ∷ [] }

abbrev others_keys : AddXPubRequest ℕ ℕ
others_keys = record {
  user_id = "bob";
  xpubs = 7 ∷ [];
  required_signers = pos 2;
  is_int = omega arith;
  signature = 43;
}

abbrev last_one : Driver PlainError
last_one = last_row (plain (literal "violation"))

fetch_bob : fetch_user plain_errors last_one "bob" two_users ≡ ok bob
unfolding fetch_user get user_rows rows_where
fetch_bob = refl

no_bob_keys : row_exists (λ x. x.id == "x2") two_users.xpubs ≡ false
unfolding row_exists
no_bob_keys = refl

not_of_bob : row_exists (λ x. x.user_id == "bob" && x.xpub == 7 ∷ []) two_users.xpubs ≡ false
unfolding row_exists
not_of_bob = refl

abbrev addable :
    Addable plain_errors numbers simple last_one never (some agreeing) "x2" others_keys two_users
addable = record {
  are_public = (refl, tt);
  user = bob;
  is_user = fetch_bob;
  userid = codes "bob";
  is_userid = refl;
  is_signed = refl;
  fits = refl;
  is_new = no_bob_keys;
}

abbrev shared : Tables ℕ
shared =
    (add_xpub plain_errors numbers simple last_one never (some agreeing) accepts (ok others_keys)
      "x2" 5 (world two_users)).1.tables

abbrev keys_of_bob : XPub
keys_of_bob = record {
  id = "x2";
  user_id = "bob";
  xpub = 7 ∷ [];
  required_signers = pos 2;
  date_created = 5;
}

fetch_xpub_by_xpub-add_xpub_example :
    (xpub_rows (7 ∷ []) shared ≡ xpub_rows (7 ∷ []) two_users ++ keys_of_bob ∷ [])
    × (fetch_xpub_by_xpub plain_errors last_one (7 ∷ []) shared ≡ ok keys_of_bob)
fetch_xpub_by_xpub-add_xpub_example =
    fetch_xpub_by_xpub-add_xpub plain_errors numbers simple never (some agreeing)
      (plain (literal "violation")) accepts (ok others_keys) "x2" 5 (world two_users) others_keys
      (unfold unmarshal in refl) addable not_of_bob
