-- ===== src/Handlers/Registrations.antt =====
-- Exactly which registrations `Register` of handlers/oracle.go serves, as it is mounted.
use identity_oracle.Prelude.{ℕ, String, ◌≡◌, ◌++◌, Option, [], ◌∷◌}
use identity_oracle.Errors.{ErrorsPkg}
use identity_oracle.Database.{Tables, Driver}
use identity_oracle.Signing.{Crypto}
use identity_oracle.Handlers.{Services, Approver, PayloadOf}
use identity_oracle.Handlers.Oracle.{RegisterRequest}
use identity_oracle.Handlers.Served.{Registrable, new_user}

module _ (P : ErrorsPkg) (C : Crypto P.Error) (S : Services P.Error C) (D : Driver P.Error)
    (encode_error : PayloadOf C S → Option P.Error)
    (approver : Option (Approver P.Error C.PublicKey)) where
  open P use {Error}
  open C use {PublicKey}
  open S use {Signature, unmarshal_entity}

  -- The registration is in order, and its row is what the tables have more than before.
  abbrev pub Enters :
      String
      → ℕ
      → ℕ
      → RegisterRequest PublicKey Signature
      → Tables PublicKey
      → Tables PublicKey
      → Type 0
  Enters user_id created modified r t t' =
      (g : Registrable P C S D encode_error approver user_id r t) × (record t {
        users =
            t.users
            ++ new_user P C S D encode_error approver user_id created modified r.public_key g.entity
              ∷ [];
      }
        ≡ t')
