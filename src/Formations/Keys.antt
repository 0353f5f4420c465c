-- ===== src/Formations/Keys.antt =====
-- The storage keys of formations are apart from one another and from the key of the message id.
use identity_oracle.Prelude.{ℕ, ◌/◌, ◌%◌, ◌<◌, ◌≡◌, ◌≢◌, refl, Bool, [], ◌∷◌, ◌++◌, All, arith}
use identity_oracle.Errors.{ErrorsPkg}
use identity_oracle.Storage.{Bytes, codes, ObjectStore}
use identity_oracle.MessageId.{chainstate_storage_key}
use identity_oracle.Formations.{Protocol, hex, hex_digit, formation_key, contracts_storage_key}

hex_digit-injective : (m n : ℕ) → hex_digit m ≡ hex_digit n → m < 16 → n < 16 → m ≡ n
hex_digit-injective m n e hm hn = ground arith

-- Byte lists with the same hex encoding are the same.
pub hex-injective :
    (as' bs : Bytes) → All (λ b. b < 256) as' → All (λ b. b < 256) bs → hex as' ≡ hex bs → as' ≡ bs
unfolding hex
hex-injective [] [] ha hb e = refl
hex-injective [] (b ∷ bs) ha hb e = cc
hex-injective (a ∷ as') [] ha hb e = cc
hex-injective (a ∷ as') (b ∷ bs) ha hb e =
    let high = hex_digit-injective (a / 16) (b / 16) (cc) (omega arith) (omega arith) in
    let low = hex_digit-injective (a % 16) (b % 16) (cc) (omega arith) (omega arith) in
    let same : a ≡ b = omega (arith, high, low) in cc (same, hex-injective as' bs ha.1 hb.1 (cc))

append-cancel : (as' bs cs : Bytes) → as' ++ bs ≡ as' ++ cs → bs ≡ cs
append-cancel [] bs cs e = e
append-cancel (a ∷ as') bs cs e = append-cancel as' bs cs (cc)

module _ (P : ErrorsPkg) (O : ObjectStore P.Error) (B : Protocol P.Error) (is_test : Bool) where
  open B use {RawAddress, address_bytes, address_bytes-byte, address_bytes-injective}

  -- Different addresses have different keys.
  pub formation_key-injective :
      (ra rb : RawAddress)
      → formation_key P O B is_test ra ≡ formation_key P O B is_test rb
      → ra ≡ rb
  unfolding formation_key
  formation_key-injective ra rb e =
      let encoded : hex (address_bytes ra) ≡ hex (address_bytes rb) =
        append-cancel (contracts_storage_key ++ codes "/") (hex (address_bytes ra))
          (hex (address_bytes rb)) (e) in
      address_bytes-injective ra rb (
        hex-injective (address_bytes ra) (address_bytes rb) (address_bytes-byte ra)
          (address_bytes-byte rb) encoded)

  -- No formation is stored where the message id is.
  pub formation_key-ne-chainstate_storage_key :
      (ra : RawAddress) → formation_key P O B is_test ra ≢ chainstate_storage_key
  unfolding formation_key
  formation_key-ne-chainstate_storage_key ra e = cc
