-- ===== src/Samples.antt =====
-- Concrete instances of the parameters, at which the theorems are tried: a database that answers
-- with its first row, keys and hashes that are numbers, and an address for each of two contracts.
use identity_oracle.Prelude.Int.{pos}
use identity_oracle.Prelude.{
  ℕ, ◌+◌, ◌≡◌, refl, Bool, true, false, Option, none, some, List, [], ◌∷◌, inl, arith, All, ◌<◌,
}
use identity_oracle.Prelude.Equality.{◌==◌, nat_comparable}
use identity_oracle.Errors.{Outcome, ok, err, literal}
use identity_oracle.Errors.Plain.{PlainError, plain}
use identity_oracle.Entity.{EntityField}
use identity_oracle.Entity.Subset.{Among}
use identity_oracle.Storage.{Bytes, codes}
use identity_oracle.Database.{User, XPub, Tables, Driver}
use identity_oracle.Formations.{Action, contract_formation, other_action, Protocol}
use identity_oracle.Signing.{Crypto}
use identity_oracle.Handlers.{Services, Approver}

abbrev first : (A : Type 0) → List A → Option A
first A [] = none
first A (a ∷ rows) = some a

pub first-Among : (A : Type 0) (rows : List A) (a : A) → first A rows ≡ some a → Among a rows
first-Among A [] a e = absurd (ground arith)
first-Among A (b ∷ rows) a e = inl (ground arith)

pub first-none : (A : Type 0) (rows : List A) → first A rows ≡ none → rows ≡ []
first-none A [] e = refl
first-none A (b ∷ rows) e = absurd (ground arith)

abbrev pub first_row : Driver PlainError
first_row = record {
  fault = λ s. none;
  violation = plain (literal "violation");
  pick = first;
  pick-Among = first-Among;
  pick-none = first-none;
}

abbrev pub company : EntityField
company = record {
  name = "Tokenized";
  kind = "";
  lei = "";
  unit_number = "";
  building_number = "";
  street = "";
  suburb_city = "";
  territory_state_province_code = "";
  country_code = "";
  postal_zip_code = "";
  email_address = "";
  phone_number = "";
  administration = [];
  management = [];
  domain_name = "";
  paymail_handle = "";
}

-- A key at an index is the sum of both, and an address is what the first key is.
abbrev first_key : List ℕ → ℕ
first_key [] = 0
first_key (k ∷ keys) = k

abbrev pub numbers : Crypto PlainError
numbers = record {
  ExtendedKey = ℕ;
  PublicKey = ℕ;
  Hash = ℕ;
  RawAddress = ℕ;
  is_empty = λ a. a == 0;
  keys_bytes = λ keys. keys;
  child_key = λ k i. ok (k + i);
  public_key = λ k. k;
  child_keys = λ keys i. ok ((first_key keys + i) ∷ []);
  raw_address = λ keys n. ok (first_key keys);
  decode_address = λ s. ok 5;
  decode_instrument_id = λ s. ok (codes s);
  entity_pub_key_sig_hash = λ e k h approve. ok (k + h + approve);
  entity_xpub_sig_hash = λ e keys h approve. ok (first_key keys + h + approve);
  contract_admin_sig_hash = λ a e h expiration approve. ok (a + h + approve);
  transfer_sig_hash = λ c i a h expiration approve. ok (c + a + h + approve);
}

-- A signature is the number of the key.
abbrev pub simple : Services PlainError numbers
simple = record {
  Signature = ℕ;
  is_private = λ k. k == 0;
  verify = λ s message key. s == key;
  sign = λ h. ok h;
  sha256 = λ bs. bs;
  write_deterministic = λ e. ok (codes e.name);
  marshal = λ e. ok (codes e.name);
  unmarshal_entity = λ bs. ok company;
  parse_uuid = λ s. ok (codes s);
}

abbrev pub agreeing : Approver PlainError ℕ
agreeing = record {
  approve_registration = λ id e key. ok (true, literal "yes");
  update_identity = λ id e. ok (true, literal "yes");
  approve_identity = λ id. ok (true, literal "yes");
  approve_transfer = λ c i id. err (plain (literal "offline"));
}

abbrev pub alice : User ℕ
alice = record {
  id = "alice";
  entity = codes "Tokenized";
  public_key = 42;
  date_created = 1;
  date_modified = 1;
  is_deleted = false;
}

abbrev pub alice_keys : XPub
alice_keys = record {
  id = "x1";
  user_id = "alice";
  xpub = 7 ∷ [];
  required_signers = pos 1;
  date_created = 2;
}

abbrev pub no_rows_yet : Tables ℕ
no_rows_yet = record { users = []; xpubs = [] }

abbrev pub with_alice : Tables ℕ
with_alice = record { users = alice ∷ []; xpubs = alice_keys ∷ [] }

abbrev two_addresses : Bool → Bytes
two_addresses true = 171 ∷ []
two_addresses false = 205 ∷ []

pub two_addresses-byte : (a : Bool) → All (λ b. b < 256) (two_addresses a)
two_addresses-byte true = (omega arith, tt)
two_addresses-byte false = (omega arith, tt)

pub two_addresses-injective : (a b : Bool) → two_addresses a ≡ two_addresses b → a ≡ b
two_addresses-injective true true e = refl
two_addresses-injective true false e = absurd (ground arith)
two_addresses-injective false true e = absurd (ground arith)
two_addresses-injective false false e = refl

-- A script is a formation with the timestamp that it starts with, or empty.
abbrev action : Bytes → Bool → Outcome PlainError Action
action [] is_test = ok other_action
action (n ∷ bs) is_test = ok (contract_formation (record { timestamp = n; issuer = none }))

abbrev pub two_contracts : Protocol PlainError
two_contracts = record {
  RawAddress = Bool;
  address_bytes = two_addresses;
  is_empty = λ a. false;
  raw_address_from_locking_script = λ s. ok true;
  deserialize = action;
  address_bytes-byte = two_addresses-byte;
  address_bytes-injective = two_addresses-injective;
}
