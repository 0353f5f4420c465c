-- ===== src/Formations.antt =====
-- internal/oracle/listener.go, the contract formations: `HandleTx` keeps the latest formation of
-- each contract address in storage, and `GetContractFormation` reads it back. The packages
-- bitcoin and protocol are the parameter `Protocol`; hex encoding is written out.
pub mod Keys
pub mod Saving
pub mod Transactions
pub mod Tests
use identity_oracle.Prelude.{
  ℕ, suc, ◌+◌, ◌/◌, ◌%◌, ◌<◌, ◌≡◌, ltb, Bool, Option, none, some, List, [], ◌∷◌, ◌++◌, All,
  if◌then◌else◌, ◌||◌,
}
use identity_oracle.Errors.{Outcome, ok, err, panic, ◌>>=◌, literal, ErrorsPkg, cause_kind}
use identity_oracle.Entity.{EntityField}
use identity_oracle.Storage.{Bytes, codes, ObjectStore, is_db_not_found, put, after_put, fetch}

-- `actions.ContractFormation`, as far as the program reads it. The issuer is a pointer.
pub record ContractFormation : Type 0 where
  pub timestamp : ℕ
  pub issuer : Option EntityField

-- What `protocol.Deserialize` finds in a script.
pub data Action : Type 0 where
  contract_formation : ContractFormation → Action
  other_action : Action

-- Addresses and the decoding of scripts. Two addresses with the same bytes are the same.
pub record Protocol (Error : Type 0) : Type 1 where
  pub RawAddress : Type 0
  pub address_bytes : RawAddress → Bytes
  pub is_empty : RawAddress → Bool
  pub raw_address_from_locking_script : Bytes → Outcome Error RawAddress
  pub deserialize : Bytes → Bool → Outcome Error Action
  pub address_bytes-byte : (ra : RawAddress) → All (λ b. b < 256) (address_bytes ra)
  pub address_bytes-injective : (ra rb : RawAddress) → address_bytes ra ≡ address_bytes rb → ra ≡ rb

abbrev pub contracts_storage_key : Bytes
contracts_storage_key = codes "contract_formations"

abbrev pub hex_digit : ℕ → ℕ
hex_digit n = if ltb n 10 then 48 + n else 87 + n

-- `hex.EncodeToString`
unfoldable pub hex : Bytes → Bytes
hex [] = []
hex (b ∷ bs) = hex_digit (b / 16) ∷ hex_digit (b % 16) ∷ hex bs

-- `strings.Join([]string{a, b}, "/")`
abbrev pub join_path : Bytes → Bytes → Bytes
join_path a b = a ++ codes "/" ++ b

module _ (P : ErrorsPkg) (O : ObjectStore P.Error) (B : Protocol P.Error) (is_test : Bool) where
  open P use {Error, plain, wrap}
  open O use {Contents}
  open B use {RawAddress, address_bytes, is_empty, raw_address_from_locking_script, deserialize}

  unfoldable pub formation_key : RawAddress → Bytes
  unfolding hex
  formation_key ra = join_path contracts_storage_key (hex (address_bytes ra))

  formation_of : Action → Outcome Error ContractFormation
  formation_of (contract_formation f) = ok f
  formation_of other_action = err (plain (literal "Not contract formation"))

  -- `return x, errors.Wrap(err, text)` where the call failed.
  abbrev wrapped : {A : Type 0} → Prim.Native.String.String → Outcome Error A → Outcome Error A
  wrapped text (ok a) = ok a
  wrapped text (err e) = err (wrap e text)
  wrapped text panic = panic

  unfoldable pub get_contract_formation :
      RawAddress → Option Contents → Outcome Error ContractFormation
  unfolding formation_of
  get_contract_formation ra st = do
    b ← wrapped "fetch contract formation" (fetch P O (formation_key ra) st)
    action ← wrapped "deserialize contract formation" (deserialize b is_test)
    formation_of action

  unfoldable pub write_formation :
      RawAddress → Bytes → Option Contents → Outcome Error (Option Contents)
  write_formation ra script st =
      wrapped "write contract formation" (put P O (formation_key ra) script st)

  -- With a formation already stored as `b`: keep it if it is later, overwrite it otherwise, also if
  -- it cannot be read as a formation.
  unfoldable pub replace_formation :
      RawAddress
      → ContractFormation
      → Bytes
      → Outcome Error Action
      → Option Contents
      → Outcome Error (Option Contents)
  unfolding write_formation
  replace_formation ra formation script (ok (contract_formation current)) st =
      if ltb formation.timestamp current.timestamp then ok st else write_formation ra script st
  replace_formation ra formation script (ok other_action) st = write_formation ra script st
  replace_formation ra formation script (err e) st = write_formation ra script st
  replace_formation ra formation script panic st = panic

  unfoldable pub save_contract_formation :
      RawAddress → ContractFormation → Bytes → Option Contents → Outcome Error (Option Contents)
  unfolding replace_formation write_formation
  save_contract_formation ra formation script st = elim (fetch P O (formation_key ra) st) [
    | ok b ↦ replace_formation ra formation script (deserialize b is_test) st
    | err e ↦
        if is_db_not_found (cause_kind P e)
        then write_formation ra script st
        else err (wrap e "read contract formation")
    | panic ↦ panic
  ]

  -- What a save that fails leaves: it has tried to write, unless the read failed.
  unfoldable pub after_save : RawAddress → Bytes → Option Contents → Option Contents
  after_save ra script st = elim (fetch P O (formation_key ra) st) [
    | ok b ↦ after_put P O (formation_key ra) script st
    | err e ↦
        if is_db_not_found (cause_kind P e) then after_put P O (formation_key ra) script st else st
    | panic ↦ st
  ]

  -- One output of a transaction. An error of the save is logged.
  unfoldable pub handle_output :
      RawAddress → Bytes → Option Contents → Outcome Error (Option Contents)
  handle_output ra script st = elim (deserialize script is_test) [
    | ok (contract_formation formation) ↦ elim (save_contract_formation ra formation script st) [
      | ok st' ↦ ok st'
      | err e ↦ ok (after_save ra script st)
      | panic ↦ panic
    ]
    | ok other_action ↦ ok st
    | err e ↦ ok st
    | panic ↦ panic
  ]

  unfoldable pub handle_outputs :
      RawAddress → List Bytes → Option Contents → Outcome Error (Option Contents)
  unfolding handle_output
  handle_outputs ra [] st = ok st
  handle_outputs ra (script ∷ scripts) st = do
    st' ← handle_output ra script st
    handle_outputs ra scripts st'

  -- `outputs` are the scripts of the outputs that the inputs spend, `tx_out` those of the
  -- transaction's own outputs.
  unfoldable pub handle_tx :
      List Bytes → List Bytes → Option Contents → Outcome Error (Option Contents)
  unfolding handle_outputs
  handle_tx [] tx_out st = ok st
  handle_tx (first ∷ outputs) tx_out st = elim (raw_address_from_locking_script first) [
    | ok ra ↦ if is_empty ra then ok st else handle_outputs ra tx_out st
    | err e ↦ ok st
    | panic ↦ panic
  ]
