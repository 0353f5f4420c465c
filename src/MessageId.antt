-- ===== src/MessageId.antt =====
-- internal/oracle/listener.go, `SaveNextMessageID` and `GetNextMessageID`: the id of the next
-- message of the node, kept in storage as a version byte and a little-endian uint64.
-- `encoding/binary` is written out on byte lists.
pub mod Laws
pub mod Tests
use identity_oracle.Prelude.{
  ℕ, zero, suc, ◌+◌, ◌*◌, ◌/◌, ◌%◌, Bool, Option, none, some, List, [], ◌∷◌, if◌then◌else◌, not,
  String,
}
use identity_oracle.Prelude.Equality.{◌==◌, nat_comparable}
use identity_oracle.Errors.{Outcome, ok, err, panic, ◌>>=◌, literal, ErrorsPkg, cause_kind}
use identity_oracle.Storage.{Bytes, codes, ObjectStore, is_db_not_found, put, fetch}

abbrev pub chainstate_storage_key : Bytes
chainstate_storage_key = codes "chainstate"

abbrev pub chainstate_version : ℕ
chainstate_version = 0

-- `binary.Write` of a value of `n` bytes, in little-endian order.
unfoldable pub write_bytes : ℕ → ℕ → Bytes
write_bytes zero v = []
write_bytes (suc n) v = v % 256 ∷ write_bytes n (v / 256)

-- `binary.Read` of a value of `n` bytes: the value and what is left, or none at the end of the input.
unfoldable pub read_bytes : ℕ → Bytes → Option (ℕ × Bytes)
read_bytes zero bs = some (0, bs)
read_bytes (suc n) [] = none
read_bytes (suc n) (b ∷ bs) = elim (read_bytes n bs) [
  | none ↦ none
  | some (v, rest) ↦ some (b + 256 * v, rest)
]

-- What is saved for an id.
abbrev pub message_id_bytes : ℕ → Bytes
message_id_bytes n = chainstate_version ∷ write_bytes 8 n

module _ (P : ErrorsPkg) (O : ObjectStore P.Error) where
  open P use {Error, plain, wrap}
  open O use {Contents}

  -- `binary.Read` of `n` bytes, its error wrapped.
  read_value : ℕ → Bytes → String → Outcome Error (ℕ × Bytes)
  unfolding read_bytes
  read_value n bs what = elim (read_bytes n bs) [
    | none ↦ err (wrap (plain (literal "EOF")) what)
    | some r ↦ ok r
  ]

  unfoldable pub decode_message_id : Bytes → Outcome Error ℕ
  unfolding read_value
  decode_message_id bs = do
    (version, rest) ← read_value 1 bs "version"
    if not (version == 0)
        then err (plain (literal "Wrong version"))
        else do (result, end) ← read_value 8 rest "next message id"; ok result

  unfoldable pub get_next_message_id : Option Contents → Outcome Error ℕ
  get_next_message_id st = elim (fetch P O chainstate_storage_key st) [
    | ok b ↦ decode_message_id b
    | err e ↦ if is_db_not_found (cause_kind P e) then ok 1 else err (wrap e "fetch")
    | panic ↦ panic
  ]

  unfoldable pub save_next_message_id : ℕ → Option Contents → Outcome Error (Option Contents)
  unfolding write_bytes
  save_next_message_id next_message_id st =
      elim (put P O chainstate_storage_key (message_id_bytes next_message_id) st) [
        | ok st' ↦ ok st'
        | err e ↦ err (wrap e "put")
        | panic ↦ panic
      ]
