-- ===== src/MessageId/Laws.antt =====
-- The saved message id is read back.
use mathlib.Core.List.{append-nil}
use native.Mathlib.Nat.{pow-suc}
use identity_oracle.Prelude.{
  ℕ, zero, suc, ◌*◌, ◌/◌, ◌^◌, ◌<◌, ◌≡◌, refl, ap, Option, none, some, [], ◌∷◌, arith, length, ◌++◌,
  ◌≢◌,
}
use identity_oracle.Errors.{ok, ErrorsPkg}
use identity_oracle.Storage.{Bytes, ObjectStore, put, fetch}
use identity_oracle.Storage.Laws.{fetch-put_self}
use identity_oracle.MessageId.{
  chainstate_storage_key, chainstate_version, write_bytes, read_bytes, read_value,
  decode_message_id, get_next_message_id, save_next_message_id,
}

-- The bytes of a value that fits are read back as that value, and what follows them is left.
pub read_bytes-write_bytes :
    (n v : ℕ) (rest : Bytes) → v < 256 ^ n → read_bytes n (write_bytes n v ++ rest) ≡ some (v, rest)
unfolding read_bytes write_bytes
read_bytes-write_bytes zero v rest h = ap (λ (k : ℕ). some (k, rest)) (omega arith)
read_bytes-write_bytes (suc n) v rest h =
    let bound : v < 256 * 256 ^ n = omega (arith, pow-suc 256 n) in
    rw (read_bytes-write_bytes n (v / 256) rest (omega arith))
      (ap (λ (k : ℕ). some (k, rest)) (omega arith))

-- Too few bytes are an end of input.
pub read_bytes-short : (n : ℕ) (bs : Bytes) → length bs < n → read_bytes n bs ≡ none
unfolding read_bytes
read_bytes-short zero bs h = absurd (omega arith)
read_bytes-short (suc n) [] h = refl
read_bytes-short (suc n) (b ∷ bs) h = rw (read_bytes-short n bs (omega arith))

module _ (P : ErrorsPkg) (O : ObjectStore P.Error) where
  open P use {Error, wrap, plain}
  open O use {Contents}

  decode-write :
      (n : ℕ) → n < 2 ^ 64 → decode_message_id P O (chainstate_version ∷ write_bytes 8 n) ≡ ok n
  unfolding decode_message_id
  decode-write n h =
      let bare = rw append-nil at (read_bytes-write_bytes 8 n [] h) in rw (bare, read_value) refl

  -- An id below 2 ^ 64 that was saved is the next message id that is read.
  pub get-save_next_message_id :
      (n : ℕ) (st st' : Option Contents)
      → n < 2 ^ 64
      → save_next_message_id P O n st ≡ ok st'
      → get_next_message_id P O st' ≡ ok n
  unfolding save_next_message_id get_next_message_id
  get-save_next_message_id n st st' h s =
      let body : Bytes = chainstate_version ∷ write_bytes 8 n in
      let stored : put P O chainstate_storage_key body st ≡ ok st' = ground arith in
      rw (fetch-put_self P O chainstate_storage_key body st st' stored, get_next_message_id)
        (decode-write n h)

  decode-short : (body : Bytes) (n : ℕ) → length body < 9 → decode_message_id P O body ≢ ok n
  unfolding decode_message_id
  decode-short [] n h = cc
  decode-short (b ∷ bs) n h = ground (arith, read_bytes-short 8 bs (omega arith))

  -- A record that is cut short is refused, not read as some id.
  pub get_next_message_id-short :
      (body : Bytes) (st : Option Contents)
      → fetch P O chainstate_storage_key st ≡ ok body
      → length body < 9
      → (n : ℕ) → get_next_message_id P O st ≢ ok n
  unfolding get_next_message_id
  get_next_message_id-short body st f h n = rw (f, get_next_message_id) (decode-short body n h)
