-- ===== src/Handlers/Messages.antt =====
-- What the signature of a request of handlers/oracle.go to add keys is over.
use identity_oracle.Prelude.Int.{ℤ, pos, negsuc, is_int32, to_uint32}
use identity_oracle.Prelude.{
  true, ℕ, suc, ◌≡◌, refl, ◌∙◌, ap, sym, ◌↔◌, ◌++◌, List, [], ◌∷◌, arith, length, length-append,
  some, ◌^◌, ◌<◌, ◌/◌, zero, Option,
}
use identity_oracle.Errors.{ErrorsPkg}
use identity_oracle.Storage.{Bytes}
use identity_oracle.Database.{Driver}
use identity_oracle.MessageId.{write_bytes, read_bytes}
use identity_oracle.MessageId.Laws.{read_bytes-write_bytes}
use identity_oracle.Signing.{Crypto}
use identity_oracle.Handlers.{Services, Approver, PayloadOf}
use identity_oracle.Handlers.Oracle.{AddXPubRequest, xpub_message}

append-injective :
    {A : Type 0} (xs us ys vs : List A)
    → length xs ≡ length us
    → xs ++ ys ≡ us ++ vs
    → (xs ≡ us) × (ys ≡ vs)
append-injective [] [] ys vs l e = (refl, e)
append-injective [] (u ∷ us) ys vs l e = absurd (omega (arith, l))
append-injective (x ∷ xs) [] ys vs l e = absurd (omega (arith, l))
append-injective (x ∷ xs) (u ∷ us) ys vs l e =
    let tails : xs ++ ys ≡ us ++ vs = cc in
    let (same, rest) = append-injective xs us ys vs (omega (arith, l)) tails in (cc, rest)

length-write_bytes : (n v : ℕ) → length (write_bytes n v) ≡ n
unfolding write_bytes
length-write_bytes zero v = refl
length-write_bytes (suc n) v = omega (arith, length-write_bytes n (v / 256))

write_bytes-injective :
    (n v w : ℕ) → v < 256 ^ n → w < 256 ^ n → write_bytes n v ≡ write_bytes n w → v ≡ w
write_bytes-injective n v w h k e =
    let read = read_bytes-write_bytes n v [] h in
    let again = read_bytes-write_bytes n w [] k in
    let same : ◌≡◌ {A = Option (ℕ × Bytes)} (some (v, [])) (some (w, [])) =
      sym read ∙ ap (λ bs. read_bytes n (bs ++ [])) e ∙ again in
    cc

to_uint32-injective :
    (k l : ℤ) → is_int32 k ≡ true → is_int32 l ≡ true → to_uint32 k ≡ to_uint32 l → k ≡ l
to_uint32-injective (pos m) (pos n) a b e = ap pos (ground (arith, e))
to_uint32-injective (pos m) (negsuc n) a b e = absurd (ground (arith, e))
to_uint32-injective (negsuc m) (pos n) a b e = absurd (ground (arith, e))
to_uint32-injective (negsuc m) (negsuc n) a b e = ap negsuc (ground (arith, e))

to_uint32-lt : (k : ℤ) → to_uint32 k < 256 ^ 4
to_uint32-lt (pos n) = omega arith
to_uint32-lt (negsuc n) = omega arith

module _ (P : ErrorsPkg) (C : Crypto P.Error) (S : Services P.Error C) (D : Driver P.Error)
    (encode_error : PayloadOf C S → Option P.Error)
    (approver : Option (Approver P.Error C.PublicKey)) where
  open C use {ExtendedKey, keys_bytes}
  open S use {Signature}

  -- Two requests to add keys, whose numbers of signers fit their column, are signed over the same bytes
  -- exactly if they are for the same user, with keys that have the same bytes, and with the same number
  -- of signers. A user's id is as long as any other.
  pub xpub_message-injective :
      (id id' : Bytes) (r s : AddXPubRequest ExtendedKey Signature)
      → length id ≡ length id'
      → is_int32 r.required_signers ≡ true
      → is_int32 s.required_signers ≡ true
      → (xpub_message P C S D encode_error approver id r
          ≡ xpub_message P C S D encode_error approver id' s)
        ↔ ((id ≡ id')
            × (keys_bytes r.xpubs ≡ keys_bytes s.xpubs)
            × (r.required_signers ≡ s.required_signers))
  xpub_message-injective id id' r s l i j = (split, λ (a, b, c). rw (a, b, c) refl)
    where
      split :
          (id ++ keys_bytes r.xpubs) ++ write_bytes 4 (to_uint32 r.required_signers)
            ≡ (id' ++ keys_bytes s.xpubs) ++ write_bytes 4 (to_uint32 s.required_signers)
          → (id ≡ id')
            × (keys_bytes r.xpubs ≡ keys_bytes s.xpubs)
            × (r.required_signers ≡ s.required_signers)
      split e =
          let m = id ++ keys_bytes r.xpubs in
          let m' = id' ++ keys_bytes s.xpubs in
          let n = to_uint32 r.required_signers in
          let n' = to_uint32 s.required_signers in
          let long : length m ≡ length m' = omega (
            arith,
            ap length e,
            length-append m (write_bytes 4 n),
            length-append m' (write_bytes 4 n'),
            length-write_bytes 4 n,
            length-write_bytes 4 n',
          ) in
          let (front, back) = append-injective m m' (write_bytes 4 n) (write_bytes 4 n') long e in
          let (same, keys) =
            append-injective id id' (keys_bytes r.xpubs) (keys_bytes s.xpubs) l front in
          let signers : n ≡ n' =
            write_bytes-injective 4 n n' (to_uint32-lt r.required_signers)
              (to_uint32-lt s.required_signers) back in
          (same, keys, to_uint32-injective r.required_signers s.required_signers i j signers)
