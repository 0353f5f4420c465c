-- ===== src/Logging/Addresses.antt =====
-- The address of the client in a list of hops.
use identity_oracle.Prelude.{
  ℕ, ◌≡◌, ◌≢◌, refl, ◌∙◌, ap, inl, inr, ◌++◌, true, false, List, [], ◌∷◌, All, length, ltb, arith,
  Bool-cases, length-append,
}
use identity_oracle.Prelude.Equality.{◌==◌, nat_comparable}
use identity_oracle.Errors.{ok}
use identity_oracle.Storage.{Bytes}
use identity_oracle.Logging.{remove_spaces, split_commas, push, get_remote_address}

-- Neither a space nor a comma.
abbrev pub IsPlain : ℕ → Type 0
IsPlain c = (c ≢ 32) × (c ≢ 44)

remove_spaces-append :
    (xs ys : Bytes) → All IsPlain xs → remove_spaces (xs ++ ys) ≡ xs ++ remove_spaces ys
unfolding remove_spaces
remove_spaces-append [] ys p = refl
remove_spaces-append (x ∷ xs) ys p = ground (arith, remove_spaces-append xs ys p.1)

-- Splitting never gives an empty list, and a plain part in front stays in one piece.
split_commas-cases :
    (cs : Bytes) → (part : Bytes) × ((parts : List Bytes) × (split_commas cs ≡ part ∷ parts))
unfolding split_commas
split_commas-cases [] = ([], ([], refl))
split_commas-cases (c ∷ cs) =
    let (part, (parts, q)) = split_commas-cases cs in
    elim (Bool-cases (c == 44)) [
      | inl y ↦ ([], (part ∷ parts, ground arith))
      | inr n ↦ (c ∷ part, (parts, rw (n, split_commas) (ap (push c) q)))
    ]

split_commas-plain :
    (xs ys : Bytes) (parts : List Bytes)
    → All IsPlain xs
    → split_commas ys ≡ [] ∷ parts
    → split_commas (xs ++ ys) ≡ xs ∷ parts
unfolding split_commas
split_commas-plain [] ys parts p q = q
split_commas-plain (x ∷ xs) ys parts p q =
    let rest = split_commas-plain xs ys parts p.1 q in
    let other : (x == 44) ≡ false = ground (arith, p.0) in
    rw (other, split_commas) (ap (push x) rest)

cut :
    (client others : Bytes)
    → All IsPlain client
    → split_commas (remove_spaces (client ++ 44 ∷ others))
      ≡ client ∷ split_commas (remove_spaces others)
unfolding remove_spaces split_commas
cut client others p =
    ap split_commas (remove_spaces-append client (44 ∷ others) p)
    ∙ split_commas-plain client (44 ∷ remove_spaces others) (split_commas (remove_spaces others)) p
        refl

-- With a list of hops in the header, the logged address is the first of them, whatever follows it
-- behind a comma, if it has no space and no comma.
pub get_remote_address-client :
    {E : Type 0} (client others remote_address : Bytes)
    → All IsPlain client
    → get_remote_address {E = E} (client ++ 44 ∷ others) remote_address ≡ ok client
unfolding get_remote_address
get_remote_address-client client others remote_address p =
    let some_bytes : ltb 0 (length (client ++ 44 ∷ others)) ≡ true =
      ground (arith, length-append client (44 ∷ others)) in
    rw (some_bytes, get_remote_address) (rw (cut client others p) refl)

-- An address is always found.
pub get_remote_address-total :
    {E : Type 0} (forwarded_for remote_address : Bytes)
    → (address : Bytes) × (get_remote_address {E = E} forwarded_for remote_address ≡ ok address)
unfolding get_remote_address
get_remote_address-total forwarded_for remote_address =
    elim (Bool-cases (ltb 0 (length forwarded_for))) [
      | inl y ↦
          let (part, (parts, q)) = split_commas-cases (remove_spaces forwarded_for) in
          (part, rw (y, get_remote_address) (rw q refl))
      | inr n ↦ (remote_address, rw (n, get_remote_address) refl)
    ]
