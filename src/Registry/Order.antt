-- ===== src/Registry/Order.antt =====
-- PostgreSQL keeps no order of rows: tables with the same rows, which Registry/Commuting identifies.
use identity_oracle.Prelude.{◌++◌, ◌↔◌, inl, inr, List, [], ◌∷◌}
use identity_oracle.Prelude.Equality.{string_comparable}
use identity_oracle.Prelude.Keys.{bytes_comparable}
use identity_oracle.Entity.Subset.{Among}
use identity_oracle.Database.{Tables}

-- Two lists have the same rows.
abbrev pub SameRows : {A : Type 0} → List A → List A → Type 0
SameRows {A} xs ys = (a : A) → Among a xs ↔ Among a ys

module _ {A : Type 0} where
  pub Among-left : (xs ys : List A) (a : A) → Among a xs → Among a (xs ++ ys)
  Among-left [] ys a m = absurd m
  Among-left (x ∷ xs) ys a (inl e) = inl e
  Among-left (x ∷ xs) ys a (inr m) = inr (Among-left xs ys a m)

  pub Among-right : (xs ys : List A) (a : A) → Among a ys → Among a (xs ++ ys)
  Among-right [] ys a m = m
  Among-right (x ∷ xs) ys a m = inr (Among-right xs ys a m)

-- The same rows in both tables.
pub record SameTables {PublicKey : Type 0} (s t : Tables PublicKey) : Type 0 where
  pub users : SameRows s.users t.users
  pub xpubs : SameRows s.xpubs t.xpubs
