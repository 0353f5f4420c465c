-- ===== src/Prelude/Equality.antt =====
-- The `==` of the program's comparable types: a Boolean test that decides equality. Texts and
-- numbers have one, and a parameter that stands for a comparable type comes with one.
use Prim.Native.Nat.{ℕ}
use Prim.Native.String.{String}
use mathlib.Core.Path.{◌≡◌, refl}
use mathlib.Core.Logic.{◌↔◌}
use mathlib.Core.Bool.{Bool, true}
use text.Mathlib.Text
use text.Mathlib.TextEquality
use identity_oracle.Prelude.Tests

pub record Comparable {ℓ} (A : Type ℓ) : Type ℓ where
  pub same : A → A → Bool
  pub same_iff : (a b : A) → (same a b ≡ true) ↔ (a ≡ b)

infix 50 ◌==◌
abbrev pub ◌==◌ {ℓ} : {A : Type ℓ} ⦃c : Comparable A⦄ → A → A → Bool
◌==◌ ⦃c⦄ a b = c.same a b

instance abbrev pub string_comparable : Comparable String
string_comparable = record { same = Text.◌==◌; same_iff = TextEquality.eq_iff }

instance abbrev pub nat_comparable : Comparable ℕ
nat_comparable = record { same = Tests.◌==◌; same_iff = Tests.==_iff }

pub ==-refl {ℓ} : {A : Type ℓ} ⦃c : Comparable A⦄ (a : A) → (a == a) ≡ true
==-refl ⦃c⦄ a = (c.same_iff a a).1 refl
