-- ===== src/Prelude/Keys.antt =====
-- Byte lists as keys: their `==`.
use identity_oracle.Prelude.Tests.{◌==◌}
use identity_oracle.Prelude.Equality.{Comparable}
use Prim.Native.Nat.{ℕ}
use mathlib.Core.Path.{◌≡◌, refl}
use mathlib.Core.Logic.{◌↔◌}
use mathlib.Core.Bool.{Bool, true, false, ◌&&◌}
use mathlib.Core.List.{List, [], ◌∷◌}
use native.Mathlib.Omega.{arith}

abbrev pub same_key : List ℕ → List ℕ → Bool
same_key [] [] = true
same_key (a ∷ as') (b ∷ bs) = (a == b) && same_key as' bs
same_key _ _ = false

pub same_key_iff : (a b : List ℕ) → (same_key a b ≡ true) ↔ (a ≡ b)
same_key_iff [] [] = (λ h. refl, λ h. refl)
same_key_iff [] (b ∷ bs) = (λ h. cc, λ h. cc)
same_key_iff (a ∷ xs) [] = (λ h. cc, λ h. cc)
same_key_iff (a ∷ xs) (b ∷ ys) =
    (λ h. ground (arith, same_key_iff xs ys), λ h. ground (arith, same_key_iff xs ys))

instance abbrev pub bytes_comparable : Comparable (List ℕ)
bytes_comparable = record { same = same_key; same_iff = same_key_iff }
