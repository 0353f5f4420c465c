-- ===== src/Errors/Inversion.antt =====
-- What a sequence of calls that succeeded says of its parts.
use identity_oracle.Prelude.{◌≡◌, refl, String}
use identity_oracle.Errors.{Outcome, ok, err, panic, ◌>>=◌, ErrorsPkg, with_context}

pub bind-ok :
    {E A B : Type 0} (m : Outcome E A) (f : A → Outcome E B) (b : B)
    → (m >>= f) ≡ ok b
    → (a : A) × (m ≡ ok a) × (f a ≡ ok b)
bind-ok (ok a) f b e = (a, refl, e)
bind-ok (err x) f b e = cc
bind-ok panic f b e = cc

pub with_context-ok :
    (P : ErrorsPkg) {A : Type 0} (text : String) (m : Outcome P.Error A) (a : A)
    → with_context P text m ≡ ok a
    → m ≡ ok a
with_context-ok P text (ok b) a e = e
with_context-ok P text (err x) a e = cc
with_context-ok P text panic a e = cc

-- A call whose error is wrapped, and what follows it.
pub step-ok :
    (P : ErrorsPkg) {A B : Type 0} (text : String) (m : Outcome P.Error A)
    (f : A → Outcome P.Error B) (b : B)
    → (with_context P text m >>= f) ≡ ok b
    → (a : A) × (m ≡ ok a) × (f a ≡ ok b)
step-ok P text m f b e =
    let (a, q, r) = bind-ok (with_context P text m) f b e in (a, with_context-ok P text m a q, r)

pub ok-injective : {E A : Type 0} (a b : A) → ◌≡◌ {A = Outcome E A} (ok a) (ok b) → a ≡ b
ok-injective a b e = cc
