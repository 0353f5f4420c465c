-- ===== src/Handlers/Steps.antt =====
-- What steps that went through say of their calls, and what a handler leaves of the tables.
use identity_oracle.Prelude.{
  ℕ, String, ◌≡◌, refl, ◌⊎◌, inl, inr, Bool, true, false, Option, none, some, List, [], ◌∷◌, All,
  arith,
}
use identity_oracle.Errors.{Outcome, ok, err, panic, ◌>>=◌, Outcome-cases, Text, ErrorsPkg}
use identity_oracle.Errors.Inversion.{bind-ok}
use identity_oracle.Signing.{Crypto}
use identity_oracle.Web.{Body, World}
use identity_oracle.Handlers.{
  Services, Approver, Exit, failed, refused, silent, call, conclude, check_public, permit,
}

module _ (P : ErrorsPkg) {D : Type 0} where
  open P use {Error}

  called :
      {A : Type 0} (text : String) (m : Outcome Error A) (a : A)
      → ◌≡◌ {A = Outcome (Exit Error D) A} (call P text m) (ok a)
      → m ≡ ok a
  called text (ok b) a e = cc
  called text (err x) a e = cc
  called text panic a e = cc

  -- A call that went through, and what follows it.
  pub call-ok :
      {A B : Type 0} (text : String) (m : Outcome Error A) (f : A → Outcome (Exit Error D) B)
      (b : B)
      → (call P text m >>= f) ≡ ok b
      → (a : A) × (m ≡ ok a) × (f a ≡ ok b)
  call-ok text m f b e = let (a, q, r) = bind-ok (call P text m) f b e in (a, called text m a q, r)

  -- A handler leaves the tables as they were, unless its steps went through, and then as these say.
  pub conclude-tables :
      {T : Type 0} (encode_error : D → Option Error) (w : World T D)
      (m : Outcome (Exit Error D) (T × (Body D × ℕ)))
      → ((conclude P encode_error w m).1.tables ≡ w.tables)
        ⊎ ((t : T) × (answer : Body D × ℕ) × (m ≡ ok (t, answer))
            × ((conclude P encode_error w m).1.tables ≡ t))
  unfolding conclude
  conclude-tables encode_error w (ok (t, (body, code))) = inr (t, (body, code), refl, refl)
  conclude-tables encode_error w (err (failed e)) = inl refl
  conclude-tables encode_error w (err (refused body code)) = inl refl
  conclude-tables encode_error w (err silent) = inl refl
  conclude-tables encode_error w panic = inl refl

-- There is no approver, or it said yes to the question.
pub data Permitted {E K : Type 0} (approver : Option (Approver E K))
    (question : Approver E K → Outcome E (Bool × Text)) : Type 0 where
  no_approver : approver ≡ none → Permitted approver question
  agreed :
      (a : Approver E K) (description : Text)
      → approver ≡ some a
      → question a ≡ ok (true, description)
      → Permitted approver question

module _ (P : ErrorsPkg) (C : Crypto P.Error) (S : Services P.Error C) where
  open P use {Error}

  pub permit-ok :
      (text : String) (answer : Outcome Error (Bool × Text))
      → permit P C S text answer ≡ ok tt
      → (d : Text) × (answer ≡ ok (true, d))
  unfolding permit
  permit-ok text answer e = elim (Outcome-cases answer) [
    | inl ((true, d), q) ↦ (d, q)
    | inl ((false, d), q) ↦ absurd (ground arith)
    | inr (inl (x, q)) ↦ absurd (ground arith)
    | inr (inr q) ↦ absurd (ground arith)
  ]

  pub check_public-ok :
      (xpubs : List C.ExtendedKey)
      → check_public P C S xpubs ≡ ok tt
      → All (λ k. S.is_private k ≡ false) xpubs
  unfolding check_public
  check_public-ok [] e = tt
  check_public-ok (k ∷ xpubs) e = (ground arith, check_public-ok xpubs (ground arith))
