-- ===== src/Entity/Checks.antt =====
-- What each check of entity.go decides.
use native.Mathlib.Nat.{add-zero}
use text.Mathlib.TextEquality.{eq_iff}
use identity_oracle.Prelude.{
  ℕ, suc, String, ◌≡◌, refl, ◌∙◌, ◌+◌, ◌++◌, length, ap, ◌≢◌, ◌↔◌, ◌⊎◌, inl, inr, Bool, true, false,
  Option, none, some, List, [], ◌∷◌, All, arith, Bool-cases,
}
use identity_oracle.Errors.{Outcome, ok, err, panic, ◌>>◌, Text, numbered}
use identity_oracle.Entity.{administrator_is_in_list, manager_is_in_list, check_field, check_list}
use identity_oracle.Entity.Subset.{Matches, left_out, same, Among, NoNil}

-- A chain of checks passes exactly if each one passes.
pub both :
    {E P Q : Type 0} (m k : Outcome E (Unit {0}))
    → (m ≡ ok tt) ↔ P
    → (k ≡ ok tt) ↔ Q
    → ((m >> k) ≡ ok tt) ↔ (P × Q)
both (ok u) k p q = (λ h. (p.0 refl, q.0 h), λ s. q.1 s.1)
both (err e) k p q = (λ h. cc, λ s. cc (p.1 s.0))
both panic k p q = (λ h. cc, λ s. cc (p.1 s.0))

pub check_field-Matches : (a b t : String) → (check_field a b t ≡ ok tt) ↔ Matches a b
unfolding check_field
check_field-Matches a b t = (forth, back)
  where
    forth : check_field a b t ≡ ok tt → Matches a b
    forth h = elim (Bool-cases (text.Mathlib.Text.◌==◌ a "")) [
      | inl e ↦ left_out ((eq_iff a "").0 e)
      | inr n ↦ same (ground (arith, eq_iff a b))
    ]

    back : Matches a b → check_field a b t ≡ ok tt
    back (left_out e) = ground (arith, eq_iff a "")
    back (same e) = ground (arith, eq_iff a b)

-- A list test decides membership, on lists with no nil pointer.
pub data Decided (r : Outcome Text Bool) (P : Type 0) : Type 0 where
  found : r ≡ ok true → P → Decided r P
  missing : r ≡ ok false → ¬ P → Decided r P

abbrev pub Decides : {A : Type 0} → (Option A → List (Option A) → Outcome Text Bool) → Type 0
Decides {A} test =
    (x : Option A) (xs : List (Option A)) → x ≢ none → NoNil xs → Decided (test x xs) (Among x xs)

Decided-cons :
    {A : Type 0} {x y : Option A} (xs : List (Option A)) {r s : Outcome Text Bool}
    → ((r ≡ ok true) × (x ≡ y)) ⊎ ((r ≡ s) × (x ≢ y))
    → Decided s (Among x xs)
    → Decided r (Among x (y ∷ xs))
Decided-cons xs (inl (e, p)) d = found e (inl p)
Decided-cons xs (inr (e, n)) (found f m) = found (e ∙ f) (inr m)
Decided-cons xs (inr (e, n)) (missing f m) =
    missing (e ∙ f) (λ h. elim h [ inl p ↦ n p | inr k ↦ m k ])

pub administrator-Decides : Decides administrator_is_in_list
unfolding administrator_is_in_list
administrator-Decides x [] n ns = missing refl (λ h. h)
administrator-Decides none (y ∷ xs) n ns = absurd (n refl)
administrator-Decides (some a) (none ∷ xs) n ns = absurd (ns.0 refl)
administrator-Decides (some a) (some b ∷ xs) n ns =
    Decided-cons xs (ground (arith, eq_iff a.name b.name))
      (administrator-Decides (some a) xs n ns.1)

pub manager-Decides : Decides manager_is_in_list
unfolding manager_is_in_list
manager-Decides x [] n ns = missing refl (λ h. h)
manager-Decides none (y ∷ xs) n ns = absurd (n refl)
manager-Decides (some a) (none ∷ xs) n ns = absurd (ns.0 refl)
manager-Decides (some a) (some b ∷ xs) n ns =
    Decided-cons xs (ground (arith, eq_iff a.name b.name)) (manager-Decides (some a) xs n ns.1)

-- The loop over a list passes exactly if every element is among the full list.
pub check_list-All :
    {A : Type 0} (test : Option A → List (Option A) → Outcome Text Bool)
    → Decides test
    → (w : String) (i : ℕ) (sub full : List (Option A)) → NoNil sub
    → NoNil full
    → (check_list test w i sub full ≡ ok tt) ↔ All (λ x. Among x full) sub
unfolding check_list
check_list-All test d w i [] full ns nf = (λ h. tt, λ h. refl)
check_list-All test d w i (x ∷ sub) full ns nf = elim (d x full ns.0 nf) [
  | found e m ↦ rw e (
    λ h. (m, (check_list-All test d w (suc i) sub full ns.1 nf).0 h),
    λ h. (check_list-All test d w (suc i) sub full ns.1 nf).1 h.1,
  )
  | missing e m ↦ rw e (λ h. cc, λ h. absurd (m h.0))
]

-- A chain of checks that do not panic does not panic.
pub total :
    {E A : Type 0} (m : Outcome E (Unit {0})) (k : Outcome E A)
    → m ≢ panic
    → k ≢ panic
    → (m >> k) ≢ panic
total (ok u) k p q = q
total (err e) k p q = cc
total panic k p q = absurd (p refl)

pub check_field-total : (a b t : String) → check_field a b t ≢ panic
unfolding check_field
check_field-total a b t = ground arith

module _ {A : Type 0} (test : Option A → List (Option A) → Outcome Text Bool) (d : Decides test)
    (w : String) (full : List (Option A)) (nf : NoNil full) where
  pub check_list-total :
      (i : ℕ) (sub : List (Option A)) → NoNil sub → check_list test w i sub full ≢ panic
  unfolding check_list
  check_list-total i [] ns = cc
  check_list-total i (x ∷ sub) ns = elim (d x full ns.0 nf) [
    | found e m ↦ rw e (check_list-total (suc i) sub ns.1)
    | missing e m ↦ rw e (cc)
  ]

  pub check_list-missing :
      (i : ℕ) (before after : List (Option A)) (x : Option A)
      → NoNil (before ++ x ∷ after)
      → All (λ y. Among y full) before
      → ¬ Among x full
      → check_list test w i (before ++ x ∷ after) full ≡ err (numbered w (i + length before))
  unfolding check_list
  check_list-missing i [] after x ns h n = elim (d x full ns.0 nf) [
    | found e m ↦ absurd (n m)
    | missing e m ↦ rw e (rw add-zero refl)
  ]
  check_list-missing i (y ∷ before) after x ns h n = elim (d y full ns.0 nf) [
    | found e m ↦ rw e (
        check_list-missing (suc i) before after x ns.1 h.1 n
        ∙ ap (λ k. err (numbered w k)) (omega arith))
    | missing e m ↦ absurd (m h.0)
  ]
