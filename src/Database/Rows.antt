-- ===== src/Database/Rows.antt =====
-- Selecting rows, and what `Get` returns of them.
use identity_oracle.Prelude.{
  ◌≡◌, refl, ap, ◌⊎◌, inl, inr, Bool, true, false, none, some, List, [], ◌∷◌, ◌++◌, All, arith,
  Bool-cases, Option-cases,
}
use identity_oracle.Errors.{Outcome, ok, ErrorsPkg}
use identity_oracle.Entity.Subset.{Among}
use identity_oracle.Database.{Statement, Driver, rows_where, row_exists, get, execute}

module _ {A : Type 0} (p : A → Bool) where
  pub Among-rows_where :
      (a : A) (rows : List A) → Among a (rows_where p rows) → Among a rows × (p a ≡ true)
  unfolding rows_where
  Among-rows_where a [] m = absurd m
  Among-rows_where a (b ∷ rows) m = elim (Bool-cases (p b)) [
    | inl y ↦
        let m' : (a ≡ b) ⊎ Among a (rows_where p rows) = rw (y, rows_where) at m in
        elim m' [
          | inl e ↦ (inl e, rw e y)
          | inr k ↦ let (k', q) = Among-rows_where a rows k in (inr k', q)
        ]
    | inr n ↦ let (k, q) = Among-rows_where a rows (rw (n, rows_where) at m) in (inr k, q)
  ]

  pub rows_where-append :
      (xs ys : List A) → rows_where p (xs ++ ys) ≡ rows_where p xs ++ rows_where p ys
  unfolding rows_where
  rows_where-append [] ys = refl
  rows_where-append (x ∷ xs) ys = ground (arith, rows_where-append xs ys)

  pub rows_where-none : (rows : List A) → All (λ a. p a ≡ false) rows → rows_where p rows ≡ []
  unfolding rows_where
  rows_where-none [] h = refl
  rows_where-none (a ∷ rows) h = ground (arith, rows_where-none rows h.1)

  pub row_exists-false : (rows : List A) → row_exists p rows ≡ false → All (λ a. p a ≡ false) rows
  unfolding row_exists
  row_exists-false [] e = tt
  row_exists-false (a ∷ rows) e = (ground arith, row_exists-false rows (ground arith))

  pub row_exists-true :
      (rows : List A) → row_exists p rows ≡ true → (a : A) × Among a rows × (p a ≡ true)
  unfolding row_exists
  row_exists-true [] e = absurd (cc)
  row_exists-true (a ∷ rows) e = elim (Bool-cases (p a)) [
    | inl y ↦ (a, inl refl, y)
    | inr n ↦ let (b, m, q) = row_exists-true rows (ground arith) in (b, inr m, q)
  ]

module _ (P : ErrorsPkg) (D : Driver P.Error) {A : Type 0} (s : Statement) where
  open D use {fault, pick, pick-Among, pick-none}

  -- What a query returns is one of its rows.
  pub get-Among : (rows : List A) (a : A) → get P D s rows ≡ ok a → Among a rows
  unfolding get
  get-Among rows a g = pick-Among A rows a (ground arith)

  -- A query with one row returns it.
  pub get-one : (a : A) → fault s ≡ none → get P D s (a ∷ []) ≡ ok a
  unfolding get
  get-one a f = elim (Option-cases (pick A (a ∷ []))) [
    | inl z ↦ absurd (nonempty (pick-none A (a ∷ []) z))
    | inr (b, q) ↦ only b q (pick-Among A (a ∷ []) b q)
  ]
    where
      nonempty : ¬ (a ∷ [] ≡ [])
      nonempty e = cc

      only : (b : A) → pick A (a ∷ []) ≡ some b → (b ≡ a) ⊎ ⊥ → get P D s (a ∷ []) ≡ ok a
      only b q (inl e) = rw (f, q, get) (ap ok e)
      only b q (inr no_row) = absurd no_row

-- A statement that is executed with success has done what it does.
pub execute-ok :
    (P : ErrorsPkg) (D : Driver P.Error) (s : Statement) {B : Type 0} (r : Outcome P.Error B)
    (b : B)
    → execute P D s r ≡ ok b
    → r ≡ ok b
unfolding execute
execute-ok P D s r b e = ground arith

pub All-Among :
    {A : Type 0} (Q : A → Type 0) (rows : List A) (a : A) → All Q rows → Among a rows → Q a
All-Among Q [] a h m = absurd m
All-Among Q (b ∷ rows) a h (inl e) = rw e h.0
All-Among Q (b ∷ rows) a h (inr m) = All-Among Q rows a h.1 m

pub Among-append :
    {A : Type 0} (xs ys : List A) (a : A) → Among a (xs ++ ys) → Among a xs ⊎ Among a ys
Among-append [] ys a m = inr m
Among-append (x ∷ xs) ys a (inl e) = inl (inl e)
Among-append (x ∷ xs) ys a (inr m) = elim (Among-append xs ys a m) [
  | inl k ↦ inl (inr k)
  | inr k ↦ inr k
]
