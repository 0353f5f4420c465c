-- ===== src/Registry/Commuting.antt =====
-- The stored state, with the order of rows forgotten, and registrations that come in either order.
use mathlib.Core.Quot
use mathlib.Core.Quot.{Quot, Quot-set}
use text.Mathlib.TextEquality.{eq_iff}
use identity_oracle.Prelude.{◌≡◌, refl, ◌∙◌, ap, ◌++◌, inl, inr, Bool, false, List, [], ◌∷◌, arith}
use identity_oracle.Prelude.Equality.{◌==◌, string_comparable}
use identity_oracle.Errors.{Outcome, ok, Outcome-cases, ErrorsPkg}
use identity_oracle.Entity.{EntityField}
use identity_oracle.Entity.Subset.{Among}
use identity_oracle.Storage.{Bytes}
use identity_oracle.Database.{User, Tables, Driver, row_exists}
use identity_oracle.Database.Rows.{Among-append}
use identity_oracle.Users.{create_user, insert_user_row}
use identity_oracle.Consistency.{IsConsistent}
use identity_oracle.Consistency.Preservation.{create_user-IsConsistent}
use identity_oracle.Consistency.Changes.{create_user-appends}
use identity_oracle.Registry.Order.{SameRows, SameRows, SameTables, Among-left, Among-right}

-- Consistent tables up to the order of their rows.
abbrev pub Stored : Type 0 → Type 0
Stored PublicKey = Quot {α = (t : Tables PublicKey) × IsConsistent t} (λ s t. SameTables s.0 t.0)

module _ {PublicKey : Type 0} where
  abbrev pub stored : (t : Tables PublicKey) → IsConsistent t → Stored PublicKey
  stored t c = Quot.mk (t, c)

module _ {A : Type 0} where
  row_exists-end :
      (p : A → Bool) (rows : List A) (a : A)
      → row_exists p (rows ++ a ∷ []) ≡ false
      → (row_exists p rows ≡ false) × (p a ≡ false)
  unfolding row_exists
  row_exists-end p [] a n = (refl, ground arith)
  row_exists-end p (b ∷ rows) a n =
      let (none_before, other) = row_exists-end p rows a (ground arith) in (ground arith, other)

  row_exists-join :
      (p : A → Bool) (rows : List A) (a : A)
      → row_exists p rows ≡ false
      → p a ≡ false
      → row_exists p (rows ++ a ∷ []) ≡ false
  unfolding row_exists
  row_exists-join p [] a n q = ground arith
  row_exists-join p (b ∷ rows) a n q =
      let none_after = row_exists-join p rows a (ground arith) q in ground arith

  swapped :
      (rows : List A) (a b : A) → SameRows ((rows ++ a ∷ []) ++ b ∷ []) ((rows ++ b ∷ []) ++ a ∷ [])
  swapped rows a b c = (over a b, over b a)
    where
      over : (x y : A) → Among c ((rows ++ x ∷ []) ++ y ∷ []) → Among c ((rows ++ y ∷ []) ++ x ∷ [])
      over x y m = elim (Among-append (rows ++ x ∷ []) (y ∷ []) c m) [
        | inl l ↦ elim (Among-append rows (x ∷ []) c l) [
          | inl k ↦ Among-left (rows ++ y ∷ []) (x ∷ []) c (Among-left rows (y ∷ []) c k)
          | inr k ↦ Among-right (rows ++ y ∷ []) (x ∷ []) c k
        ]
        | inr r ↦ Among-left (rows ++ y ∷ []) (x ∷ []) c (Among-right rows (y ∷ []) c r)
      ]

module _ (P : ErrorsPkg) (D : Driver P.Error) (unmarshal : Bytes → Outcome P.Error EntityField)
    {PublicKey : Type 0} where
  create_user-again :
      (u : User PublicKey) (s s' t : Tables PublicKey)
      → create_user P D unmarshal u s ≡ ok s'
      → row_exists (λ w. w.id == u.id) t.users ≡ false
      → create_user P D unmarshal u t ≡ ok (record t { users = t.users ++ u ∷ [] })
  unfolding create_user insert_user_row
  create_user-again u s s' t q n = elim (Outcome-cases (unmarshal u.entity)) [
    | inl (e, k) ↦ ground arith
    | inr (inl (e, k)) ↦ absurd (ground arith)
    | inr (inr k) ↦ absurd (ground arith)
  ]

  -- On consistent tables, two registrations that both succeed also succeed in the other order, and
  -- the tables they leave are one element of the stored state.
  pub create_user_comm :
      (u v : User PublicKey) (t s s' : Tables PublicKey)
      → IsConsistent t
      → create_user P D unmarshal u t ≡ ok s
      → create_user P D unmarshal v s ≡ ok s'
      → (r : Tables PublicKey) × (r' : Tables PublicKey) × (c : IsConsistent s') × (d : IsConsistent
          r')
        × (create_user P D unmarshal v t ≡ ok r)
        × (create_user P D unmarshal u r ≡ ok r')
        × (stored s' c ≡ stored r' d)
  create_user_comm u v t s s' c p q =
      let (same, new) = create_user-appends P D unmarshal u t s p in
      let (same', new') = create_user-appends P D unmarshal v s s' q in
      let new_here : row_exists (λ w. w.id == v.id) (t.users ++ u ∷ []) ≡ false =
        ap (λ z. row_exists (λ w. w.id == v.id) z.users) same ∙ new' in
      let (free, other) = row_exists-end (λ w. w.id == v.id) t.users u new_here in
      let r = record t { users = t.users ++ v ∷ [] } in
      let r' = record t { users = (t.users ++ v ∷ []) ++ u ∷ [] } in
      let first : create_user P D unmarshal v t ≡ ok r = create_user-again v s s' t q free in
      let second : create_user P D unmarshal u r ≡ ok r' = create_user-again u t s r p (
        row_exists-join (λ w. w.id == u.id) t.users v new
          (ground (arith, eq_iff u.id v.id, eq_iff v.id u.id))) in
      (
        r,
        r',
        create_user-IsConsistent P D unmarshal v s s'
            (create_user-IsConsistent P D unmarshal u t s c p) q,
        create_user-IsConsistent P D unmarshal u r r'
            (create_user-IsConsistent P D unmarshal v t r c first) second,
        first,
        second,
        Quot.sound (
            rw (← same', ← same)
              (record { users = swapped t.users u v; xpubs = λ x. (λ m. m, λ m. m) })),
      )
