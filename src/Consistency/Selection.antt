-- ===== src/Consistency/Selection.antt =====
-- The rows that the queries of internal/oracle/user.go select, and what an update does to them.
use text.Mathlib.TextEquality.{eq_iff}
use identity_oracle.Prelude.{
  String, ◌≡◌, ◌≢◌, refl, ◌∙◌, ap, sym, inl, inr, Bool, true, false, not, ◌&&◌, List, [], ◌∷◌, All,
  arith, ℕ, Bool-cases,
}
use identity_oracle.Prelude.Equality.{◌==◌, string_comparable}
use identity_oracle.Prelude.Keys.{bytes_comparable, same_key_iff}
use identity_oracle.Entity.Subset.{Among}
use identity_oracle.Storage.{Bytes}
use identity_oracle.Database.{User, XPub, Tables, rows_where}
use identity_oracle.Database.Rows.{Among-rows_where, rows_where-none, All-Among, Among-append}
use identity_oracle.Users.{owned_by, set_entity, set_row}
use identity_oracle.Consistency.{Unique}

module _ {PublicKey : Type 0} where
  -- The condition of `FetchUser`.
  abbrev pub is_active : String → User PublicKey → Bool
  is_active id u = u.id == id && not u.is_deleted

  pub inactive : (id : String) (u : User PublicKey) → u.id ≢ id → is_active id u ≡ false
  inactive id u n = ground (arith, eq_iff u.id id)

  pub active :
      (id : String) (u : User PublicKey) → u.id ≡ id → u.is_deleted ≡ false → is_active id u ≡ true
  active id u e d = ground (arith, eq_iff u.id id)

  pub active-parts :
      (id : String) (u : User PublicKey)
      → is_active id u ≡ true
      → (u.id ≡ id) × (u.is_deleted ≡ false)
  active-parts id u a = (ground (arith, eq_iff u.id id), ground (arith, eq_iff u.id id))

  -- The one row of a user who is active, in a table without duplicate ids.
  pub one_row :
      (id : String) (users : List (User PublicKey)) (u : User PublicKey)
      → Unique (λ w. w.id) users
      → Among u users
      → u.id ≡ id
      → u.is_deleted ≡ false
      → rows_where (is_active id) users ≡ u ∷ []
  unfolding rows_where
  one_row id [] u q m e d = absurd m
  one_row id (v ∷ users) u q (inl p) e d =
      let others = rows_where-none (is_active id) users (unlike users q.0) in
      rw (← p, active id u e d, others) refl
    where
      unlike :
          (rows : List (User PublicKey))
          → All (λ w. w.id ≢ v.id) rows
          → All (λ w. is_active id w ≡ false) rows
      unlike [] h = tt
      unlike (w ∷ rows) h = (
        inactive id w (λ k. h.0 (k ∙ sym e ∙ ap (λ (x : User PublicKey). x.id) p)),
        unlike rows h.1,
      )
  one_row id (v ∷ users) u q (inr m) e d =
      let apart : v.id ≢ id = λ k. All-Among (λ w. w.id ≢ v.id) users u q.0 m (e ∙ sym k) in
      rw (inactive id v apart) (one_row id users u q.1 m e d)

  pub Among-set_entity :
      (id : String) (b : Bytes) (now : ℕ) (users : List (User PublicKey)) (u : User PublicKey)
      → Among u users
      → Among (set_row id b now u) (set_entity id b now users)
  Among-set_entity id b now [] u m = m
  Among-set_entity id b now (v ∷ users) u (inl p) = inl (ap (set_row id b now) p)
  Among-set_entity id b now (v ∷ users) u (inr m) = inr (Among-set_entity id b now users u m)

  set_row-active :
      (j id : String) (b : Bytes) (now : ℕ) (u : User PublicKey)
      → is_active j (set_row id b now u) ≡ is_active j u
  set_row-active j id b now u = ground arith

  set_row_ne :
      (id : String) (b : Bytes) (now : ℕ) (u : User PublicKey) → u.id ≢ id → set_row id b now u ≡ u
  set_row_ne id b now u n = ground (arith, eq_iff u.id id)

  pub set_row_self :
      (id : String) (b : Bytes) (now : ℕ) (u : User PublicKey)
      → u.id ≡ id
      → set_row id b now u ≡ record u { entity = b; date_modified = now }
  set_row_self id b now u e = rw ((eq_iff u.id id).1 e)

  -- An update of one user leaves the rows of another.
  pub rows-set_entity_ne :
      (j id : String) (b : Bytes) (now : ℕ) (users : List (User PublicKey))
      → j ≢ id
      → rows_where (is_active j) (set_entity id b now users) ≡ rows_where (is_active j) users
  unfolding rows_where
  rows-set_entity_ne j id b now [] n = refl
  rows-set_entity_ne j id b now (u ∷ users) n = elim (Bool-cases (is_active j u)) [
    | inl y ↦
        rw (set_row-active j id b now u, y, rows-set_entity_ne j id b now users n)
          (ap (λ w. w ∷ rows_where (is_active j) users)
            (set_row_ne id b now u (λ e. n (sym (active-parts j u y).0 ∙ e))))
    | inr no_row ↦ rw (set_row-active j id b now u, no_row) (rows-set_entity_ne j id b now users n)
  ]

-- A user who owns the keys.
pub record Owns {PublicKey : Type 0} (t : Tables PublicKey) (keys : Bytes) (u : User PublicKey)
    : Type 0 where
  pub row : XPub
  pub listed : Among row t.xpubs
  pub has_keys : row.xpub ≡ keys
  pub is_of : row.user_id ≡ u.id

module _ {PublicKey : Type 0} where
  pub owned_by_sound :
      (keys : Bytes) (xpubs : List XPub) (users : List (User PublicKey)) (u : User PublicKey)
      → Among u (owned_by keys xpubs users)
      → Among u users
        × (u.is_deleted ≡ false)
        × ((x : XPub) × Among x xpubs × (x.xpub ≡ keys) × (x.user_id ≡ u.id))
  owned_by_sound keys [] users u m = absurd m
  owned_by_sound keys (x ∷ xpubs) users u m =
      elim (Among-append (rows_where _ users) (owned_by keys xpubs users) u m) [
        | inl here ↦
            let (listed, holds) = Among-rows_where _ u users here in
            (
              listed,
              ground (arith, eq_iff x.user_id u.id),
              (
                x,
                inl refl,
                ground (arith, same_key_iff x.xpub keys),
                ground (arith, eq_iff x.user_id u.id),
              ),
            )
        | inr there ↦
            let (listed, alive, (y, my, k, o)) = owned_by_sound keys xpubs users u there in
            (listed, alive, (y, inr my, k, o))
      ]
