-- ===== src/Consistency/Preservation.antt =====
-- Every statement of internal/oracle/user.go and internal/oracle/xpub.go that writes keeps the tables
-- consistent.
use text.Mathlib.TextEquality.{eq_iff}
use identity_oracle.Prelude.{
  String, ◌≡◌, ◌≢◌, ◌∙◌, ap, sym, inl, inr, true, false, ◌&&◌, List, [], ◌∷◌, ◌++◌, All, arith, ℕ,
  Bool-cases,
}
use identity_oracle.Prelude.Equality.{◌==◌, string_comparable}
use identity_oracle.Prelude.Keys.{bytes_comparable, same_key_iff}
use identity_oracle.Errors.{Outcome, ok, Outcome-cases, ErrorsPkg}
use identity_oracle.Entity.{EntityField}
use identity_oracle.Entity.Subset.{Among}
use identity_oracle.Storage.{Bytes}
use identity_oracle.Database.{User, XPub, Tables, Driver, row_exists, xpubs_insert}
use identity_oracle.Database.Rows.{row_exists-false, row_exists-true, execute-ok}
use identity_oracle.Users.{insert_user_row, create_user, set_entity, set_row, update_user}
use identity_oracle.XPubs.{insert_xpub_row, create_xpub}
use identity_oracle.Consistency.{Unique, HasUser, IsConsistent}

All-append_one :
    {A : Type 0} (P : A → Type 0) (rows : List A) (a : A)
    → All P rows
    → P a
    → All P (rows ++ a ∷ [])
All-append_one P [] a h p = (p, tt)
All-append_one P (b ∷ rows) a h p = (h.0, All-append_one P rows a h.1 p)

All-map :
    {A : Type 0} {P Q : A → Type 0}
    → ((a : A) → P a → Q a)
    → (rows : List A) → All P rows
    → All Q rows
All-map k [] h = tt
All-map k (a ∷ rows) h = (k a h.0, All-map k rows h.1)

Unique-append :
    {A K : Type 0} (f : A → K) (rows : List A) (a : A)
    → Unique f rows
    → All (λ b. f b ≢ f a) rows
    → Unique f (rows ++ a ∷ [])
Unique-append f [] a u n = (tt, tt)
Unique-append f (b ∷ rows) a u n =
    (All-append_one _ rows a u.0 (λ e. n.0 (sym e)), Unique-append f rows a u.1 n.1)

differs : (a b : String) → (a == b) ≡ false → a ≢ b
differs a b e p = ground (arith, eq_iff a b)

owner_differs :
    (y x : XPub)
    → (y.user_id == x.user_id && y.xpub == x.xpub) ≡ false
    → ◌≢◌ {A = String × Bytes} (y.user_id, y.xpub) (x.user_id, x.xpub)
owner_differs y x e p =
    let owner : y.user_id ≡ x.user_id = ap (λ (q : String × Bytes). q.0) p in
    let keys : y.xpub ≡ x.xpub = ap (λ (q : String × Bytes). q.1) p in
    ground (arith, eq_iff y.user_id x.user_id, same_key_iff y.xpub x.xpub)

module _ {PublicKey : Type 0} where
  HasUser-append :
      (id : String) (users : List (User PublicKey)) (u : User PublicKey)
      → HasUser id users
      → HasUser id (users ++ u ∷ [])
  HasUser-append id [] u h = absurd h
  HasUser-append id (v ∷ users) u (inl e) = inl e
  HasUser-append id (v ∷ users) u (inr h) = inr (HasUser-append id users u h)

  HasUser-Among :
      (id : String) (users : List (User PublicKey)) (u : User PublicKey)
      → Among u users
      → u.id ≡ id
      → HasUser id users
  HasUser-Among id [] u m e = m
  HasUser-Among id (v ∷ users) u (inl p) e = inl (ap (λ (w : User PublicKey). w.id) (sym p) ∙ e)
  HasUser-Among id (v ∷ users) u (inr m) e = inr (HasUser-Among id users u m e)

  insert_user_row-IsConsistent :
      {Error : Type 0} (v : Error) (u : User PublicKey) (t t' : Tables PublicKey)
      → IsConsistent t
      → insert_user_row v u t ≡ ok t'
      → IsConsistent t'
  unfolding insert_user_row
  insert_user_row-IsConsistent v u t t' c i =
      elim (Bool-cases (row_exists (λ w. w.id == u.id) t.users)) [
        | inl y ↦ absurd (ground arith)
        | inr n ↦
            let same : record t { users = t.users ++ u ∷ [] } ≡ t' = ground arith in
            let fresh =
              All-map (λ w e. differs w.id u.id e) t.users (row_exists-false _ t.users n) in
            rw (← same) (record {
              user_ids = Unique-append (λ w. w.id) t.users u c.user_ids fresh;
              xpub_ids = c.xpub_ids;
              owners = c.owners;
              references =
                  All-map (λ x h. HasUser-append x.user_id t.users u h) t.xpubs c.references;
            })
      ]

  -- A row that passes the three constraints keeps the tables consistent.
  add_xpub :
      (x : XPub) (t : Tables PublicKey)
      → IsConsistent t
      → row_exists (λ y. y.user_id == x.user_id && y.xpub == x.xpub) t.xpubs ≡ false
      → row_exists (λ y. y.id == x.id) t.xpubs ≡ false
      → row_exists (λ u. u.id == x.user_id) t.users ≡ true
      → IsConsistent (record t { xpubs = t.xpubs ++ x ∷ [] })
  add_xpub x t c new free there =
      let (u, m, e) = row_exists-true (λ u. u.id == x.user_id) t.users there in
      let owner = HasUser-Among x.user_id t.users u m ((eq_iff u.id x.user_id).0 e) in
      record {
        user_ids = c.user_ids;
        xpub_ids =
            Unique-append (λ y. y.id) t.xpubs x c.xpub_ids
              (All-map (λ y e. differs y.id x.id e) t.xpubs (row_exists-false _ t.xpubs free));
        owners =
            Unique-append {K = String × Bytes} (λ y. (y.user_id, y.xpub)) t.xpubs x c.owners
              (All-map (λ y e. owner_differs y x e) t.xpubs (row_exists-false _ t.xpubs new));
        references = All-append_one _ t.xpubs x c.references owner;
      }

  insert_xpub_row-IsConsistent :
      {Error : Type 0} (v : Error) (x : XPub) (t t' : Tables PublicKey)
      → IsConsistent t
      → insert_xpub_row v x t ≡ ok t'
      → IsConsistent t'
  unfolding insert_xpub_row
  insert_xpub_row-IsConsistent v x t t' c i =
      elim (Bool-cases (row_exists (λ y. y.user_id == x.user_id && y.xpub == x.xpub) t.xpubs)) [
        | inl known ↦ let same : t ≡ t' = ground arith in rw (← same) c
        | inr new ↦ elim (Bool-cases (row_exists (λ y. y.id == x.id) t.xpubs)) [
          | inl taken ↦ absurd (ground arith)
          | inr free ↦ elim (Bool-cases (row_exists (λ u. u.id == x.user_id) t.users)) [
            | inl there ↦
                let same : record t { xpubs = t.xpubs ++ x ∷ [] } ≡ t' = ground arith in
                rw (← same) (add_xpub x t c new free there)
            | inr missing ↦ absurd (ground arith)
          ]
        ]
      ]

  set_entity-HasUser :
      (id j : String) (b : Bytes) (now : ℕ) (users : List (User PublicKey))
      → HasUser j users
      → HasUser j (set_entity id b now users)
  set_entity-HasUser id j b now [] h = h
  set_entity-HasUser id j b now (u ∷ users) (inl e) = inl (ground arith)
  set_entity-HasUser id j b now (u ∷ users) (inr h) = inr (set_entity-HasUser id j b now users h)

  set_row-id :
      (id : String) (b : Bytes) (now : ℕ) (u : User PublicKey) → (set_row id b now u).id ≡ u.id
  set_row-id id b now u = ground arith

  set_entity-ne :
      (id k : String) (b : Bytes) (now : ℕ) (users : List (User PublicKey))
      → All (λ w. w.id ≢ k) users
      → All (λ w. w.id ≢ k) (set_entity id b now users)
  set_entity-ne id k b now [] h = h
  set_entity-ne id k b now (u ∷ users) h =
      ((λ e. h.0 (sym (set_row-id id b now u) ∙ e)), set_entity-ne id k b now users h.1)

  pub set_entity-Unique :
      (id : String) (b : Bytes) (now : ℕ) (users : List (User PublicKey))
      → Unique (λ u. u.id) users
      → Unique (λ u. u.id) (set_entity id b now users)
  set_entity-Unique id b now [] h = h
  set_entity-Unique id b now (u ∷ users) h = (
    rw (set_row-id id b now u) (set_entity-ne id u.id b now users h.0),
    set_entity-Unique id b now users h.1,
  )

  set_entity-IsConsistent :
      (id : String) (b : Bytes) (now : ℕ) (t : Tables PublicKey)
      → IsConsistent t
      → IsConsistent (record t { users = set_entity id b now t.users })
  set_entity-IsConsistent id b now t c = record {
    user_ids = set_entity-Unique id b now t.users c.user_ids;
    xpub_ids = c.xpub_ids;
    owners = c.owners;
    references =
        All-map (λ x h. set_entity-HasUser id x.user_id b now t.users h) t.xpubs c.references;
  }

module _ (P : ErrorsPkg) (D : Driver P.Error) {PublicKey : Type 0} where
  open P use {Error}

  -- `CreateUser` keeps the tables consistent.
  pub create_user-IsConsistent :
      (unmarshal : Bytes → Outcome Error EntityField) (u : User PublicKey) (t t' : Tables PublicKey)
      → IsConsistent t
      → create_user P D unmarshal u t ≡ ok t'
      → IsConsistent t'
  unfolding create_user
  create_user-IsConsistent unmarshal u t t' c h = elim (Outcome-cases (unmarshal u.entity)) [
    | inl (e, q) ↦ insert_user_row-IsConsistent D.violation u t t' c (ground arith)
    | inr (inl (x, q)) ↦ absurd (ground arith)
    | inr (inr q) ↦ absurd (ground arith)
  ]

  -- `CreateXPub` keeps the tables consistent.
  pub create_xpub-IsConsistent :
      (new_id : String) (x : XPub) (t t' : Tables PublicKey)
      → IsConsistent t
      → create_xpub P D new_id x t ≡ ok t'
      → IsConsistent t'
  unfolding create_xpub
  create_xpub-IsConsistent new_id x t t' c h =
      let x' : XPub = record x { id = new_id } in
      insert_xpub_row-IsConsistent D.violation x' t t' c
        (execute-ok P D xpubs_insert (insert_xpub_row D.violation x' t) t' h)

  -- `UpdateUser` keeps the tables consistent.
  pub update_user-IsConsistent :
      (unmarshal : Bytes → Outcome Error EntityField) (now : ℕ) (u : User PublicKey)
      (t t' : Tables PublicKey)
      → IsConsistent t
      → update_user P D unmarshal now u t ≡ ok t'
      → IsConsistent t'
  unfolding update_user
  update_user-IsConsistent unmarshal now u t t' c h = elim (Outcome-cases (unmarshal u.entity)) [
    | inl (e, q) ↦
        let same : record t { users = set_entity u.id u.entity now t.users } ≡ t' = ground arith in
        rw (← same) (set_entity-IsConsistent u.id u.entity now t c)
    | inr (inl (x, q)) ↦ absurd (ground arith)
    | inr (inr q) ↦ absurd (ground arith)
  ]
