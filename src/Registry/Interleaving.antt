-- ===== src/Registry/Interleaving.antt =====
-- Requests that are served at once. A request of handlers/oracle.go reads a user with one statement and
-- writes with a later one; statements of other requests may run in between. Each statement is a step
-- on the tables, with a row that may come from tables long past.
use text.Mathlib.TextEquality.{eq_iff}
use identity_oracle.Prelude.{
  ℕ, String, ◌≡◌, ◌≢◌, refl, ◌∙◌, ap, ◌⊎◌, inl, inr, false, Option, List, [], ◌∷◌, map, arith,
  Bool-cases,
}
use identity_oracle.Prelude.Equality.{◌==◌, string_comparable}
use identity_oracle.Errors.{Outcome, ok, ErrorsPkg}
use identity_oracle.Entity.{EntityField}
use identity_oracle.Storage.{Bytes}
use identity_oracle.Database.{User, XPub, Tables, Driver, rows_where}
use identity_oracle.Users.{create_user, fetch_user, update_user, user_rows, set_entity}
use identity_oracle.XPubs.{create_xpub}
use identity_oracle.Consistency.{IsConsistent}
use identity_oracle.Consistency.Preservation.{
  create_user-IsConsistent, create_xpub-IsConsistent, update_user-IsConsistent,
}
use identity_oracle.Consistency.Selection.{is_active}
use identity_oracle.Consistency.Changes.{
  user_rows-active, user_rows-fresh, user_rows-create_user_ne, user_rows-create_xpub,
  update_user-sets,
}
use identity_oracle.Consistency.Lookup.{fetch_user-active}
use identity_oracle.Signing.{Crypto}
use identity_oracle.Web.{World}
use identity_oracle.Handlers.{Services, PayloadOf}
use identity_oracle.Handlers.Authority.{register-Registered}
use identity_oracle.Handlers.Additions.{add_xpub-AddedXPub}
use identity_oracle.Handlers.Updates.{update_identity-Updated}
use identity_oracle.Handlers.Runs.{
  Request, to_register, to_add_xpub, to_update_identity, serve_request,
}

module _ {PublicKey : Type 0} where
  -- The public keys of the rows that `FetchUser` selects from.
  abbrev keys_of : String → Tables PublicKey → List PublicKey
  keys_of id t = map (λ u. u.public_key) (user_rows id t)

  set_entity-keys :
      (j id : String) (entity : Bytes) (now : ℕ) (users : List (User PublicKey))
      → map (λ u. u.public_key) (rows_where (is_active j) (set_entity id entity now users))
        ≡ map (λ u. u.public_key) (rows_where (is_active j) users)
  unfolding rows_where
  set_entity-keys j id entity now [] = refl
  set_entity-keys j id entity now (u ∷ users) = elim (Bool-cases (u.id == id)) [
    | inl y ↦ ground (arith, set_entity-keys j id entity now users)
    | inr n ↦ ground (arith, set_entity-keys j id entity now users)
  ]

  one_key :
      (rows : List (User PublicKey)) (k : PublicKey)
      → map (λ u. u.public_key) rows ≡ k ∷ []
      → (row : User PublicKey) × (rows ≡ row ∷ []) × (row.public_key ≡ k)
  one_key [] k e = cc
  one_key (u ∷ []) k e = (u, refl, cc)
  one_key (u ∷ v ∷ rows) k e = absurd (ground arith)

  no_row :
      (rows : List (User PublicKey)) (k : PublicKey)
      → map (λ u. u.public_key) rows ≡ k ∷ []
      → rows ≢ []
  no_row rows k e q = cc

module _ (P : ErrorsPkg) (D : Driver P.Error) (unmarshal : Bytes → Outcome P.Error EntityField)
    {PublicKey : Type 0} where
  open P use {Error}

  -- One statement of any request that changes the tables.
  pub data Write (t : Tables PublicKey) (t' : Tables PublicKey) : Type 0 where
    created :
        (u : User PublicKey)
        → u.is_deleted ≡ false
        → create_user P D unmarshal u t ≡ ok t'
        → Write t t'
    added : (new_id : String) (x : XPub) → create_xpub P D new_id x t ≡ ok t' → Write t t'
    updated :
        (now : ℕ) (u : User PublicKey) → update_user P D unmarshal now u t ≡ ok t' → Write t t'

  pub data Writes (t : Tables PublicKey) : Tables PublicKey → Type 0 where
    at_rest : Writes t t
    then_write : {s t' : Tables PublicKey} → Writes t s → Write s t' → Writes t t'

  Write-IsConsistent : (t t' : Tables PublicKey) → IsConsistent t → Write t t' → IsConsistent t'
  Write-IsConsistent t t' c (created u d h) = create_user-IsConsistent P D unmarshal u t t' c h
  Write-IsConsistent t t' c (added new_id x h) = create_xpub-IsConsistent P D new_id x t t' c h
  Write-IsConsistent t t' c (updated now u h) =
      update_user-IsConsistent P D unmarshal now u t t' c h

  -- A user with one row keeps one, with the same key.
  Write-keys :
      (id : String) (k : PublicKey) (t t' : Tables PublicKey)
      → Write t t'
      → keys_of id t ≡ k ∷ []
      → keys_of id t' ≡ k ∷ []
  Write-keys id k t t' (created u d h) e = elim (Bool-cases (id == u.id)) [
    | inl y ↦
        let fresh = user_rows-fresh P D unmarshal u t t' h in
        let same : id ≡ u.id = (eq_iff id u.id).0 y in
        absurd (no_row (user_rows id t) k e (ap (λ j. user_rows j t) same ∙ fresh))
    | inr n ↦
        ap (map (λ w. w.public_key))
          (user_rows-create_user_ne P D unmarshal id u t t' (λ q. cc (n, (eq_iff id u.id).1 q)) h)
        ∙ e
  ]
  Write-keys id k t t' (added new_id x h) e =
      ap (map (λ w. w.public_key)) (user_rows-create_xpub P D new_id id x t t' h) ∙ e
  Write-keys id k t t' (updated now u h) e =
      let sets = update_user-sets P D unmarshal now u t t' h in
      rw (← sets) (
        unfold user_rows in
        (set_entity-keys id u.id u.entity now t.users ∙ (unfold user_rows in e)))

  Writes-keys :
      (id : String) (k : PublicKey) (t t' : Tables PublicKey)
      → Writes t t'
      → keys_of id t ≡ k ∷ []
      → keys_of id t' ≡ k ∷ []
  Writes-keys id k t t' at_rest e = e
  Writes-keys id k t t' (then_write {s} before w) e =
      Write-keys id k s t' w (Writes-keys id k t s before e)

  -- Whatever statements of other requests run after a user was fetched from consistent tables, the tables stay consistent, and `FetchUser` still selects
  -- one row for that id, with the public key that the request checked a signature with.
  pub fetch_user-Writes :
      (id : String) (t t' : Tables PublicKey) (u : User PublicKey)
      → IsConsistent t
      → fetch_user P D id t ≡ ok u
      → Writes t t'
      → IsConsistent t'
        × ((row : User PublicKey) × (user_rows id t' ≡ row ∷ []) × (row.public_key ≡ u.public_key))
  fetch_user-Writes id t t' u c f run =
      let (listed, same, alive) = fetch_user-active P D id t u f in
      let row = user_rows-active t u c listed alive in
      let here : keys_of id t ≡ u.public_key ∷ [] =
        rw (← same) (ap (map (λ w. w.public_key)) row) in
      (
        keeps t t' c run,
        one_key (user_rows id t') u.public_key (Writes-keys id u.public_key t t' run here),
      )
    where
      keeps : (s s' : Tables PublicKey) → IsConsistent s → Writes s s' → IsConsistent s'
      keeps s s' d at_rest = d
      keeps s s' d (then_write {s = m} before w) = Write-IsConsistent m s' (keeps s m d before) w

module _ (P : ErrorsPkg) (C : Crypto P.Error) (S : Services P.Error C) (D : Driver P.Error)
    (encode_error : PayloadOf C S → Option P.Error) where
  open P use {Error}
  open C use {PublicKey}
  open S use {unmarshal_entity}

  -- A request changes the tables by one statement, or not at all.
  pub serve_request-Write :
      (request : Request P C S D encode_error) (w : World (Tables PublicKey) (PayloadOf C S))
      → (serve_request P C S D encode_error request w ≡ w.tables)
        ⊎ Write P D unmarshal_entity w.tables (serve_request P C S D encode_error request w)
  serve_request-Write (to_register approver failures decoded id created_at modified) w =
      elim (register-Registered P C S D encode_error approver failures decoded id created_at
        modified w) [
          | inl same ↦ inl same
          | inr (r, q, done) ↦ inr (created _ refl done.is_created)
        ]
  serve_request-Write (to_add_xpub approver failures decoded id now) w =
      elim (add_xpub-AddedXPub P C S D encode_error approver failures decoded id now w) [
        | inl same ↦ inl same
        | inr (r, q, done) ↦ inr (added id _ done.is_created)
      ]
  serve_request-Write (to_update_identity approver failures decoded now) w =
      elim (update_identity-Updated P C S D encode_error approver failures decoded now w) [
        | inl same ↦ inl same
        | inr (r, q, done) ↦ inr (updated now _ done.is_updated)
      ]
