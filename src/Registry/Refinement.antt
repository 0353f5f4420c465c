-- ===== src/Registry/Refinement.antt =====
-- Every request to the service is a change of the registry, and what follows for whole runs.
use text.Mathlib.TextEquality.{eq_iff}
use identity_oracle.Prelude.{
  String, ◌≡◌, refl, ◌∙◌, sym, ap, inl, inr, false, Option, some, Bool-cases, ℕ,
}
use identity_oracle.Prelude.Equality.{◌==◌, string_comparable}
use identity_oracle.Errors.{Outcome, ok, ErrorsPkg}
use identity_oracle.Entity.{EntityField}
use identity_oracle.Storage.{Bytes}
use identity_oracle.Database.{User, XPub, Tables, Driver}
use identity_oracle.Users.{create_user, fetch_user, update_user}
use identity_oracle.XPubs.{create_xpub}
use identity_oracle.Consistency.{IsConsistent}
use identity_oracle.Consistency.Changes.{
  user_rows-active, user_rows-fresh, user_rows-create_user, user_rows-create_user_ne,
  user_rows-update_user, user_rows-update_user_ne, user_rows-create_xpub,
}
use identity_oracle.Consistency.Lookup.{fetch_user-active}
use identity_oracle.Signing.{Crypto}
use identity_oracle.Web.{World}
use identity_oracle.Handlers.{Services, PayloadOf}
use identity_oracle.Handlers.Authority.{register-Registered}
use identity_oracle.Handlers.Additions.{add_xpub-AddedXPub}
use identity_oracle.Handlers.Updates.{update_identity-Updated}
use identity_oracle.Handlers.Runs.{
  Request, to_register, to_add_xpub, to_update_identity, serve_request, Reachable, at_start, served,
  Reachable-IsConsistent,
}
use identity_oracle.Registry.{
  Identity, Registry, first_identity, view, Change, stays, joins, updates,
}

module _ (P : ErrorsPkg) (D : Driver P.Error) {PublicKey : Type 0} where
  open P use {Error}

  create_user-Change :
      (unmarshal : Bytes → Outcome Error EntityField) (u : User PublicKey) (t t' : Tables PublicKey)
      → u.is_deleted ≡ false
      → create_user P D unmarshal u t ≡ ok t'
      → Change (view t) (view t')
  create_user-Change unmarshal u t t' d c =
      joins u.id (record { entity = u.entity; public_key = u.public_key })
        (ap first_identity (user_rows-fresh P D unmarshal u t t' c))
        (ap first_identity (user_rows-create_user P D unmarshal u t t' d c))
        (λ j n. ap first_identity (user_rows-create_user_ne P D unmarshal j u t t' n c))

  create_xpub-Change :
      (new_id : String) (x : XPub) (t t' : Tables PublicKey)
      → create_xpub P D new_id x t ≡ ok t'
      → Change (view t) (view t')
  create_xpub-Change new_id x t t' h =
      stays (λ j. ap first_identity (user_rows-create_xpub P D new_id j x t t' h))

  update_user-Change :
      (unmarshal : Bytes → Outcome Error EntityField) (now : ℕ) (id : String) (entity : Bytes)
      (u : User PublicKey) (t t' : Tables PublicKey)
      → IsConsistent t
      → fetch_user P D id t ≡ ok u
      → update_user P D unmarshal now (record u { entity = entity }) t ≡ ok t'
      → Change (view t) (view t')
  update_user-Change unmarshal now id entity u t t' c f h =
      let (listed, same, alive) = fetch_user-active P D id t u f in
      updates u.id (record { entity = u.entity; public_key = u.public_key }) entity
        (ap first_identity (user_rows-active t u c listed alive))
        (ap first_identity (user_rows-update_user P D unmarshal now entity u t t' c listed alive h))
        (λ j n.
          ap first_identity
            (user_rows-update_user_ne P D unmarshal now j (record u { entity = entity }) t t' n h))

module _ (P : ErrorsPkg) (C : Crypto P.Error) (S : Services P.Error C) (D : Driver P.Error)
    (encode_error : PayloadOf C S → Option P.Error) where
  open P use {Error}
  open C use {PublicKey}
  open S use {unmarshal_entity}

  pub unchanged : (t t' : Tables PublicKey) → t' ≡ t → Change (view t) (view t')
  unchanged t t' e = stays (λ j. ap (λ (x : Tables PublicKey). view x j) e)

  -- On consistent tables every request to `Register`, `AddXPub` or `UpdateIdentity` is one change of
  -- the registry, or leaves it: the tables implement the registry.
  pub serve_request-Change :
      (request : Request P C S D encode_error) (w : World (Tables PublicKey) (PayloadOf C S))
      → IsConsistent w.tables
      → Change (view w.tables) (view (serve_request P C S D encode_error request w))
  serve_request-Change (to_register approver failures decoded id created modified) w c =
      elim (register-Registered P C S D encode_error approver failures decoded id created modified
        w) [
          | inl same ↦ unchanged w.tables _ same
          | inr (r, q, done) ↦
              create_user-Change P D unmarshal_entity _ w.tables _ refl done.is_created
        ]
  serve_request-Change (to_add_xpub approver failures decoded id now) w c =
      elim (add_xpub-AddedXPub P C S D encode_error approver failures decoded id now w) [
        | inl same ↦ unchanged w.tables _ same
        | inr (r, q, done) ↦ create_xpub-Change P D id _ w.tables _ done.is_created
      ]
  serve_request-Change (to_update_identity approver failures decoded now) w c =
      elim (update_identity-Updated P C S D encode_error approver failures decoded now w) [
        | inl same ↦ unchanged w.tables _ same
        | inr (r, q, done) ↦
            update_user-Change P D unmarshal_entity now r.user_id done.entity done.user w.tables _ c
              done.is_user done.is_updated
      ]

  Change-key :
      (v v' : Registry PublicKey) (id : String) (x : Identity PublicKey)
      → Change v v'
      → v id ≡ some x
      → (y : Identity PublicKey) × (v' id ≡ some y) × (y.public_key ≡ x.public_key)
  Change-key v v' id x (stays same) e = (x, same id ∙ e, refl)
  Change-key v v' id x (joins j y before after elsewhere) e = elim (Bool-cases (id == j)) [
    | inl p ↦ absurd (cc (before, e, (eq_iff id j).0 p))
    | inr n ↦ (x, elsewhere id (λ q. cc (n, (eq_iff id j).1 q)) ∙ e, refl)
  ]
  Change-key v v' id x (updates j y entity before after elsewhere) e = elim (Bool-cases (id == j)) [
    | inl p ↦
        let same : id ≡ j = (eq_iff id j).0 p in
        let one : some y ≡ some x = sym before ∙ ap v (sym same) ∙ e in
        let it : y ≡ x = cc in
        (
          record y { entity = entity },
          ap v' same ∙ after,
          ap (λ (z : Identity PublicKey). z.public_key) it,
        )
    | inr n ↦ (x, elsewhere id (λ q. cc (n, (eq_iff id j).1 q)) ∙ e, refl)
  ]

  -- Whatever requests are served, an id that has an identity keeps one, under the same public key.
  pub public_key-Reachable :
      (start t : Tables PublicKey) (id : String) (x : Identity PublicKey)
      → IsConsistent start
      → Reachable P C S D encode_error start t
      → view start id ≡ some x
      → (y : Identity PublicKey) × (view t id ≡ some y) × (y.public_key ≡ x.public_key)
  public_key-Reachable start t id x c at_start e = (x, e, refl)
  public_key-Reachable start t id x c (served w request before) e =
      let (y, q, k) = public_key-Reachable start w.tables id x c before e in
      let here = Reachable-IsConsistent P C S D encode_error start w.tables c before in
      let (z, r, l) = Change-key (view w.tables) _ id y (serve_request-Change request w here) q in
      (z, r, l ∙ k)
