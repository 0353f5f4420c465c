-- ===== src/Storage/Laws.antt =====
-- What `Put` and `Fetch` promise together.
use identity_oracle.Prelude.{◌≡◌, ◌≢◌, Option, none, some, arith, inl, inr, ◌∙◌, ap}
use identity_oracle.Errors.{ok, Outcome-cases, ErrorsPkg}
use identity_oracle.Storage.{Bytes, ObjectStore, put, fetch}

module _ (P : ErrorsPkg) (O : ObjectStore P.Error) where
  open P use {Error, sentinel, kind}
  open O use {Contents, read, write, read-write_self, read-write_ne}

  put-inversion :
      (key body : Bytes) (c : Contents) (st : Option Contents)
      → put P O key body (some c) ≡ ok st
      → (c' : Contents) × (write key body c ≡ ok c') × (st ≡ some c')
  unfolding put
  put-inversion key body c st p = elim (Outcome-cases (write key body c)) [
    | inl (c', w) ↦ (c', w, ground arith)
    | inr (inl (x, w)) ↦ absurd (ground arith)
    | inr (inr w) ↦ absurd (ground arith)
  ]

  -- What was put is fetched.
  pub fetch-put_self :
      (key body : Bytes) (st st' : Option Contents)
      → put P O key body st ≡ ok st'
      → fetch P O key st' ≡ ok body
  unfolding fetch
  fetch-put_self key body none st' p = absurd (unfold put in cc)
  fetch-put_self key body (some c) st' p =
      let (c', w, q) = put-inversion key body c st' p in
      ap (fetch P O key) q ∙ rw (read-write_self key body c c' w, fetch)

  -- A put of one key changes no fetch of another.
  pub fetch-put_ne :
      (key other body : Bytes) (st st' : Option Contents)
      → other ≢ key
      → put P O key body st ≡ ok st'
      → fetch P O other st' ≡ fetch P O other st
  unfolding fetch
  fetch-put_ne key other body none st' n p = absurd (unfold put in cc)
  fetch-put_ne key other body (some c) st' n p =
      let (c', w, q) = put-inversion key body c st' p in
      ap (fetch P O other) q ∙ rw (read-write_ne key other body c c' n w, fetch)
